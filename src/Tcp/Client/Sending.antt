-- ===== src/Tcp/Client/Sending.antt =====
-- The TCP client sends the next chunk, or stops.
use grpccapnp.Base.{
  ℕ, ◌≤◌, ◌<◌, ◌≡◌, refl, sym, ap, ap₂, ◌∙◌, subst, inl, inr, Byte, Bytes, List, [], ◌∷◌, ◌++◌,
  Bool, true, false, arith, length, take, drop, length-take, length-drop, drop-all, leb, is_empty,
  map, append-nil, reverse, List-cases, if◌then◌else◌,
}
use grpccapnp.Base.Chunks.{chunks_of, chunks_of-nil, chunks_of-cons}
use grpccapnp.Common.Double.{Double}
use grpccapnp.Tcp.Reversal.{get_reversed_vector_content}
use grpccapnp.Tcp.Messaging.{prepare_message}
use grpccapnp.Tcp.ChunkReader.{ChunkReader, read_next_chunk, eof}
use grpccapnp.Tcp.ChunkReader.Reading.{Ready, Took, read_next_chunk-Took}
use grpccapnp.Tcp.Metrics.{Moment, MetricsAggregator, stop_timer, start_chunk_rtt_timer}
use grpccapnp.Tcp.Metrics.Records.{Same, stop_timer-Same}
use grpccapnp.Tcp.Client.{
  writing, Clock, Client, send_chunk, stop_client_operations, send_next_chunk,
}
use grpccapnp.Tcp.Client.Progress.{Tracked, Behind, IsSending, IsDone, Stands, Goes, Same-Tracked}

stopped-Tracked :
    (double : Double) (k b : ℕ) (t : Moment) (already : Bool) (m : MetricsAggregator double)
    → Tracked double k b m
    → Tracked double k b (if already then m else stop_timer double t m)
stopped-Tracked double k b t true m h = h
stopped-Tracked double k b t false m h =
    Same-Tracked double k b m (stop_timer double t m) (stop_timer-Same double t m) h

module _ (double : Double) (n len total : ℕ) (expected : List Bytes) (clock : Clock) where
  pub stop-IsDone :
      (past : List Bytes) (c : Client double)
      → c.operations_stopped ≡ false
      → Tracked double total len c.metrics
      → c.chunks_sent ≡ total
      → past ≡ expected
      → IsDone double n len total expected past (stop_client_operations double clock false c)
  unfolding stop_client_operations
  stop-IsDone past c running tracked sent answers =
      let still =
        stopped-Tracked double total len clock.at_stop c.timer_stopped_flag c.metrics tracked in
      simp (running, if◌then◌else◌)
        (record {
          stopped = refl;
          waits = refl;
          said = refl;
          tracked = still;
          sent = sent;
          answers = answers;
        })

  pub stop_failed :
      (past : List Bytes) (c : Client double)
      → c.operations_stopped ≡ false
      → Stands double n len total expected past (stop_client_operations double clock true c)
  unfolding stop_client_operations
  stop_failed past c running =
      simp (running, if◌then◌else◌) (inr (record { stopped = refl; said = refl }))

  -- With nothing left, the chunks verified are all.
  pub all_verified :
      (past : List Bytes) (c : Client double)
      → (h : IsSending double n len total expected past c) → h.rest ≡ []
      → (c.chunks_sent ≡ total) × Tracked double total len c.metrics × (past ≡ expected)
  all_verified past c h e =
      let k : c.chunks_sent ≡ total = omega (
        arith,
        h.all_chunks,
        ap (λ q. length (chunks_of n q)) e,
        ap length (chunks_of-nil {A = Byte} n),
      ) in
      let b : h.sent_bytes ≡ len = omega (arith, h.all_bytes, ap length e) in
      (
        k,
        subst (λ q. Tracked double q len c.metrics) k
            (subst (λ q. Tracked double c.chunks_sent q c.metrics) b h.tracked),
        sym (append-nil past)
            ∙ ap (λ q. past ++ map reverse q) (sym (ap (chunks_of n) e ∙ chunks_of-nil n))
            ∙ h.answers,
      )

  send_over :
      (c : Client double)
      → c.operations_stopped ≡ false
      → c.total_chunks_to_send ≤ c.chunks_sent
      → send_next_chunk double clock c ≡ stop_client_operations double clock false c
  unfolding send_next_chunk
  send_over c running over = ground arith

  send_some :
      (c : Client double)
      → c.operations_stopped ≡ false
      → c.chunks_sent < c.total_chunks_to_send
      → c.chunk_reader.eof_flag ≡ false
      → is_empty (read_next_chunk c.chunk_reader).1 ≡ false
      → send_next_chunk double clock c ≡ record c {
        chunk_reader = (read_next_chunk c.chunk_reader).0;
        current_chunk_data = (read_next_chunk c.chunk_reader).1;
        waiting = writing (prepare_message (read_next_chunk c.chunk_reader).1);
        expected_reversed_chunk = reverse (read_next_chunk c.chunk_reader).1;
        metrics = start_chunk_rtt_timer double clock.at_start c.metrics;
      }
  unfolding send_next_chunk send_chunk eof get_reversed_vector_content
  send_some c running left goes_on nonempty =
      let more : leb c.total_chunks_to_send c.chunks_sent ≡ false = ground arith in
      simp (running, more, goes_on, nonempty, if◌then◌else◌) refl

  start_chunk-Same :
      (m : MetricsAggregator double) → Same double m (start_chunk_rtt_timer double clock.at_start m)
  unfolding start_chunk_rtt_timer
  start_chunk-Same m = (refl, refl, refl, refl)

  is_empty_some : (bs : Bytes) → 0 < length bs → is_empty bs ≡ false
  is_empty_some [] p = absurd (omega arith)
  is_empty_some (b ∷ bs) p = refl

  -- Reading on while bytes are left.
  Behind-Took :
      (rest : Bytes) (r : ChunkReader)
      → Behind n rest r
      → 0 < length rest
      → Took rest r (read_next_chunk r).0 (read_next_chunk r).1
        × (r.eof_flag ≡ false)
        × Behind n (drop n rest) (read_next_chunk r).0
  Behind-Took rest r h some_left = elim h.coming [
    | inl ready ↦
        let t : Took rest r (read_next_chunk r).0 (read_next_chunk r).1 =
          subst (λ q. Took q r (read_next_chunk r).0 (read_next_chunk r).1) ready.coming
            (read_next_chunk-Took r (subst (λ q. Ready q r) (sym ready.coming) ready)
              (omega (arith, ap length ready.coming))) in
        (
          t,
          ready.goes_on,
          record {
            same_chunk_size = t.same_chunk_size ∙ h.same_chunk_size;
            chunked = h.chunked;
            coming = elim t.then [
              | inl (fits, on) ↦
                  inl (subst (λ q. Ready (drop q rest) (read_next_chunk r).0) h.same_chunk_size on)
              | inr (short, over) ↦ inr (drop-all n rest (omega (arith, h.same_chunk_size)), over)
            ];
          },
        )
    | inr (none_left, over) ↦ absurd (omega (arith, ap length none_left))
  ]

  pub send_next_chunk-Goes :
      (past : List Bytes) (c : Client double)
      → IsSending double n len total expected past c
      → Goes double n len total expected c.chunks_sent past (send_next_chunk double clock c)
  send_next_chunk-Goes past c h = elim (List-cases h.rest) [
    | inl e ↦
        let (k, tracked, answers) = all_verified past c h e in
        subst (Goes double n len total expected c.chunks_sent past)
          (sym (send_over c h.running (omega (arith, h.target))))
          (inl (stop-IsDone past c h.running tracked k answers))
    | inr (b, bs, e) ↦
        let some_left : 0 < length h.rest = omega (arith, ap length e) in
        let (t, goes_on, behind) = Behind-Took h.rest c.chunk_reader h.behind some_left in
        let r = (read_next_chunk c.chunk_reader).0 in
        let chunk = (read_next_chunk c.chunk_reader).1 in
        let took : chunk ≡ take n h.rest =
          t.took ∙ ap (λ q. take q h.rest) h.behind.same_chunk_size in
        let cut : chunks_of n h.rest ≡ take n h.rest ∷ chunks_of n (drop n h.rest) =
          rw e (chunks_of-cons n b bs h.behind.chunked) in
        let sized = ap length took ∙ length-take n h.rest in
        subst (Goes double n len total expected c.chunks_sent past)
          (sym (
            send_some c h.running (omega (arith, h.target, h.all_chunks, ap length cut)) goes_on
              (is_empty_some chunk (omega (arith, sized, h.behind.chunked)))))
          (inr (
            (
              record {
                rest = drop n h.rest;
                sent_bytes = h.sent_bytes;
                running = h.running;
                silent = h.silent;
                tracked =
                    Same-Tracked double _ _ c.metrics _ (start_chunk-Same c.metrics) h.tracked;
                some_chunk = omega (arith, sized, h.behind.chunked, some_left);
                fits = omega (arith, sized);
                expects = refl;
                all_bytes = omega (arith, h.all_bytes, sized, length-drop n h.rest);
                answers =
                    ap₂ (λ q qs. past ++ reverse q ∷ map reverse qs) took refl
                    ∙ ap (λ q. past ++ map reverse q) (sym cut)
                    ∙ h.answers;
                all_chunks = omega (arith, h.all_chunks, ap length cut);
                target = h.target;
                behind = behind;
              },
              refl,
            ),
            refl,
          ))
  ]
