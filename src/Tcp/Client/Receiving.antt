-- ===== src/Tcp/Client/Receiving.antt =====
-- The TCP client takes in the answer to a chunk.
use grpccapnp.Base.{
  ℕ, ◌+◌, ◌^◌, ◌<◌, ◌≡◌, refl, sym, ap, ◌∙◌, subst, inl, inr, Bytes, List, [], ◌∷◌, ◌++◌, Bool,
  true, false, ◌||◌, arith, length, take, drop, leb, bytes_eq, eq_of_bytes_eq, map, append_assoc,
  reverse, List-cases, Bool-cases, if◌then◌else◌,
}
use grpccapnp.Base.Chunks.{chunks_of, chunks_of-cons}
use grpccapnp.Common.Double.{Double}
use grpccapnp.Common.Metrics.{u64}
use grpccapnp.Tcp.ChunkReader.{eof}
use grpccapnp.Tcp.Metrics.{stop_and_record_chunk_rtt}
use grpccapnp.Tcp.Client.{
  Waiting, Clock, Client, stop_client_operations, send_next_chunk, handle_received_chunk_data,
}
use grpccapnp.Tcp.Client.Progress.{
  Tracked, IsSending, IsWaiting, Stands, Goes, Goes-Stands, recorded-Tracked,
}
use grpccapnp.Tcp.Client.Sending.{stop-IsDone, stop_failed, all_verified, send_next_chunk-Goes}

module _ (double : Double) (n len total : ℕ) (expected : List Bytes) (clock : Clock) where
  -- The condition on what is left does not look at the operation or at the buffer of answers.
  pub again :
      (past : List Bytes) (w : Waiting) (buffer : Bytes) (c : Client double)
      → IsWaiting double n len total expected past c
      → IsWaiting double n len total expected past
          (record c { waiting = w; read_body_buffer = buffer })
  again past w buffer c h = record {
    rest = h.rest;
    sent_bytes = h.sent_bytes;
    running = h.running;
    silent = h.silent;
    tracked = h.tracked;
    some_chunk = h.some_chunk;
    fits = h.fits;
    expects = h.expects;
    all_bytes = h.all_bytes;
    answers = h.answers;
    all_chunks = h.all_chunks;
    target = h.target;
    behind = h.behind;
  }

  -- The client with the answer recorded.
  abbrev recorded : Bool → ℕ → Client double → Client double
  recorded ok k c = record c {
    metrics =
        stop_and_record_chunk_rtt double clock.at_record (length c.current_chunk_data) ok c.metrics;
    chunks_sent = k;
  }

  receive_bad :
      (c : Client double)
      → c.operations_stopped ≡ false
      → bytes_eq c.read_body_buffer c.expected_reversed_chunk ≡ false
      → handle_received_chunk_data double clock c
        ≡ stop_client_operations double clock true (recorded false c.chunks_sent c)
  unfolding handle_received_chunk_data
  receive_bad c running e = simp (running, e, if◌then◌else◌) refl

  receive_last :
      (c : Client double)
      → c.operations_stopped ≡ false
      → bytes_eq c.read_body_buffer c.expected_reversed_chunk ≡ true
      → (leb c.total_chunks_to_send (u64 (c.chunks_sent + 1)) || c.chunk_reader.eof_flag) ≡ true
      → handle_received_chunk_data double clock c
        ≡ stop_client_operations double clock false (recorded true (u64 (c.chunks_sent + 1)) c)
  unfolding handle_received_chunk_data eof
  receive_last c running e over = simp (running, e, over, if◌then◌else◌) refl

  receive_next :
      (c : Client double)
      → c.operations_stopped ≡ false
      → bytes_eq c.read_body_buffer c.expected_reversed_chunk ≡ true
      → (leb c.total_chunks_to_send (u64 (c.chunks_sent + 1)) || c.chunk_reader.eof_flag) ≡ false
      → handle_received_chunk_data double clock c
        ≡ send_next_chunk double clock (recorded true (u64 (c.chunks_sent + 1)) c)
  unfolding handle_received_chunk_data eof
  receive_next c running e over = simp (running, e, over, if◌then◌else◌) refl

  -- A chunk that is verified takes the client on.
  verified-IsSending :
      (past : List Bytes) (c : Client double)
      → total < 2 ^ 64
      → (h : IsWaiting double n len total expected past c)
      → bytes_eq c.read_body_buffer c.expected_reversed_chunk ≡ true
      → IsSending double n len total expected
          (past ++ c.read_body_buffer ∷ [])
          (recorded true (u64 (c.chunks_sent + 1)) c)
  verified-IsSending past c small h good =
      let k : c.chunks_sent + 1 ≡ u64 (c.chunks_sent + 1) = omega (arith, h.all_chunks) in
      record {
        rest = h.rest;
        sent_bytes = h.sent_bytes + length c.current_chunk_data;
        running = h.running;
        silent = h.silent;
        tracked =
            subst
              (λ q.
                Tracked double q (h.sent_bytes + length c.current_chunk_data)
                  (recorded true q c).metrics)
              k
              (recorded-Tracked double c.chunks_sent h.sent_bytes (length c.current_chunk_data)
                clock.at_record c.metrics (omega (arith, h.all_chunks)) h.tracked);
        all_bytes = h.all_bytes;
        answers =
            append_assoc past (c.read_body_buffer ∷ []) (map reverse (chunks_of n h.rest))
            ∙ ap (λ q. past ++ q ∷ map reverse (chunks_of n h.rest))
                (eq_of_bytes_eq _ _ good ∙ h.expects)
            ∙ h.answers;
        all_chunks = omega (arith, h.all_chunks, k);
        target = h.target;
        behind = h.behind;
      }

  -- The client stops where nothing is left to send.
  over-empty :
      (past : List Bytes) (c : Client double)
      → (h : IsSending double n len total expected past c)
      → (leb c.total_chunks_to_send c.chunks_sent || c.chunk_reader.eof_flag) ≡ true
      → h.rest ≡ []
  over-empty past c h over = elim h.behind.coming [
    | inr (none_left, e) ↦ none_left
    | inl ready ↦ elim (List-cases h.rest) [
      | inl e ↦ e
      | inr (b, bs, e) ↦
          let cut : chunks_of n h.rest ≡ take n h.rest ∷ chunks_of n (drop n h.rest) =
            rw e (chunks_of-cons n b bs h.behind.chunked) in
          absurd (ground (arith, over, ready.goes_on, h.target, h.all_chunks, ap length cut))
    ]
  ]

  pub verified-Goes :
      (past : List Bytes) (c : Client double)
      → total < 2 ^ 64
      → IsWaiting double n len total expected past c
      → bytes_eq c.read_body_buffer c.expected_reversed_chunk ≡ true
      → Goes double n len total expected
          (u64 (c.chunks_sent + 1))
          (past ++ c.read_body_buffer ∷ [])
          (handle_received_chunk_data double clock c)
  verified-Goes past c small h good =
      let now = past ++ c.read_body_buffer ∷ [] in
      let c' = recorded true (u64 (c.chunks_sent + 1)) c in
      let next = verified-IsSending past c small h good in
      elim (Bool-cases
        (leb c.total_chunks_to_send (u64 (c.chunks_sent + 1)) || c.chunk_reader.eof_flag)) [
          | inr more ↦
              subst (Goes double n len total expected c'.chunks_sent now)
                (sym (receive_next c h.running good more))
                (send_next_chunk-Goes double n len total expected clock now c' next)
          | inl over ↦
              let (k, tracked, answers) =
                all_verified double n len total expected clock now c' next
                  (over-empty now c' next over) in
              subst (Goes double n len total expected c'.chunks_sent now)
                (sym (receive_last c h.running good over))
                (inl (
                  stop-IsDone double n len total expected clock now c' h.running tracked k answers))
        ]

  pub handle_received-Stands :
      (past : List Bytes) (c : Client double)
      → total < 2 ^ 64
      → IsWaiting double n len total expected past c
      → Stands double n len total expected
          (past ++ c.read_body_buffer ∷ [])
          (handle_received_chunk_data double clock c)
  handle_received-Stands past c small h =
      let now = past ++ c.read_body_buffer ∷ [] in
      elim (Bool-cases (bytes_eq c.read_body_buffer c.expected_reversed_chunk)) [
        | inr bad ↦
            subst (Stands double n len total expected now) (sym (receive_bad c h.running bad)) (
              stop_failed double n len total expected clock now (recorded false c.chunks_sent c)
                h.running)
        | inl good ↦
            Goes-Stands double n len total expected _ now _ (verified-Goes past c small h good)
      ]
