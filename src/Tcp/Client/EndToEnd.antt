-- ===== src/Tcp/Client/EndToEnd.antt =====
-- The TCP client against the server of this program, over a whole file.
use grpccapnp.Base.{
  ℕ, zero, suc, String, ◌+◌, ◌*◌, ◌^◌, ◌≤◌, ◌<◌, ◌≡◌, refl, sym, ap, ◌∙◌, subst, inl, inr, Bytes,
  List, [], ◌∷◌, ◌++◌, false, true, some, arith, length, map, reverse, bytes_eq, bytes_eq_refl,
}
use grpccapnp.Base.Chunks.{chunks_of, length-chunks_of}
use grpccapnp.Common.Double.{Double}
use grpccapnp.Common.Metrics.{u64}
use grpccapnp.Common.Stream.{File, IsSound}
use grpccapnp.Tcp.Config.{chunk_size}
use grpccapnp.Tcp.Server.{done, start}
use grpccapnp.Tcp.Server.Answers.{at_header}
use grpccapnp.Tcp.Client.{
  resolving, connecting, reading_body, nothing, Clock, Client, make, on_connected, on_resolved,
  handle_received_chunk_data,
}
use grpccapnp.Tcp.Client.Progress.{new-Tracked, IsDone, Goes}
use grpccapnp.Tcp.Client.Handlers.{on_resolved-Stands, connected-Goes}
use grpccapnp.Tcp.Client.Receiving.{again, verified-Goes}
use grpccapnp.Tcp.Client.Opening.{fresh, make-IsSending, chunks_le}
use grpccapnp.Tcp.Client.Exchange.{World, advance, exchange, world}
use grpccapnp.Tcp.Client.Exchange.Steps.{round_trip}

module _ (double : Double) where
  -- The client has ended without an error, with all of the file verified.
  abbrev pub Succeeds : File → ℕ → Client double → Type 0
  Succeeds f n c =
      (c.waiting ≡ nothing)
      × (c.finished ≡ some false)
      × (c.metrics.processed_chunks_count ≡ length (chunks_of n f.bytes))
      × (c.metrics.verified_chunks_count ≡ length (chunks_of n f.bytes))
      × (c.metrics.total_bytes_processed ≡ length f.bytes)

module _ (double : Double) (clock : Clock) where
  advance_idle : (w : World double) → w.client.waiting ≡ nothing → advance double clock w ≡ w
  unfolding advance
  advance_idle w e = rw e refl

  -- A client that has finished is left alone.
  exchange_idle :
      (fuel : ℕ) (w : World double) → w.client.waiting ≡ nothing → exchange double clock fuel w ≡ w
  unfolding exchange
  exchange_idle zero w e = refl
  exchange_idle (suc fuel) w e =
      ap (exchange double clock fuel) (advance_idle w e) ∙ exchange_idle fuel w e

  module _ (n len total : ℕ) (expected : List Bytes) (fits : n ≤ chunk_size * 2)
      (small : total < 2 ^ 64) where
    abbrev Ends : World double → Type 0
    Ends w = IsDone double n len total expected expected w.client

    all_sent :
        (k fuel m : ℕ) (past : List Bytes) (c : Client double) (buffer : Bytes)
        → Goes double n len total expected m past c
        → m + k ≡ total
        → 6 * k ≤ fuel
        → Ends (exchange double clock fuel (world double c (at_header buffer) [] []))
    all_sent k fuel m past c buffer (inl h) e enough =
        subst Ends (sym (exchange_idle fuel (world double c (at_header buffer) [] []) h.waits))
          (subst (λ q. IsDone double n len total expected q c) h.answers h)
    all_sent zero fuel m past c buffer (inr ((h, w), sent)) e enough =
        absurd (omega (arith, h.all_chunks, sent))
    all_sent (suc k) (suc (suc (suc (suc (suc (suc fuel)))))) m past c buffer (inr ((h, w), sent)) e
          enough =
        let chunk = c.current_chunk_data in
        let c' = record c { waiting = reading_body; read_body_buffer = reverse chunk } in
        let good : bytes_eq (reverse chunk) c.expected_reversed_chunk ≡ true =
          ap (bytes_eq (reverse chunk)) h.expects ∙ bytes_eq_refl (reverse chunk) in
        let next =
          verified-Goes double n len total expected clock past c' small
            (again double n len total expected clock past reading_body (reverse chunk) c h) good in
        subst Ends
          (sym (
            ap
              (λ q.
                exchange double clock (suc (suc (suc (suc (suc (suc fuel))))))
                  (world double (record c { waiting = q }) (at_header buffer) [] []))
              w
            ∙ round_trip double clock fuel c buffer chunk h.running h.some_chunk
                (omega (arith, h.fits, fits))))
          (all_sent k fuel (u64 (c.chunks_sent + 1)) (past ++ reverse chunk ∷ [])
            (handle_received_chunk_data double clock c') (reverse chunk) next
            (omega (arith, h.all_chunks, sent, e)) (omega (arith, enough)))
    all_sent (suc k) fuel m past c buffer (inr ((h, w), sent)) e enough = absurd (omega arith)

  connects :
      (fuel : ℕ) (c : Client double)
      → exchange double clock
          (suc (suc fuel))
          (world double (record c { waiting = resolving }) start [] [])
        ≡ exchange double clock fuel (
            world double
              (on_connected double clock (done true) (record c { waiting = connecting }))
              start
              []
              [])
  unfolding exchange advance on_resolved
  connects fuel c = refl

  -- For a file of fewer than 2 ^ 64 bytes that reads to its end, and a chunk size from 1 to twice the
  -- configured one, whatever the clock says: connected to a session of the server of this program, the
  -- client comes to its end (within two steps, and six for each chunk), says that no error occurred,
  -- and has every chunk of the file processed and verified, and all its bytes.
  pub exchange-Succeeds :
      (f : File) (n fuel : ℕ) (name : String)
      → IsSound f
      → 0 < n
      → n ≤ chunk_size * 2
      → length f.bytes < 2 ^ 64
      → 6 * length (chunks_of n f.bytes) + 2 ≤ fuel
      → Succeeds double f n
          (exchange double clock fuel (world double (fresh double f n name) start [] [])).client
  unfolding make on_resolved
  exchange-Succeeds f n (suc (suc fuel)) name s p fits small enough =
      let chunks = chunks_of n f.bytes in
      let len = length f.bytes in
      let expected = map reverse chunks in
      let below : length chunks < 2 ^ 64 =
        omega (arith, chunks_le double n len (length chunks) (length-chunks_of n f.bytes p) p) in
      let c₀ = fresh double f n name in
      let c₁ = record c₀ { waiting = connecting } in
      let ready = make-IsSending double f n _ s p (new-Tracked double name f.size n) in
      let go =
        connected-Goes double n len (length chunks) expected clock [] c₁
          (on_resolved-Stands double n len (length chunks) expected clock [] (done tt) c₀ ready) in
      let h =
        all_sent n len (length chunks) expected fits below (length chunks) fuel c₁.chunks_sent []
          (on_connected double clock (done true) c₁) [] go (omega arith) (omega (arith, enough)) in
      let m = h.tracked in
      subst (λ w. Succeeds double f n w.client) (sym (connects fuel c₀))
        (
          h.waits,
          h.said,
          m.consistent.processed ∙ m.count,
          m.consistent.verified ∙ m.verified,
          omega (arith, m.consistent.bytes, m.bytes),
        )
  exchange-Succeeds f n fuel name s p fits small enough = absurd (omega arith)
