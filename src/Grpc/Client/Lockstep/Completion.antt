-- ===== src/Grpc/Client/Lockstep/Completion.antt =====
-- `ProcessFile` in rounds, over a whole file.
use grpccapnp.Base.{
  ℕ, zero, suc, ◌+◌, ◌^◌, ◌<◌, ◌≤◌, ◌≡◌, refl, sym, ap, ◌∙◌, subst, String, Byte, Bytes, [], ◌∷◌,
  ◌++◌, inl, inr, arith, length, length-append, is_empty,
}
use grpccapnp.Base.Chunks.{chunks_of, chunks_of-nil}
use grpccapnp.Common.Stream.{File, IsSound}
use grpccapnp.Common.ChunkReader.{ChunkReader, next_chunk}
use grpccapnp.Common.ChunkReader.Reading.{Delivered}
use grpccapnp.Common.ChunkReader.WholeFile.{
  AtEnd, fresh, fresh-Delivered, next_chunk-Next, eof-remaining,
}
use grpccapnp.Common.Metrics.{MetricsAggregator, record_chunk_sent, record_chunk_rtt_us, u64}
use grpccapnp.Grpc.Client.{Message, World, returned, run, start}
use grpccapnp.Grpc.Client.Lockstep.{rounds, idle, Completes, round_some, round_last}

rounds_end :
    (world : World) (seen : Bytes) (file : ChunkReader) (k id sent count : ℕ)
    (m : MetricsAggregator Message)
    → Delivered seen file
    → length (chunks_of file.chunk_size file.file_stream.rest) ≡ k
    → length file.file_stream.content ≡ world.expected
    → AtEnd seen file (next_chunk file).0 (next_chunk file).1
    → Completes world.expected m
        (run world (rounds (suc k)) (idle file id sent count (length seen) m))
rounds_end world seen file k id sent count m d cut size h =
    let over : 0 ≡ k = omega (
      arith,
      cut,
      ap (λ q. length (chunks_of file.chunk_size q)) h.none_left,
      ap length (chunks_of-nil {A = Byte} file.chunk_size),
    ) in
    let (_, _, noticed) = eof-remaining seen (next_chunk file).0 h.delivered in
    subst
      (λ q.
        Completes world.expected m
          (run world (rounds (suc q)) (idle file id sent count (length seen) m)))
      over
      (round_last world file id sent count (length seen) m (ap is_empty h.empty)
        (noticed.1 h.none_left')
        (omega (
          arith,
          ap length d.split,
          length-append seen file.file_stream.rest,
          ap length h.none_left,
          size,
        )))

rounds-Completes :
    (world : World) (seen : Bytes) (file : ChunkReader) (k id sent count : ℕ)
    (m : MetricsAggregator Message)
    → Delivered seen file
    → length (chunks_of file.chunk_size file.file_stream.rest) ≡ k
    → length file.file_stream.content ≡ world.expected
    → world.expected < 2 ^ 64
    → Completes world.expected m
        (run world (rounds (suc k)) (idle file id sent count (length seen) m))
unfolding record_chunk_sent record_chunk_rtt_us
rounds-Completes world seen file zero id sent count m d cut size small =
    elim (next_chunk-Next seen file d) [
      | inl h ↦ rounds_end world seen file zero id sent count m d cut size h
      | inr (b, bs, e, h) ↦ absurd (omega (arith, cut, ap length h.cuts))
    ]
rounds-Completes world seen file (suc k) id sent count m d cut size small =
    elim (next_chunk-Next seen file d) [
      | inl h ↦ rounds_end world seen file (suc k) id sent count m d cut size h
      | inr (b, bs, e, h) ↦
          let file' = (next_chunk file).0 in
          let chunk = (next_chunk file).1 in
          let id' = u64 (id + 1) in
          let m' =
            record_chunk_sent (length chunk) (world.byte_size chunk id')
              (record_chunk_rtt_us (world.rtt_us id') m) in
          let grows = length-append seen (b ∷ bs) in
          let within : length (seen ++ b ∷ bs) ≤ world.expected = omega (
            arith,
            ap length h.delivered.split,
            length-append (seen ++ b ∷ bs) file'.file_stream.rest,
            ap length h.same_content,
            size,
          ) in
          let exact : length (seen ++ b ∷ bs) ≡ u64 (length seen + length chunk) =
            omega (arith, grows, ap length e, within, small) in
          let cut' : length (chunks_of file'.chunk_size file'.file_stream.rest) ≡ k =
            ap (λ q. length (chunks_of q file'.file_stream.rest)) h.same_chunk_size
            ∙ omega (arith, cut, ap length h.cuts) in
          subst (Completes world.expected m)
            (sym (round_some world file id sent count (length seen) (suc k) m (ap is_empty e)))
            (subst
              (λ v. Completes world.expected m' (
                run world (rounds (suc k))
                  (idle file' id' (u64 (sent + 1)) (u64 (count + 1)) v m')))
              exact
              (rounds-Completes world (seen ++ b ∷ bs) file' k id' (u64 (sent + 1))
                (u64 (count + 1)) m' h.delivered cut' (ap length h.same_content ∙ size) small))
    ]

-- For a file of the expected size, of fewer than 2 ^ 64 bytes, that reads to its end, and a chunk size
-- above 0: as long as the stream works, a round of eight steps of the threads for each chunk, and one
-- more, take `ProcessFile` to its end. It has returned, with an empty map, all bytes of the file
-- verified, and no message logged beyond those from before.
pub rounds_complete :
    (world : World) (name : String) (n : ℕ) (f : File) (metrics : MetricsAggregator Message)
    → IsSound f
    → 0 < n
    → length f.bytes ≡ world.expected
    → world.expected < 2 ^ 64
    → let s =
        run world (rounds (suc (length (chunks_of n f.bytes)))) (start (fresh name n f) metrics) in
      (s.reader ≡ returned)
      × (s.inflight_requests_map ≡ [])
      × (s.total_bytes_verified_payload_by_reader ≡ length f.bytes)
      × (s.metrics.errors ≡ metrics.errors)
rounds_complete world name n f metrics s p size small =
    let (over, empty, all, quiet) =
      rounds-Completes world [] (fresh name n f) (length (chunks_of n f.bytes)) 0 0 0 metrics
        (fresh-Delivered name n f s p) refl size small in
    (over, empty, all ∙ sym size, quiet)
