-- ===== src/Tcp/Client/Opening.antt =====
-- Where the TCP client stands at its start.
use grpccapnp.Base.{
  ℕ, zero, suc, ◌+◌, ◌-◌, ◌/◌, ◌≤◌, ◌<◌, ◌≡◌, refl, sym, ap, ◌∙◌, ◌⊎◌, inl, inr, [], String, arith,
  length, map, reverse, List-cases,
}
use grpccapnp.Base.Chunks.{IsCeiling, chunks_of}
use grpccapnp.Common.Double.{Double}
use grpccapnp.Common.Stream.{File, IsSound}
use grpccapnp.Tcp.ChunkReader.{ChunkReader, make_opened}
use grpccapnp.Tcp.ChunkReader.WholeFile.{
  make_opened-Ready, make_opened-empty, make_opened-total, div-IsCeiling, read_file-chunks,
}
use grpccapnp.Tcp.Metrics
use grpccapnp.Tcp.Metrics.{MetricsAggregator}
use grpccapnp.Tcp.Client.{Client, make}
use grpccapnp.Tcp.Client.Progress.{Tracked, IsSending}

module _ (double : Double) where
  make_target :
      (r : ChunkReader) (m : MetricsAggregator double)
      → ((r.file_size ≡ 0) × (r.total_chunks ≡ 0)) ⊎ ((0 < r.file_size) × (0 < r.total_chunks))
      → (make double r m).total_chunks_to_send ≡ r.total_chunks
  unfolding make
  make_target r m (inl h) = ground arith
  make_target r m (inr h) = ground arith

  some_chunks : (n len k : ℕ) → IsCeiling n len k → 0 < len → 0 < k
  some_chunks n len k h p = grind arith

  pub chunks_le : (n len k : ℕ) → IsCeiling n len k → 0 < n → k ≤ len
  chunks_le n len zero h p = omega arith
  chunks_le zero len (suc k) h p = absurd (omega arith)
  chunks_le (suc n) len (suc k) h p = omega arith

  opened_total :
      (f : File) (n : ℕ)
      → IsSound f
      → 0 < n
      → let r = make_opened f n in
        ((r.file_size ≡ 0) × (r.total_chunks ≡ 0)) ⊎ ((0 < r.file_size) × (0 < r.total_chunks))
  unfolding make_opened
  opened_total f n s p = elim (List-cases f.bytes) [
    | inl e ↦ inl (omega (arith, s.sized, ap length e), (make_opened-empty f n s e).1)
    | inr (b, bs, e) ↦
        let some_left : 0 < length f.bytes = omega (arith, ap length e) in
        let ceiling = div-IsCeiling n (length f.bytes) p some_left in
        let size : f.size ≡ length f.bytes = s.sized in
        inr (
          omega (arith, size, some_left),
          omega (
            arith,
            some_chunks n (length f.bytes) _ ceiling some_left,
            (make_opened-total f n s some_left).0,
            ap (λ q. (q + n - 1) / n) size,
          ),
        )
  ]

  make_total :
      (f : File) (n : ℕ) (m : MetricsAggregator double)
      → IsSound f
      → 0 < n
      → (make double (make_opened f n) m).total_chunks_to_send ≡ length (chunks_of n f.bytes)
  make_total f n m s p =
      let (chunks, total, _, _) = read_file-chunks f n s p in
      make_target (make_opened f n) m (opened_total f n s p) ∙ sym total ∙ ap length chunks

  opened_chunk_size : (f : File) (n : ℕ) → (make_opened f n).chunk_size ≡ n
  unfolding make_opened
  opened_chunk_size f n = refl

  pub make-IsSending :
      (f : File) (n : ℕ) (m : MetricsAggregator double)
      → IsSound f
      → 0 < n
      → Tracked double 0 0 m
      → IsSending double n
          (length f.bytes)
          (length (chunks_of n f.bytes))
          (map reverse (chunks_of n f.bytes))
          []
          (make double (make_opened f n) m)
  unfolding make
  make-IsSending f n m s p tracked = record {
    rest = f.bytes;
    sent_bytes = 0;
    running = refl;
    silent = refl;
    tracked = tracked;
    all_bytes = omega arith;
    answers = refl;
    all_chunks = omega arith;
    target = make_total f n m s p;
    behind = record {
      same_chunk_size = opened_chunk_size f n;
      chunked = p;
      coming = elim (List-cases f.bytes) [
        | inl e ↦ inr (e, (make_opened-empty f n s e).0)
        | inr (b, bs, e) ↦ inl (make_opened-Ready f n s p (omega (arith, ap length e)))
      ];
    };
  }

  -- The client of `main`, for a file and a chunk size.
  abbrev pub fresh : File → ℕ → String → Client double
  fresh f n name = make double (make_opened f n) (Metrics.make double name f.size n)
