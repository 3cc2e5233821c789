-- ===== src/Tcp/Client/Rows.antt =====
-- The file of chunk times that `main` of the TCP client saves after a run without an error.
use grpccapnp.Base.{
  ℕ, ◌^◌, ◌<◌, ◌≡◌, refl, sym, ap, ◌∙◌, subst, String, true, false, List, [], ◌∷◌, map, some, All,
  arith, length, Bool-cases, inl, inr,
}
use grpccapnp.Base.Chunks.{chunks_of}
use grpccapnp.Common.Double.{Double}
use grpccapnp.Common.Stream.{File, IsSound}
use grpccapnp.Tcp.Metrics.{ChunkRttInfo}
use grpccapnp.Tcp.Metrics.Records.{
  IsNumbered, recorded_bytes, recorded_verified, recorded_verified-le,
}
use grpccapnp.Tcp.Metrics.Report.{RttRow, save_to_csv}
use grpccapnp.Tcp.Client.{Clock}
use grpccapnp.Tcp.Client.Opening.{fresh}
use grpccapnp.Tcp.Client.Outcomes.{Completion, complete_all, finished-IsDone}

-- The chunks of the rows.
abbrev pub infos : List RttRow → List ChunkRttInfo
infos [] = []
infos (row ∷ rows) = row.info ∷ infos rows

infos_of_rows :
    (name : String) (is : List ChunkRttInfo)
    → infos (map (λ i. record { protocol = name; info = i }) is) ≡ is
infos_of_rows name [] = refl
infos_of_rows name (i ∷ is) = ap (◌∷◌ i) (infos_of_rows name is)

All-verified :
    (is : List ChunkRttInfo) → recorded_verified is ≡ length is → All (λ i. i.verified ≡ true) is
All-verified [] e = tt
All-verified (i ∷ is) e = elim (Bool-cases i.verified) [
  | inl right ↦ (right, All-verified is (ground (arith, e, right)))
  | inr wrong ↦ absurd (ground (arith, e, wrong, recorded_verified-le is))
]

-- For a file of fewer than 2 ^ 64 bytes that reads to its end, and a chunk size above 0, whatever the
-- operations complete with: if the client says at its end that no error occurred, the directory of the files is there or can be made,
-- and both files open,
-- then the file of chunk times has one row for each chunk of the file, numbered from 1 in their order,
-- each of them verified, and the sizes in the rows add up to the bytes of the file.
pub saved_rows :
    (double : Double) (f : File) (n : ℕ) (name : String) (os : List (Clock × Completion))
    → IsSound f
    → 0 < n
    → length f.bytes < 2 ^ 64
    → (complete_all double os (fresh double f n name)).finished ≡ some false
    → let m = (complete_all double os (fresh double f n name)).metrics in
      let rows = (save_to_csv double true true true m).chunk_rtts in
      (length (infos rows) ≡ length (chunks_of n f.bytes))
      × IsNumbered 0 (infos rows)
      × All (λ i. i.verified ≡ true) (infos rows)
      × (recorded_bytes (infos rows) ≡ length f.bytes)
unfolding save_to_csv
saved_rows double f n name os s p small e =
    let h = finished-IsDone double f n name os s p small e in
    let t = h.tracked in
    let m = (complete_all double os (fresh double f n name)).metrics in
    let P : List ChunkRttInfo → Type 0 = λ is.
      (length is ≡ length (chunks_of n f.bytes))
      × IsNumbered 0 is
      × All (λ i. i.verified ≡ true) is
      × (recorded_bytes is ≡ length f.bytes) in
    subst P (sym (infos_of_rows m.protocol_name m.chunk_rtt_data)) (
      t.count,
      t.consistent.numbered,
      All-verified m.chunk_rtt_data (t.verified ∙ sym t.count),
      t.bytes,
    )
