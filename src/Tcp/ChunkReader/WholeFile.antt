-- ===== src/Tcp/ChunkReader/WholeFile.antt =====
-- Reading a whole file by `read_next_chunk`.
use grpccapnp.Base.{
  ℕ, zero, suc, ◌+◌, ◌-◌, ◌/◌, ◌<◌, ◌≡◌, refl, sym, ap, ap₂, ◌∙◌, ◌⊎◌, inl, inr, true, List, [],
  ◌∷◌, arith, Bytes, length, min, take, drop, length-drop, length-take, drop-all, List-cases, subst,
}
use grpccapnp.Base.Chunks.{IsCeiling, chunks_of, chunks_of-nil, chunks_of-cons, length-chunks_of}
use grpccapnp.Common.Stream.{File, IsSound}
use grpccapnp.Tcp.ChunkReader.{ChunkReader, make_opened, read_next_chunk, eof}
use grpccapnp.Tcp.ChunkReader.Reading.{Ready, read_next_chunk-Took, read_next_chunk-end}

collect : ChunkReader → Bytes → ChunkReader × List Bytes → ChunkReader × List Bytes
collect r [] rest = (r, [])
collect r (b ∷ bs) rest = (rest.0, (b ∷ bs) ∷ rest.1)

-- Calls until a chunk is empty, with fuel for their number: the reader left, and the chunks.
unfoldable pub read_all : ℕ → ChunkReader → ChunkReader × List Bytes
unfolding collect
read_all zero r = (r, [])
read_all (suc fuel) r =
    collect (read_next_chunk r).0 (read_next_chunk r).1 (read_all fuel (read_next_chunk r).0)

pub make_opened-Ready :
    (f : File) (n : ℕ) → IsSound f → 0 < n → 0 < length f.bytes → Ready f.bytes (make_opened f n)
unfolding make_opened
make_opened-Ready f n s p some_left = ground (arith, s.sized)

pub make_opened-empty :
    (f : File) (n : ℕ)
    → IsSound f
    → f.bytes ≡ []
    → ((make_opened f n).eof_flag ≡ true)
      × ((make_opened f n).total_chunks ≡ 0)
      × ((make_opened f n).chunks_read_count ≡ 0)
unfolding make_opened
make_opened-empty f n s e = ground (arith, s.sized, ap length e)

pub make_opened-total :
    (f : File) (n : ℕ)
    → IsSound f
    → 0 < length f.bytes
    → ((make_opened f n).total_chunks ≡ (f.size + n - 1) / n)
      × ((make_opened f n).chunks_read_count ≡ 0)
unfolding make_opened
make_opened-total f n s some_left = ground (arith, s.sized)

-- A ceiling is what it is.
pub ceiling_unique : (n len a b : ℕ) → IsCeiling n len a → IsCeiling n len b → a ≡ b
ceiling_unique n len a b h k = grind arith

pub div-IsCeiling : (n len : ℕ) → 0 < n → 0 < len → IsCeiling n len ((len + n - 1) / n)
div-IsCeiling n len p q = grind arith

read_all-end :
    (fuel : ℕ) (r : ChunkReader)
    → (Ready [] r) ⊎ (r.eof_flag ≡ true)
    → 0 < fuel
    → ((read_all fuel r).1 ≡ [])
      × ((read_all fuel r).0.eof_flag ≡ true)
      × ((read_all fuel r).0.chunks_read_count ≡ r.chunks_read_count)
unfolding read_all
read_all-end zero r h p = absurd (omega arith)
read_all-end (suc fuel) r h p =
    let (none_left, over, same) = read_next_chunk-end r h in
    rw (none_left, read_all) (refl, over, same)

read_all-cons :
    (fuel : ℕ) (r : ChunkReader)
    → 0 < length (read_next_chunk r).1
    → read_all (suc fuel) r ≡ (
      (read_all fuel (read_next_chunk r).0).0,
      (read_next_chunk r).1 ∷ (read_all fuel (read_next_chunk r).0).1,
    )
unfolding read_all
read_all-cons fuel r p = elim (List-cases (read_next_chunk r).1) [
  | inl e ↦ absurd (omega (arith, p, ap length e))
  | inr (b, bs, e) ↦ simp e refl
]

abbrev Reads : ChunkReader → ChunkReader → Bytes → List Bytes → Type 0
Reads r last rest chunks =
    (chunks ≡ chunks_of r.chunk_size rest)
    × (last.eof_flag ≡ true)
    × (last.chunks_read_count ≡ r.chunks_read_count + length chunks)

pub read_all-Ready :
    (fuel : ℕ) (r : ChunkReader)
    → Ready r.file_stream.rest r
    → length r.file_stream.rest < fuel
    → Reads r (read_all fuel r).0 r.file_stream.rest (read_all fuel r).1
read_all-Ready zero r h p = absurd (omega arith)
read_all-Ready (suc fuel) r h p = elim (List-cases r.file_stream.rest) [
  | inl e ↦
      let (none_left, over, same) =
        read_all-end (suc fuel) r (inl (subst (λ q. Ready q r) e h)) (omega arith) in
      (
        none_left ∙ sym (chunks_of-nil r.chunk_size) ∙ ap (chunks_of r.chunk_size) (sym e),
        over,
        omega (arith, same, ap length none_left),
      )
  | inr (b, bs, e) ↦
      let t = read_next_chunk-Took r h (omega (arith, ap length e)) in
      let rest = r.file_stream.rest in
      let r' = (read_next_chunk r).0 in
      let sized : length (read_next_chunk r).1 ≡ min r.chunk_size (length rest) =
        ap length t.took ∙ length-take r.chunk_size rest in
      let all = read_all-cons fuel r (omega (arith, sized, h.chunked, ap length e)) in
      let cut : chunks_of r.chunk_size rest
          ≡ take r.chunk_size rest ∷ chunks_of r.chunk_size (drop r.chunk_size rest) =
        rw e (chunks_of-cons r.chunk_size b bs h.chunked) in
      let later : ((read_all fuel r').1 ≡ chunks_of r.chunk_size (drop r.chunk_size rest))
          × ((read_all fuel r').0.eof_flag ≡ true)
          × ((read_all fuel r').0.chunks_read_count
              ≡ r'.chunks_read_count + length (read_all fuel r').1) =
        elim t.then [
          | inl (fits, ready) ↦
              let (chunks, over, count) =
                read_all-Ready fuel r' (subst (λ q. Ready q r') (sym ready.coming) ready) (
                  omega (
                    arith,
                    p,
                    ap length ready.coming,
                    length-drop r.chunk_size rest,
                    h.chunked,
                    ap length e,
                  )) in
              (chunks ∙ ap₂ chunks_of t.same_chunk_size ready.coming, over, count)
          | inr (short, over) ↦
              let (none_left, still, count) =
                read_all-end fuel r' (inr over) (omega (arith, p, ap length e)) in
              (
                none_left
                    ∙ sym (
                        ap (chunks_of r.chunk_size) (drop-all r.chunk_size rest (omega arith))
                        ∙ chunks_of-nil r.chunk_size),
                still,
                omega (arith, count, ap length none_left),
              )
        ] in
      (
        ap (λ q. q.1) all ∙ ap₂ ◌∷◌ t.took later.0 ∙ sym cut,
        ap (λ q. q.0.eof_flag) all ∙ later.1,
        omega (
          arith,
          ap (λ q. q.0.chunks_read_count) all,
          ap (λ q. length q.1) all,
          later.2,
          t.counted,
        ),
      )
]

-- For a file that reads to its end, and a chunk size above 0, calling `read_next_chunk` until it
-- returns an empty chunk delivers the file's bytes cut into chunks of that size; there are exactly
-- as many as `total_chunks` has said at the start and as `chunks_read` says at the end, and the
-- reader left has noticed the end.
pub read_file-chunks :
    (f : File) (n : ℕ)
    → IsSound f
    → 0 < n
    → let r = make_opened f n in
      let (last, chunks) = read_all (suc (length f.bytes)) r in
      (chunks ≡ chunks_of n f.bytes)
      × (length chunks ≡ r.total_chunks)
      × (last.chunks_read_count ≡ r.total_chunks)
      × (eof last ≡ true)
unfolding eof make_opened
read_file-chunks f n s p = elim (List-cases f.bytes) [
  | inl e ↦
      let empty = make_opened-empty f n s e in
      let (none_left, over, count) =
        read_all-end (suc (length f.bytes)) (make_opened f n) (inr empty.0) (omega arith) in
      (
        none_left ∙ sym (ap (chunks_of n) e ∙ chunks_of-nil n),
        omega (arith, ap length none_left, empty.1),
        omega (arith, count, empty),
        over,
      )
  | inr (b, bs, e) ↦
      let some_left : 0 < length f.bytes = omega (arith, ap length e) in
      let started = make_opened-total f n s some_left in
      let (chunks, over, count) =
        read_all-Ready (suc (length f.bytes)) (make_opened f n)
          (make_opened-Ready f n s p some_left) (omega arith) in
      let total : length (read_all (suc (length f.bytes)) (make_opened f n)).1
          ≡ (make_opened f n).total_chunks =
        ceiling_unique n (length f.bytes) _ _
          (subst (λ cs. IsCeiling n (length f.bytes) (length cs)) (sym chunks)
            (length-chunks_of n f.bytes p))
          (rw (started.0, s.sized) (div-IsCeiling n (length f.bytes) p some_left)) in
      (chunks, total, omega (arith, count, total, started), over)
]
