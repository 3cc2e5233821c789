-- ===== src/Common/ChunkReader/WholeFile.antt =====
-- Reading a whole file by `next_chunk`, and what `eof`, `remaining_bytes` and `reset` say on the way.
use grpccapnp.Base.{
  ℕ, zero, suc, ◌+◌, ◌<◌, ◌≡◌, refl, sym, ap, ap₂, subst, ◌∙◌, ◌⊎◌, inl, inr, String, true, false,
  List, [], ◌∷◌, ◌++◌, some, arith, Byte, Bytes, length, drop, length-take, length-append,
  append-nil, append_assoc, take-append-drop, drop-all, List-cases, nil_of_length, ◌↔◌,
}
use grpccapnp.Base.Chunks.{chunks_of, chunks_of-nil, chunks_of-cons}
use grpccapnp.Common.Stream.{FileSystem, File, IsSound, open_file}
use grpccapnp.Common.ChunkReader.{ChunkReader, ok, make, next_chunk, eof, remaining_bytes}
use grpccapnp.Common.ChunkReader.Reading.{Delivered, Advanced, next_chunk-Advanced}

-- The reader that the constructor leaves.
abbrev pub fresh : String → ℕ → File → ChunkReader
fresh name n f = record {
  filename = name;
  chunk_size = n;
  file_stream = open_file f;
  file_size = f.size;
  eof_flag = false;
  total_bytes_read = 0;
}

pub make-fresh :
    (probed opened : FileSystem) (name : String) (n : ℕ) (f : File)
    → probed name ≡ some f
    → opened name ≡ some f
    → make probed opened name n ≡ ok (fresh name n f)
unfolding make
make-fresh probed opened name n f e e' = rw (e, e', make)

pub fresh-Delivered :
    (name : String) (n : ℕ) (f : File) → IsSound f → 0 < n → Delivered [] (fresh name n f)
fresh-Delivered name n f s p = record {
  is_open = refl;
  works = s.works;
  split = refl;
  counted = refl;
  sized = s.sized;
  chunked = p;
  ready = inl (refl, refl);
}

-- At any point of the reading of a file that reads to its end, the bytes delivered so far and
-- `remaining_bytes` add up to the file's size, `remaining_bytes` is the number of the bytes still to
-- be read, and `eof` holds exactly if there are none.
pub eof-remaining :
    (seen : Bytes) (r : ChunkReader)
    → Delivered seen r
    → (length seen + remaining_bytes r ≡ r.file_size)
      × (remaining_bytes r ≡ length r.file_stream.rest)
      × ((eof r ≡ true) ↔ (r.file_stream.rest ≡ []))
unfolding eof remaining_bytes
eof-remaining seen r d =
    let sizes : r.file_size ≡ length seen + length r.file_stream.rest =
      d.sized ∙ sym (ap length d.split) ∙ length-append seen r.file_stream.rest in
    (
      ground arith,
      ground arith,
      (
        (λ e. nil_of_length _ (ground (arith, ap length {x = r.file_stream.rest} {y = []}))),
        (λ e. ground (arith, ap length e)),
      ),
    )

-- On an open stream, whatever the device does, an empty chunk comes with the end-of-file flag.
pub next_chunk-empty :
    (r : ChunkReader)
    → r.file_stream.is_open ≡ true
    → (next_chunk r).1 ≡ []
    → eof (next_chunk r).0 ≡ true
unfolding next_chunk eof
next_chunk-empty r o e = ground (arith, length-take r.chunk_size r.file_stream.rest)

collect : ChunkReader → Bytes → ChunkReader × List Bytes → ChunkReader × List Bytes
collect r [] rest = (r, [])
collect r (b ∷ bs) rest = (rest.0, (b ∷ bs) ∷ rest.1)

-- Calls until a chunk is empty, with fuel for their number: the reader left, and the chunks.
unfoldable pub read_all : ℕ → ChunkReader → ChunkReader × List Bytes
unfolding collect
read_all zero r = (r, [])
read_all (suc fuel) r = collect (next_chunk r).0 (next_chunk r).1 (read_all fuel (next_chunk r).0)

-- A call at the end of the file, and a call before it.
pub record AtEnd (seen : Bytes) (r r' : ChunkReader) (chunk : Bytes) : Type 0 where
  pub none_left : r.file_stream.rest ≡ []
  pub empty : chunk ≡ []
  pub delivered : Delivered seen r'
  pub none_left' : r'.file_stream.rest ≡ []

pub record Within (seen : Bytes) (r r' : ChunkReader) (b : Byte) (bs : Bytes) : Type 0 where
  pub delivered : Delivered (seen ++ b ∷ bs) r'
  pub splits : r.file_stream.rest ≡ (b ∷ bs) ++ r'.file_stream.rest
  pub cuts :
      chunks_of r.chunk_size r.file_stream.rest
      ≡ (b ∷ bs) ∷ chunks_of r.chunk_size r'.file_stream.rest
  pub same_chunk_size : r'.chunk_size ≡ r.chunk_size
  pub same_content : r'.file_stream.content ≡ r.file_stream.content

abbrev pub Next : Bytes → ChunkReader → ChunkReader → Bytes → Type 0
Next seen r r' chunk =
    AtEnd seen r r' chunk ⊎ ((b : Byte) × (bs : Bytes) × (chunk ≡ b ∷ bs) × Within seen r r' b bs)

Within-of_Advanced :
    (seen : Bytes) (r r' : ChunkReader) (b c : Byte) (bs cs : Bytes)
    → Delivered seen r
    → r.file_stream.rest ≡ c ∷ cs
    → Advanced seen r r' (b ∷ bs)
    → Within seen r r' b bs
Within-of_Advanced seen r r' b c bs cs d e a = record {
  delivered = a.delivered;
  splits = sym (ap₂ ◌++◌ a.took a.left ∙ take-append-drop r.chunk_size r.file_stream.rest);
  cuts = rw (a.took, a.left, e) (chunks_of-cons r.chunk_size c cs d.chunked);
  same_chunk_size = a.same_chunk_size;
  same_content = a.same_content;
}

Next-of_Advanced :
    (seen : Bytes) (r r' : ChunkReader) (chunk : Bytes)
    → Delivered seen r
    → Advanced seen r r' chunk
    → Next seen r r' chunk
Next-of_Advanced seen r r' [] d a =
    let e : r.file_stream.rest ≡ [] =
      nil_of_length _
        (omega (arith, d.chunked, ap length a.took, length-take r.chunk_size r.file_stream.rest)) in
    inl (record {
      none_left = e;
      empty = refl;
      delivered = rw append-nil at a.delivered;
      none_left' = a.left ∙ ap (drop r.chunk_size) e ∙ drop-all r.chunk_size [] (omega arith);
    })
Next-of_Advanced seen r r' (b ∷ bs) d a = elim (List-cases r.file_stream.rest) [
  | inl e ↦
      absurd
        (omega (arith, ap length a.took, length-take r.chunk_size r.file_stream.rest, ap length e))
  | inr (c, cs, e) ↦ inr (b, bs, refl, Within-of_Advanced seen r r' b c bs cs d e a)
]

pub next_chunk-Next :
    (seen : Bytes) (r : ChunkReader)
    → Delivered seen r
    → Next seen r (next_chunk r).0 (next_chunk r).1
next_chunk-Next seen r d = Next-of_Advanced seen r _ _ d (next_chunk-Advanced seen r d)

-- The chunks of a file that reads to its end are its bytes from the read position on, cut.
pub read_all-rest :
    (fuel : ℕ) (seen : Bytes) (r : ChunkReader)
    → Delivered seen r
    → length r.file_stream.rest < fuel
    → ((read_all fuel r).1 ≡ chunks_of r.chunk_size r.file_stream.rest)
      × Delivered (seen ++ r.file_stream.rest) (read_all fuel r).0
      × ((read_all fuel r).0.file_stream.rest ≡ [])
unfolding read_all
read_all-rest zero seen r d h = absurd (omega arith)
read_all-rest (suc fuel) seen r d h = elim (next_chunk-Next seen r d) [
  | inl e ↦ simp (e.empty, e.none_left, chunks_of-nil, append-nil) (refl, e.delivered, e.none_left')
  | inr (b, bs, e, w) ↦
      let (ih, last, done) = read_all-rest fuel (seen ++ b ∷ bs) (next_chunk r).0 w.delivered (
        omega
          (arith, ap length w.splits, length-append (b ∷ bs) (next_chunk r).0.file_stream.rest)) in
      let all : read_all (suc fuel) r
          ≡ ((read_all fuel (next_chunk r).0).0, (b ∷ bs) ∷ (read_all fuel (next_chunk r).0).1) =
        simp e in
      (
        ap (λ p. p.1) all ∙ ap (◌∷◌ (b ∷ bs)) (rw w.same_chunk_size at ih) ∙ sym w.cuts,
        subst (λ p. Delivered (seen ++ r.file_stream.rest) p.0) (sym all)
            (subst (λ bytes. Delivered bytes (read_all fuel (next_chunk r).0).0)
              (append_assoc seen (b ∷ bs) (next_chunk r).0.file_stream.rest
                ∙ ap (◌++◌ seen) (sym w.splits))
              last),
        ap (λ p. p.0.file_stream.rest) all ∙ done,
      )
]
