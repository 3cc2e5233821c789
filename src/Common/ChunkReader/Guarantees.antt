-- ===== src/Common/ChunkReader/Guarantees.antt =====
-- What a client of `ChunkReader` relies on.
use grpccapnp.Base.{
  ℕ, suc, ◌<◌, ◌≡◌, refl, sym, ap, ◌∙◌, subst, inl, String, true, false, if◌then◌else◌, [], flatten,
  some, arith, Bytes, length,
}
use grpccapnp.Base.Chunks.{IsCut, IsCeiling, flatten-chunks_of, chunks_of-IsCut, length-chunks_of}
use grpccapnp.Common.Stream.{FileSystem, File, IsSound, rewind}
use grpccapnp.Common.ChunkReader.{ChunkReader, ok, make, eof, reset, remaining_bytes}
use grpccapnp.Common.ChunkReader.Reading.{Delivered}
use grpccapnp.Common.ChunkReader.WholeFile.{
  fresh, make-fresh, fresh-Delivered, read_all, read_all-rest, eof-remaining,
}

-- For a file that opens and reads to its end, and a chunk size above 0, the constructor succeeds,
-- and calling `next_chunk` until it returns an empty chunk (after at most one call more than the
-- file has bytes) delivers the file: the chunks put together are its bytes, each but the last has
-- exactly the chunk size and the last has 1 to that many bytes, their number is the file's size
-- divided by the chunk size and rounded up, and the reader left reports the end and no byte more.
pub read_file :
    (fs : FileSystem) (name : String) (n : ℕ) (f : File)
    → fs name ≡ some f
    → IsSound f
    → 0 < n
    → (r : ChunkReader) × (make fs fs name n ≡ ok r)
      × (let (last, chunks) = read_all (suc (length f.bytes)) r in
          (flatten chunks ≡ f.bytes)
          × IsCut n chunks
          × IsCeiling n f.size (length chunks)
          × (eof last ≡ true)
          × (remaining_bytes last ≡ 0))
read_file fs name n f e s p =
    let r = fresh name n f in
    let (chunks, last, done) =
      read_all-rest (suc (length f.bytes)) [] r (fresh-Delivered name n f s p) (omega arith) in
    let (_, left, ended) = eof-remaining f.bytes _ last in
    (
      r,
      make-fresh fs fs name n f e e,
      (
        ap flatten chunks ∙ flatten-chunks_of n f.bytes p,
        subst (IsCut n) (sym chunks) (chunks_of-IsCut n f.bytes p),
        subst (λ k. IsCeiling n k (length (read_all (suc (length f.bytes)) r).1)) (sym s.sized)
            (subst (λ cs. IsCeiling n (length f.bytes) (length cs)) (sym chunks)
              (length-chunks_of n f.bytes p)),
        ended.1 done,
        left ∙ ap length done,
      ),
    )

-- At any point of the reading of a file that reads to its end, `reset` succeeds without touching the file system and makes the
-- reader start over: nothing counts as delivered, and the whole content is to be read, in chunks of
-- the same size.
pub reset-restarts :
    (fs : FileSystem) (seen : Bytes) (r : ChunkReader)
    → Delivered seen r
    → (r' : ChunkReader) × (reset fs r ≡ ok r')
      × Delivered [] r'
      × (r'.file_stream.rest ≡ r.file_stream.content)
      × (r'.chunk_size ≡ r.chunk_size)
unfolding reset
reset-restarts fs seen r d =
    let reopened : ChunkReader = record r {
      file_stream = rewind r.file_stream;
      eof_flag = false;
      total_bytes_read = 0;
    } in
    (
      reopened,
      rw (d.is_open, if◌then◌else◌),
      record {
        is_open = d.is_open;
        works = d.works;
        split = refl;
        counted = refl;
        sized = d.sized;
        chunked = d.chunked;
        ready = inl (refl, refl);
      },
      refl,
      refl,
    )
