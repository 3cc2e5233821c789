-- ===== src/Tcp/ChunkReader/Reading.antt =====
-- What one call of `read_next_chunk` delivers.
use grpccapnp.Base.{
  ◌+◌, ◌≤◌, ◌<◌, ◌≡◌, refl, ◌⊎◌, inl, inr, true, false, [], arith, Bytes, length, take, drop, ltb,
  ltb→lt, ltb→le, Bool-cases, take-all, sym,
}
use grpccapnp.Common.Stream.{good}
use grpccapnp.Tcp.ChunkReader.{ChunkReader, read_next_chunk}

-- The next call reads on: these are the bytes to come, of a file that reads to its end.
pub record Ready (rest : Bytes) (r : ChunkReader) : Type 0 where
  pub is_open : r.file_stream.is_open ≡ true
  pub works : r.file_stream.broken ≡ false
  pub is_good : good r.file_stream ≡ true
  pub goes_on : r.eof_flag ≡ false
  pub coming : r.file_stream.rest ≡ rest
  pub chunked : 0 < r.chunk_size

-- A call has delivered this chunk of `rest`, which was not empty.
pub record Took (rest : Bytes) (r r' : ChunkReader) (chunk : Bytes) : Type 0 where
  pub took : chunk ≡ take r.chunk_size rest
  pub counted : r'.chunks_read_count ≡ r.chunks_read_count + 1
  pub same_chunk_size : r'.chunk_size ≡ r.chunk_size
  pub same_file_size : r'.file_size ≡ r.file_size
  pub same_total : r'.total_chunks ≡ r.total_chunks
  pub then :
      ((r.chunk_size ≤ length rest) × Ready (drop r.chunk_size rest) r')
      ⊎ ((length rest < r.chunk_size) × (r'.eof_flag ≡ true))

pub read_next_chunk-within :
    (r : ChunkReader)
    → Ready r.file_stream.rest r
    → r.chunk_size ≤ length r.file_stream.rest
    → read_next_chunk r ≡ (
      record r {
        file_stream = record r.file_stream {
          rest = drop r.chunk_size r.file_stream.rest;
          gcount = r.chunk_size;
        };
        chunks_read_count = r.chunks_read_count + 1;
      },
      take r.chunk_size r.file_stream.rest,
    )
unfolding read_next_chunk
read_next_chunk-within r h fits = ground arith

read_next_chunk-last :
    (r : ChunkReader)
    → Ready r.file_stream.rest r
    → length r.file_stream.rest < r.chunk_size
    → 0 < length r.file_stream.rest
    → read_next_chunk r ≡ (
      record r {
        file_stream = record r.file_stream {
          rest = [];
          gcount = length r.file_stream.rest;
          eofbit = true;
          failbit = true;
        };
        eof_flag = true;
        chunks_read_count = r.chunks_read_count + 1;
      },
      r.file_stream.rest,
    )
unfolding read_next_chunk
read_next_chunk-last r h short some_left = ground arith

pub read_next_chunk-Took :
    (r : ChunkReader)
    → Ready r.file_stream.rest r
    → 0 < length r.file_stream.rest
    → Took r.file_stream.rest r (read_next_chunk r).0 (read_next_chunk r).1
read_next_chunk-Took r h some_left =
    elim (Bool-cases (ltb (length r.file_stream.rest) r.chunk_size)) [
      | inl short ↦ rw (read_next_chunk-last r h (ltb→lt _ _ short) some_left) (record {
        took = sym (take-all r.chunk_size r.file_stream.rest (omega (arith, ltb→lt _ _ short)));
        counted = refl;
        same_chunk_size = refl;
        same_file_size = refl;
        same_total = refl;
        then = inr (ltb→lt _ _ short, refl);
      })
      | inr long ↦ rw (read_next_chunk-within r h (ltb→le _ _ long)) (record {
        took = refl;
        counted = refl;
        same_chunk_size = refl;
        same_file_size = refl;
        same_total = refl;
        then = inl (
          ltb→le _ _ long,
          record {
            is_open = h.is_open;
            works = h.works;
            is_good = h.is_good;
            goes_on = h.goes_on;
            coming = refl;
            chunked = h.chunked;
          },
        );
      })
    ]

-- With nothing left, or once the end has been noticed, a call delivers nothing and notes the end.
pub read_next_chunk-end :
    (r : ChunkReader)
    → (Ready [] r) ⊎ (r.eof_flag ≡ true)
    → ((read_next_chunk r).1 ≡ [])
      × ((read_next_chunk r).0.eof_flag ≡ true)
      × ((read_next_chunk r).0.chunks_read_count ≡ r.chunks_read_count)
unfolding read_next_chunk
read_next_chunk-end r (inl h) = ground (arith, h.coming)
read_next_chunk-end r (inr over) = rw over (refl, refl, refl)
