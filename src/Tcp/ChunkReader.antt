-- ===== src/Tcp/ChunkReader.antt =====
-- GO++PROJECT/src/cpp_tcp_benchmark/common/include/chunk_reader.hpp and common/src/chunk_reader.cpp:
-- `class ChunkReader` of the TCP benchmark, over the `std::ifstream` of Common/Stream. Sizes are
-- numbers without a bound; a chunk size of 0, by which the constructor would divide, is not used.
pub mod Reading
pub mod WholeFile
use grpccapnp.Base.{
  ℕ, ◌+◌, ◌-◌, ◌/◌, String, Bool, true, false, not, ◌||◌, [], Option, none, some, Bytes, ◌==◌, ltb,
  if◌then◌else◌,
}
use grpccapnp.Common.Stream.{FileSystem, File, Stream, open_file, read, close}

pub record ChunkReader : Type 0 where
  pub file_stream : Stream
  pub chunk_size : ℕ
  pub file_size : ℕ
  pub total_chunks : ℕ
  pub chunks_read_count : ℕ
  pub eof_flag : Bool

-- The constructor on an opened file.
unfoldable pub make_opened : File → ℕ → ChunkReader
make_opened f n = record {
  file_stream = open_file f;
  chunk_size = n;
  file_size = f.size;
  total_chunks = if f.size == 0 then 0 else (f.size + n - 1) / n;
  chunks_read_count = 0;
  eof_flag = f.size == 0;
}

-- The constructor; `none` is the `std::runtime_error` for a file that cannot be opened.
unfoldable pub make : FileSystem → String → ℕ → Option ChunkReader
make fs filename n = elim (fs filename) [ none ↦ none | some f ↦ some (make_opened f n) ]

-- The destructor.
unfoldable pub destroy : ChunkReader → ChunkReader
destroy r = if r.file_stream.is_open then record r { file_stream = close r.file_stream } else r

after_read : ChunkReader → Stream → Bytes → ChunkReader × Bytes
after_read r s buffer =
    if s.gcount == 0 then (record r { file_stream = s; eof_flag = true }, []) else (
      record r {
        file_stream = s;
        eof_flag = r.eof_flag || ltb s.gcount r.chunk_size;
        chunks_read_count = r.chunks_read_count + 1;
      },
      buffer,
    )

unfoldable pub read_next_chunk : ChunkReader → ChunkReader × Bytes
unfolding after_read
read_next_chunk r =
    if r.eof_flag || not r.file_stream.is_open || r.file_stream.eofbit
    then (record r { eof_flag = true }, [])
    else (let (s, buffer) = read r.file_stream r.chunk_size in after_read r s buffer)

unfoldable pub eof : ChunkReader → Bool
eof r = r.eof_flag
