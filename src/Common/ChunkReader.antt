-- ===== src/Common/ChunkReader.antt =====
-- src/common/include/file_utils.hpp and src/common/src/file_utils.cpp: `class ChunkReader`.
-- A method returns the reader that it leaves; what it only prints is left out. The two opens of the
-- constructor may find different files, so it takes the file system at either.
pub mod Reading
pub mod WholeFile
pub mod Guarantees
use grpccapnp.Base.{
  ℕ, ◌+◌, ◌-◌, ◌≡◌, String, Bool, true, false, not, ◌||◌, [], Option, none, some, Bytes, leb, ltb,
  if◌then◌else◌,
}
use grpccapnp.Common.Stream.{FileSystem, File, Stream, open_file, read, rewind, close}

-- The `std::runtime_error` values that the class throws, with the file name of their text.
pub data Failure : Type 0 where
  could_not_get_size could_not_open could_not_reopen : String → Failure

pub data Result {ℓ} (A : Type ℓ) : Type ℓ where
  ok : A → Result A
  err : Failure → Result A

infixl 5 ◌>>=◌
abbrev pub ◌>>=◌ {ℓ κ} : {A : Type ℓ} {B : Type κ} → Result A → (A → Result B) → Result B
ok a >>= f = f a
err e >>= f = err e

abbrev pub or_throw {ℓ} : {A : Type ℓ} → Option A → Failure → Result A
or_throw none e = err e
or_throw (some a) e = ok a

pub record ChunkReader : Type 0 where
  pub filename : String
  pub chunk_size : ℕ
  pub file_stream : Stream
  pub file_size : ℕ
  pub eof_flag : Bool
  pub total_bytes_read : ℕ

pub get_file_size : FileSystem → String → Result ℕ
get_file_size fs fname = do
  in_file ← or_throw (fs fname) (could_not_get_size fname)
  ok in_file.size

unfoldable pub make : FileSystem → FileSystem → String → ℕ → Result ChunkReader
unfolding get_file_size
make probed opened filename chunk_size = do
  file_size ← get_file_size probed filename
  file ← or_throw (opened filename) (could_not_open filename)
  ok (record {
    filename = filename;
    chunk_size = chunk_size;
    file_stream = open_file file;
    file_size = file_size;
    eof_flag = false;
    total_bytes_read = 0;
  })

-- The destructor.
unfoldable pub destroy : ChunkReader → ChunkReader
destroy r = if r.file_stream.is_open then record r { file_stream = close r.file_stream } else r

after_read : ChunkReader → Stream → Bytes → ChunkReader × Bytes
after_read r s buffer =
    if ltb 0 s.gcount
    then (record r { file_stream = s; total_bytes_read = r.total_bytes_read + s.gcount }, buffer)
    else (record r { file_stream = s; eof_flag = true }, [])

unfoldable pub next_chunk : ChunkReader → ChunkReader × Bytes
unfolding after_read
next_chunk r =
    if r.eof_flag || not r.file_stream.is_open
    then (r, [])
    else (let (s, buffer) = read r.file_stream r.chunk_size in after_read r s buffer)

unfoldable pub eof : ChunkReader → Bool
eof r = r.eof_flag || leb r.file_size r.total_bytes_read

pub reset : FileSystem → ChunkReader → Result ChunkReader
reset fs r =
    if r.file_stream.is_open
    then ok
        (record r { file_stream = rewind r.file_stream; eof_flag = false; total_bytes_read = 0 })
    else (do
      file ← or_throw (fs r.filename) (could_not_reopen r.filename)
      ok (record r { file_stream = open_file file; eof_flag = false; total_bytes_read = 0 }))

pub remaining_bytes : ChunkReader → ℕ
remaining_bytes r =
    if leb r.file_size r.total_bytes_read then 0 else r.file_size - r.total_bytes_read
