-- ===== src/Common/Stream.antt =====
-- `std::ifstream` over a file in binary mode, as src/common/src/file_utils.cpp uses it.
-- A file is what a read can see of it: its bytes, the size that a seek to the end reports, and
-- whether the device fails (rather than reports the end of the file) behind those bytes.
-- As in libstdc++, a read that meets the device's failure delivers nothing (`gcount` is 0) and
-- sets `badbit`; a read that meets the end delivers what is left and sets `eofbit` and `failbit`;
-- a read on a stream that is not good delivers nothing and sets `failbit`.
use grpccapnp.Base.{
  ℕ, ◌≡◌, String, Bool, true, false, not, ◌||◌, [], Option, Bytes, length, take, drop, ltb,
  if◌then◌else◌,
}

pub record File : Type 0 where
  pub bytes : Bytes
  pub size : ℕ
  pub broken : Bool

-- The file that an open of this name finds, if it succeeds.
abbrev pub FileSystem : Type 0
FileSystem = String → Option File

-- The file is read to its end, and its size is the number of its bytes.
pub record IsSound (f : File) : Type 0 where
  pub sized : f.size ≡ length f.bytes
  pub works : f.broken ≡ false

pub record Stream : Type 0 where
  pub is_open : Bool
  pub content : Bytes
  -- the bytes from the read position on
  pub rest : Bytes
  pub broken : Bool
  pub gcount : ℕ
  pub eofbit : Bool
  pub failbit : Bool
  pub badbit : Bool

abbrev pub good : Stream → Bool
good s = not (s.eofbit || s.failbit || s.badbit)

abbrev pub open_file : File → Stream
open_file f = record {
  is_open = true;
  content = f.bytes;
  rest = f.bytes;
  broken = f.broken;
  gcount = 0;
  eofbit = false;
  failbit = false;
  badbit = false;
}

-- `read(p, n)` on a good stream.
abbrev read_good : Stream → ℕ → Stream × Bytes
read_good s n =
    if ltb (length s.rest) n
    then (if s.broken then (record s { rest = []; gcount = 0; badbit = true }, []) else (
      record s { rest = []; gcount = length s.rest; eofbit = true; failbit = true },
      s.rest,
    ))
    else (record s { rest = drop n s.rest; gcount = n }, take n s.rest)

-- `read(p, n)`: the stream, and the bytes that it delivers, `gcount` of them.
abbrev pub read : Stream → ℕ → Stream × Bytes
read s n = if good s then read_good s n else (record s { gcount = 0; failbit = true }, [])

-- `clear()`, then `seekg(0, beg)`.
abbrev pub rewind : Stream → Stream
rewind s = record s { rest = s.content; eofbit = false; failbit = false; badbit = false }

abbrev pub close : Stream → Stream
close s = record s { is_open = false }
