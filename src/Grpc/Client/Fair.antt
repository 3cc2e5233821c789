-- ===== src/Grpc/Client/Fair.antt =====
-- A measure of what a run of `ProcessFile` of src/grpc_app/grpc_client.cpp still has to do, while its
-- stream works and its window cannot fill.
pub mod Moves
pub mod Idle
pub mod Termination
pub mod Accounts
mod Tests
use grpccapnp.Base.{ℕ, ◌+◌, ◌*◌, ◌≤◌, ◌<◌, ◌≡◌, ◌⊎◌, Bool, true, false, Bytes, length}
use grpccapnp.Base.Chunks.{chunks_of}
use grpccapnp.Common.ChunkReader.{ChunkReader}
use grpccapnp.Common.ChunkReader.Reading.{Delivered}
use grpccapnp.Grpc.Client.{
  max_inflight_requests, Writer, waiting, reading, writing, recording, leaving, closing, ended,
  Reader, receiving, matching, verifying, joining, finishing, returned, Server, serving, done,
  System,
}

-- The chunks that the file still has.
abbrev pub chunks_left : ChunkReader → ℕ
chunks_left r = length (chunks_of r.chunk_size r.file_stream.rest)

-- In the measure a chunk that is still in the file weighs 10, a request on its way 5, a response 4, and
-- each thread by where it stands.
abbrev pub writer_rank : Writer → ℕ
writer_rank waiting = 4
writer_rank reading = 3
writer_rank (writing info) = 11
writer_rank (recording info) = 5
writer_rank leaving = 2
writer_rank closing = 1
writer_rank ended = 0

abbrev pub reader_rank : Reader → ℕ
reader_rank receiving = 3
reader_rank (matching response) = 5
reader_rank (verifying info response) = 4
reader_rank joining = 2
reader_rank finishing = 1
reader_rank returned = 0

abbrev pub server_rank : Server → ℕ
server_rank serving = 1
server_rank (done status) = 0

abbrev pub rank : System → ℕ
rank s =
    10 * chunks_left s.file
    + writer_rank s.writer
    + 5 * length s.stream.requests
    + 4 * length s.stream.responses
    + reader_rank s.reader
    + server_rank s.server

-- The entry that the writer is about to put into the map.
abbrev pub in_hand : Writer → ℕ
in_hand (writing info) = 1
in_hand (recording info) = 1
in_hand _ = 0

abbrev pub Closes : Writer → Bool → Type 0
Closes ended writes_done = writes_done ≡ true
Closes _ writes_done = Unit {0}

-- The stream works, the file reads to its end, what the map can still come to hold is less than the
-- window, and a writer that has ended has closed its side.
pub record IsAlive (s : System) : Type 0 where
  pub works : s.stream.broken ≡ false
  pub kept : s.writer_stream_broken ≡ false
  pub read : (seen : Bytes) × Delivered seen s.file
  pub window :
      length s.inflight_requests_map + in_hand s.writer + chunks_left s.file < max_inflight_requests
  pub closes : Closes s.writer s.stream.writes_done

-- A thread has waited, or the system has come nearer to its end.
abbrev pub Moves : System → System → Type 0
Moves s t = (t ≡ s) ⊎ (IsAlive t × (rank t < rank s))
