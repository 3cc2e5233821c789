-- ===== src/Grpc/Client/Agreement.antt =====
-- Requests, answers and entries of the map that belong together, in `ProcessFile` of
-- src/grpc_app/grpc_client.cpp against the handler of src/grpc_app/grpc_server.cpp.
pub mod Writing
pub mod Serving
pub mod Reading
pub mod Honesty
use grpccapnp.Base.{
  ℕ, zero, suc, ◌+◌, ◌^◌, ◌≤◌, ◌<◌, ◌≡◌, refl, sym, ap, ◌∙◌, subst, Bool, true, false, List, [],
  ◌∷◌, ◌++◌, Option, none, some, arith, Bytes, length, reverse, is_empty, not, ◌&&◌, ◌||◌, ltb, All,
  Bool-cases, inl, inr, if◌then◌else◌,
}
use grpccapnp.Common.Reversal.{reverse_bytes}
use grpccapnp.Common.ChunkReader.{ChunkReader, next_chunk, eof}
use grpccapnp.Common.Metrics.{u64}
use grpccapnp.Grpc.Server.{ChunkRequest, ChunkResponse, respond}
use grpccapnp.Grpc.Client.Inflight.{
  SentChunkInfo, InflightMap, find, erase, assign, Entries, Entries-assign, Entries-erase,
  Entries-find,
}
use grpccapnp.Grpc.Client.Mismatches.{weight, mismatches, mismatches-log_error}
use grpccapnp.Grpc.Client.{
  Message, max_inflight_requests, Writer, waiting, reading, writing, recording, leaving, closing,
  ended, Reader, receiving, matching, verifying, joining, finishing, returned, Server, serving,
  done, System, request_of, entry, empty_chunk_before_eof, log, read_step, write_step, close_step,
  writer_step, serve, server_step,
}

-- The reader of the file after k calls of `next_chunk`, and the chunk of the k-th request.
abbrev pub after : ChunkReader → ℕ → ChunkReader
after r zero = r
after r (suc k) = (next_chunk (after r k)).0

abbrev pub chunk_of : ChunkReader → ℕ → Bytes
chunk_of r zero = []
chunk_of r (suc k) = (next_chunk (after r k)).1

-- A record of what was sent, a request and a response say what belongs to the chunk of their number.
abbrev pub Sent : ChunkReader → ℕ → SentChunkInfo → Type 0
Sent r k info =
    (info.client_assigned_id ≡ k)
    × (info.original_data_for_verification ≡ chunk_of r k)
    × (info.original_payload_size ≡ length (chunk_of r k))

abbrev pub Asks : ChunkReader → ChunkRequest → Type 0
Asks r q = q.data_chunk ≡ chunk_of r q.client_assigned_chunk_id

abbrev pub Answers : ChunkReader → ChunkResponse → Type 0
Answers r p = p.reversed_chunk_data ≡ reverse (chunk_of r p.original_client_chunk_id)

-- Where the writer stands after the chunks up to the k-th.
abbrev pub WriterAgrees : ChunkReader → ℕ → ChunkReader → Writer → Type 0
WriterAgrees r k file waiting = file ≡ after r k
WriterAgrees r k file reading = file ≡ after r k
WriterAgrees r k file (writing info) = (file ≡ after r k) × Sent r k info
WriterAgrees r k file (recording info) = (file ≡ after r k) × Sent r k info
WriterAgrees r k file _ = Unit {0}

abbrev pub ReaderAgrees : ChunkReader → Reader → Type 0
ReaderAgrees r (matching p) = Answers r p
ReaderAgrees r (verifying info p) = Sent r p.original_client_chunk_id info × Answers r p
ReaderAgrees r _ = Unit {0}

-- After n steps on a file opened as `r`, with `bad` failed verifications.
pub record Agrees (r : ChunkReader) (bad n : ℕ) (s : System) : Type 0 where
  pub counted : s.client_chunk_id_counter ≤ n
  pub writer : WriterAgrees r s.client_chunk_id_counter s.file s.writer
  pub reader : ReaderAgrees r s.reader
  pub requests : All (Asks r) s.stream.requests
  pub responses : All (Answers r) s.stream.responses
  pub entries : Entries (Sent r) s.inflight_requests_map
  pub logged : mismatches s.metrics.errors ≡ bad

pub All-snoc :
    {A : Type 0} (P : A → Type 0) (xs : List A) (x : A) → All P xs → P x → All P (xs ++ x ∷ [])
All-snoc P [] x h p = (p, tt)
All-snoc P (y ∷ ys) x h p = (h.0, All-snoc P ys x h.1 p)

pub later-Agrees :
    (r : ChunkReader) (bad n : ℕ) (s : System) → Agrees r bad n s → Agrees r bad (suc n) s
later-Agrees r bad n s a = record {
  counted = omega (arith, a.counted);
  writer = a.writer;
  reader = a.reader;
  requests = a.requests;
  responses = a.responses;
  entries = a.entries;
  logged = a.logged;
}
