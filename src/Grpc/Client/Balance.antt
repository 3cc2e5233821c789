-- ===== src/Grpc/Client/Balance.antt =====
-- The payload bytes that `ProcessFile` of src/grpc_app/grpc_client.cpp has read from the file, and where
-- they are.
pub mod Writing
pub mod Reading
pub mod Conservation
pub mod Frame
pub mod Completion
use grpccapnp.Base.{
  ℕ, zero, suc, ◌+◌, ◌^◌, ◌≤◌, ◌<◌, ◌≡◌, refl, sym, ap, ◌∙◌, subst, Bool, true, false, List, [],
  ◌∷◌, ◌++◌, Option, none, some, arith, Bytes, length, reverse, is_empty, not, ◌&&◌, ◌||◌, ltb, All,
  Bool-cases, inl, inr, if◌then◌else◌, ◌⊎◌, bytes_eq, bytes_eq_refl, ==_refl, ◌==◌,
}
use grpccapnp.Common.Reversal.{reverse_bytes}
use grpccapnp.Common.ChunkReader.{ChunkReader, next_chunk, eof}
use grpccapnp.Base.Int.{ℤ}
use grpccapnp.Common.Metrics.{u64, record_chunk_sent, record_chunk_rtt_us}
use grpccapnp.Grpc.Client.Finish.{finish_step-eq}
use grpccapnp.Grpc.Server.{ChunkRequest, ChunkResponse, respond}
use grpccapnp.Grpc.Client.Inflight.{
  SentChunkInfo, InflightMap, find, erase, assign, Entries, Entries-assign, Entries-erase,
  Entries-find, payload, assign_fresh, erase_found,
}
use grpccapnp.Grpc.Client.Mismatches.{weight, mismatches, mismatches-log_error}
use grpccapnp.Grpc.Client.{
  Message, max_inflight_requests, Writer, waiting, reading, writing, recording, leaving, closing,
  ended, Reader, receiving, matching, verifying, joining, finishing, returned, Server, serving,
  done, System, World, Action, writer_moves, reader_moves, server_moves, stream_breaks,
  take_response, match_found, verify_step, finish_step, no_such_request, reader_step, act, run,
  start, request_of, entry, empty_chunk_before_eof, log, read_step, write_step, close_step,
  writer_step, serve, server_step,
}
use grpccapnp.Grpc.Client.Agreement.{
  after, chunk_of, Sent, Asks, Answers, WriterAgrees, ReaderAgrees, Agrees, All-snoc, later-Agrees,
}

-- The bytes of the first k chunks.
abbrev pub total : ChunkReader → ℕ → ℕ
total r zero = 0
total r (suc k) = total r k + length (chunk_of r (suc k))

-- The bytes that a thread holds between two accesses to the map.
abbrev pub held_by_writer : Writer → ℕ
held_by_writer (writing info) = info.original_payload_size
held_by_writer (recording info) = info.original_payload_size
held_by_writer _ = 0

abbrev pub held_by_reader : Reader → ℕ
held_by_reader (verifying info p) = info.original_payload_size
held_by_reader _ = 0

-- With the writer and the reader at these places: unless the writer gave up, the bytes verified, in
-- the map and in the threads' hands are those of the chunks read.
abbrev pub Balance : ChunkReader → System → Writer → Reader → Type 0
Balance r s w v =
    (s.writer_stream_broken ≡ true)
    ⊎ (s.total_bytes_verified_payload_by_reader
          + payload s.inflight_requests_map
          + held_by_writer w
          + held_by_reader v
        ≡ total r s.client_chunk_id_counter)

-- The keys of the map are numbers given out, other than that of a request in the writer's hands.
abbrev pub Keys : Writer → ℕ → InflightMap → Type 0
Keys (writing info) n m = Entries (λ k info. k < n) m
Keys (recording info) n m = Entries (λ k info. k < n) m
Keys _ n m = Entries (λ k info. k ≤ n) m

pub record IsBalanced (r : ChunkReader) (s : System) : Type 0 where
  pub keys : Keys s.writer s.client_chunk_id_counter s.inflight_requests_map
  pub balance : Balance r s s.writer s.reader

pub Entries-map :
    (P Q : ℕ → SentChunkInfo → Type 0) (m : InflightMap)
    → ((k : ℕ) (info : SentChunkInfo) → P k info → Q k info)
    → Entries P m
    → Entries Q m
Entries-map P Q [] f h = tt
Entries-map P Q ((k, info) ∷ m) f h = (f k info h.0, Entries-map P Q m f h.1)

pub find_fresh : (id : ℕ) (m : InflightMap) → Entries (λ k info. k < id) m → find id m ≡ none
unfolding find
find_fresh id [] h = refl
find_fresh id ((k, old) ∷ m) h = ground (arith, find_fresh id m h.1)

pub Keys-erase : (w : Writer) (n id : ℕ) (m : InflightMap) → Keys w n m → Keys w n (erase id m)
Keys-erase waiting n id m h = Entries-erase _ id m h
Keys-erase reading n id m h = Entries-erase _ id m h
Keys-erase (writing info) n id m h = Entries-erase _ id m h
Keys-erase (recording info) n id m h = Entries-erase _ id m h
Keys-erase leaving n id m h = Entries-erase _ id m h
Keys-erase closing n id m h = Entries-erase _ id m h
Keys-erase ended n id m h = Entries-erase _ id m h
