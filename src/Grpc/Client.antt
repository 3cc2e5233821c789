-- ===== src/Grpc/Client.antt =====
-- src/grpc_app/grpc_client.cpp: `GrpcFileClient::ProcessFile`, with its writer thread, its reader
-- (the calling thread), the server's thread for the call, and the stream between them. A shared
-- access (under the mutex, on the stream, on the file) is one step of `act`; a thread that cannot
-- go on waits, which leaves the system as it is. The clock and the encoded size of a request are
-- arguments: `rtt_us id` is the measured time of request `id`, and `byte_size` is protobuf's
-- `ByteSizeLong`. The stream keeps the order of the messages and loses none unless it breaks; once
-- it has broken, `Write` and `Read` return false. Exceptions in the two threads are added in Faults.
pub mod Inflight
pub mod Mismatches
pub mod Finish
pub mod Bound
pub mod Fair
pub mod Faults
pub mod Tally
pub mod Schedule
pub mod Hang
pub mod Race
pub mod Lockstep
pub mod Agreement
pub mod Balance
pub mod Clean
pub mod Main
mod Tests
use grpccapnp.Base.{
  ℕ, zero, suc, ◌+◌, ◌≡◌, Byte, Bytes, List, [], ◌∷◌, ◌++◌, Bool, true, false, not, ◌&&◌, ◌||◌,
  Option, none, some, is_empty, length, bytes_eq, ltb, ◌==◌, if◌then◌else◌,
}
use grpccapnp.Base.Int.{ℤ}
use grpccapnp.Common.Reversal.{reverse_bytes}
use grpccapnp.Common.ChunkReader.{ChunkReader, Failure, next_chunk, eof}
use grpccapnp.Common.Metrics.{
  MetricsAggregator, record_chunk_sent, record_chunk_rtt_us, set_total_transaction_time_ms,
  log_error, u64,
}
use grpccapnp.Grpc.Server.{ChunkRequest, ChunkResponse, Status, respond}
pub use grpccapnp.Grpc.System.{
  Message, stream_not_created, empty_chunk_before_eof, exception, writer_thread_exception,
  read_loop_exception, no_such_request, size_mismatch, content_mismatch, requests_remaining,
  rpc_failed, data_loss, max_inflight_requests, Writer, waiting, reading, writing, recording,
  leaving, closing, ended, Reader, receiving, matching, verifying, joining, finishing, returned,
  Server, serving, done, Stream, System, World, Action, writer_moves, reader_moves, server_moves,
  stream_breaks,
}
use Inflight.{SentChunkInfo, InflightMap, find, erase, assign}

abbrev pub log : Message → System → System
log message s = record s { metrics = log_error message s.metrics }

abbrev pub request_of : SentChunkInfo → ChunkRequest
request_of info = record {
  data_chunk = info.original_data_for_verification;
  client_assigned_chunk_id = info.client_assigned_id;
}

-- The entry for a chunk that was read.
unfoldable pub entry : (Bytes → ℕ → ℕ) → ℕ → Bytes → SentChunkInfo
entry byte_size id chunk = record {
  client_assigned_id = id;
  original_payload_size = length chunk;
  on_wire_request_size_bytes = byte_size chunk id;
  original_data_for_verification = chunk;
}

-- The writer's read of the file, with the tests on what it yields.
pub read_step : (Bytes → ℕ → ℕ) → System → System
unfolding entry
read_step byte_size s =
    let (file, chunk) = next_chunk s.file in
    let s' = record s { file = file } in
    let id = u64 (s.client_chunk_id_counter + 1) in
    if is_empty chunk && eof file
    then record s' { writer = leaving }
    else (if is_empty chunk && not (eof file)
        then record (log empty_chunk_before_eof s') { writer = ended; writer_stream_broken = true }
        else record s' {
          client_chunk_id_counter = id;
          writer = writing (entry byte_size id chunk);
        })

-- `stream->Write(request)`.
pub write_step : SentChunkInfo → System → System
write_step info s =
    if s.stream.broken
    then record s { writer = leaving; writer_stream_broken = true }
    else record s {
      writer = recording info;
      stream = record s.stream { requests = s.stream.requests ++ request_of info ∷ [] };
      total_chunks_actually_sent_by_writer = u64 (s.total_chunks_actually_sent_by_writer + 1);
    }

pub close_step : System → System
close_step s =
    if s.writer_stream_broken
    then record s { writer = ended }
    else record s { writer = ended; stream = record s.stream { writes_done = true } }

pub writer_step : (Bytes → ℕ → ℕ) → Writer → System → System
unfolding read_step write_step close_step
writer_step byte_size waiting s =
    if ltb (length s.inflight_requests_map) max_inflight_requests
    then record s { writer = reading }
    else s
writer_step byte_size reading s = read_step byte_size s
writer_step byte_size (writing info) s = write_step info s
writer_step byte_size (recording info) s = record s {
  writer = waiting;
  inflight_requests_map = assign info.client_assigned_id info s.inflight_requests_map;
}
writer_step byte_size leaving s = record s {
  writer = closing;
  writer_thread_finished_sending = true;
}
writer_step byte_size closing s = close_step s
writer_step byte_size ended s = s

pub take_response : List ChunkResponse → System → System
take_response [] s =
    if s.stream.broken
    then record s { reader = joining }
    else (elim s.server [ serving ↦ s | done status ↦ record s { reader = joining } ])
take_response (response ∷ responses) s =
    if s.stream.broken
    then record s { reader = joining }
    else record s { reader = matching response; stream = record s.stream { responses = responses } }

-- The search of the map under the mutex.
match_found : ChunkResponse → System → Option SentChunkInfo → System
match_found response s none =
    record (log
      (no_such_request response.original_client_chunk_id s.received_responses_count
        (length s.inflight_requests_map))
      s) { reader = receiving }
match_found response s (some info) = record s {
  reader = verifying info response;
  inflight_requests_map = erase response.original_client_chunk_id s.inflight_requests_map;
}

-- The bookkeeping and the comparison for a response whose request was found.
pub verify_step : (ℕ → ℤ) → SentChunkInfo → ChunkResponse → System → System
verify_step rtt_us info response s =
    let counted = record s {
      reader = receiving;
      received_responses_count = u64 (s.received_responses_count + 1);
      metrics =
          record_chunk_sent info.original_payload_size info.on_wire_request_size_bytes
            (record_chunk_rtt_us (rtt_us info.client_assigned_id) s.metrics);
    } in
    let expected = reverse_bytes info.original_data_for_verification in
    let received = response.reversed_chunk_data in
    if not (length received == length expected)
    then log (size_mismatch info.client_assigned_id (length expected) (length received)) counted
    else (if not (bytes_eq received expected)
        then log (content_mismatch info.client_assigned_id) counted
        else record counted {
          total_bytes_verified_payload_by_reader =
              u64 (s.total_bytes_verified_payload_by_reader + info.original_payload_size);
        })

-- From the joined writer to the end of `ProcessFile`: the map, the status, the time, the totals.
leftover_check : System → System
leftover_check s =
    if is_empty s.inflight_requests_map
    then s
    else log (requests_remaining (length s.inflight_requests_map)) s

status_check : Status → System → System
status_check Status.ok s = s
status_check Status.unknown s = log (rpc_failed Status.unknown) s

is_ok : Status → Bool
is_ok Status.ok = true
is_ok Status.unknown = false

total_check : ℕ → Status → System → System
unfolding is_ok
total_check expected status s =
    if s.writer_thread_finished_sending
      && not s.writer_stream_broken
      && is_ok status
      && not (s.total_bytes_verified_payload_by_reader == expected)
    then log (data_loss s.total_bytes_verified_payload_by_reader expected) s
    else s

-- A broken stream ends with a status other than OK. On a stream that works `Finish()` waits for the
-- server: a server that still serves is met here only behind an exception of the reader's loop, and the
-- status then stands in for a wait.
final_status : System → Status
final_status s =
    if s.stream.broken
    then Status.unknown
    else (elim s.server [ serving ↦ Status.unknown | done status ↦ status ])

pub finish_step : ℕ → ℤ → System → System
unfolding leftover_check status_check total_check final_status
finish_step expected duration_ms s =
    let status = final_status s in
    let s₁ = leftover_check s in
    let s₂ = record s₁ { metrics = set_total_transaction_time_ms duration_ms s₁.metrics } in
    record (total_check expected status (status_check status s₂)) { reader = returned }

pub reader_step : World → Reader → System → System
unfolding take_response match_found verify_step finish_step
reader_step world receiving s = take_response s.stream.responses s
reader_step world (matching response) s =
    match_found response s (find response.original_client_chunk_id s.inflight_requests_map)
reader_step world (verifying info response) s = verify_step world.rtt_us info response s
reader_step world joining s = elim s.writer [ ended ↦ record s { reader = finishing } | _ ↦ s ]
reader_step world finishing s = finish_step world.expected world.duration_ms s
reader_step world returned s = s

-- The server's thread: a request is answered; with none left it returns once no more can come.
serve : List ChunkRequest → System → System
serve [] s =
    if s.stream.writes_done || s.stream.broken then record s { server = done Status.ok } else s
serve (request ∷ requests) s =
    if s.stream.broken then record s { server = done Status.unknown } else record s {
      stream = record s.stream {
        requests = requests;
        responses = s.stream.responses ++ respond request ∷ [];
      };
    }

pub server_step : Server → System → System
unfolding serve
server_step serving s = serve s.stream.requests s
server_step (done status) s = s

pub act : World → Action → System → System
unfolding writer_step reader_step server_step
act world writer_moves s = writer_step world.byte_size s.writer s
act world reader_moves s = reader_step world s.reader s
act world server_moves s = server_step s.server s
act world stream_breaks s = record s { stream = record s.stream { broken = true } }

-- A schedule.
unfoldable pub run : World → List Action → System → System
run world [] s = s
run world (a ∷ actions) s = run world actions (act world a s)

-- `ProcessFile` at the start of its two threads, for an opened file.
abbrev pub start : ChunkReader → MetricsAggregator Message → System
start file metrics = record {
  writer = waiting;
  reader = receiving;
  server = serving;
  stream = record { requests = []; responses = []; writes_done = false; broken = false };
  file = file;
  inflight_requests_map = [];
  client_chunk_id_counter = 0;
  total_chunks_actually_sent_by_writer = 0;
  writer_thread_finished_sending = false;
  writer_stream_broken = false;
  received_responses_count = 0;
  total_bytes_verified_payload_by_reader = 0;
  metrics = metrics;
}
