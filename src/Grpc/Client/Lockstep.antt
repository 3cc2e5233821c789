-- ===== src/Grpc/Client/Lockstep.antt =====
-- A schedule under which `ProcessFile` of src/grpc_app/grpc_client.cpp takes its file to the end: in each
-- round the writer sends a chunk, the server answers, and the reader verifies the answer.
pub mod Completion
use grpccapnp.Base.{
  ℕ, zero, suc, ◌+◌, ◌^◌, ◌<◌, ◌≤◌, ◌≡◌, refl, sym, ap, ◌∙◌, subst, String, Byte, Bytes, List, [],
  ◌∷◌, ◌++◌, Bool, true, false, not, ◌&&◌, inl, inr, Option, some, none, arith, length,
  length-append, is_empty, bytes_eq, bytes_eq_refl, ◌==◌, ==_refl, reverse, if◌then◌else◌,
}
use grpccapnp.Base.Int.{ℤ}
use grpccapnp.Base.Chunks.{chunks_of, chunks_of-nil}
use grpccapnp.Common.Reversal.{reverse_bytes}
use grpccapnp.Common.Stream.{File, IsSound}
use grpccapnp.Common.ChunkReader.{ChunkReader, next_chunk, eof}
use grpccapnp.Common.ChunkReader.Reading.{Delivered}
use grpccapnp.Common.ChunkReader.WholeFile.{
  AtEnd, Within, fresh, fresh-Delivered, next_chunk-Next, eof-remaining,
}
use grpccapnp.Common.Metrics.{
  MetricsAggregator, record_chunk_sent, record_chunk_rtt_us, set_total_transaction_time_ms, u64,
}
use grpccapnp.Grpc.Server.{ChunkRequest, ChunkResponse, Status, respond}
use grpccapnp.Grpc.Client.Inflight.{SentChunkInfo, InflightMap, find, erase, assign}
use grpccapnp.Grpc.Client.{
  Message, World, System, Action, writer_moves, reader_moves, server_moves, Writer, waiting,
  reading, writing, recording, leaving, closing, ended, receiving, matching, verifying, joining,
  finishing, returned, serving, done, run, act, start, entry, request_of, writer_step, reader_step,
  server_step, read_step, write_step, close_step, take_response, match_found, verify_step, serve,
  finish_step, leftover_check, status_check, total_check, final_status,
}

-- Four steps of the writer, one of the server, three of the reader.
abbrev pub rounds : ℕ → List Action
rounds zero = []
rounds (suc k) =
    writer_moves
    ∷ writer_moves
    ∷ writer_moves
    ∷ writer_moves
    ∷ server_moves
    ∷ reader_moves
    ∷ reader_moves
    ∷ reader_moves
    ∷ rounds k

-- Between two rounds: everything that was sent is verified.
abbrev idle : ChunkReader → ℕ → ℕ → ℕ → ℕ → MetricsAggregator Message → System
idle file id sent count verified m = record {
  writer = waiting;
  reader = receiving;
  server = serving;
  stream = record { requests = []; responses = []; writes_done = false; broken = false };
  file = file;
  inflight_requests_map = [];
  client_chunk_id_counter = id;
  total_chunks_actually_sent_by_writer = sent;
  writer_thread_finished_sending = false;
  writer_stream_broken = false;
  received_responses_count = count;
  total_bytes_verified_payload_by_reader = verified;
  metrics = m;
}

pub read_some :
    (byte_size : Bytes → ℕ → ℕ) (s : System)
    → is_empty (next_chunk s.file).1 ≡ false
    → read_step byte_size s ≡ record s {
      file = (next_chunk s.file).0;
      client_chunk_id_counter = u64 (s.client_chunk_id_counter + 1);
      writer =
          writing (entry byte_size (u64 (s.client_chunk_id_counter + 1)) (next_chunk s.file).1);
    }
unfolding read_step
read_some byte_size s e = simp (e, if◌then◌else◌) refl

match_one :
    (world : World) (response : ChunkResponse) (info : SentChunkInfo) (s : System)
    → s.inflight_requests_map ≡ (response.original_client_chunk_id, info) ∷ []
    → reader_step world (matching response) s
      ≡ record s { reader = verifying info response; inflight_requests_map = [] }
unfolding reader_step match_found find erase
match_one world response info s e =
    let id = response.original_client_chunk_id in
    let found : find id s.inflight_requests_map ≡ some info =
      ap (find id) e ∙ ap (λ q. if q then some info else none) (==_refl id) in
    let erased : erase id s.inflight_requests_map ≡ [] =
      ap (erase id) e ∙ ap (λ q. if q then [] else (id, info) ∷ []) (==_refl id) in
    ap (match_found response s) found
    ∙ ap (λ q. record s { reader = verifying info response; inflight_requests_map = q }) erased

verify_right :
    (rtt_us : ℕ → ℤ) (info : SentChunkInfo) (s : System)
    → verify_step rtt_us info (respond (request_of info)) s ≡ record s {
      reader = receiving;
      received_responses_count = u64 (s.received_responses_count + 1);
      metrics =
          record_chunk_sent info.original_payload_size info.on_wire_request_size_bytes
            (record_chunk_rtt_us (rtt_us info.client_assigned_id) s.metrics);
      total_bytes_verified_payload_by_reader =
          u64 (s.total_bytes_verified_payload_by_reader + info.original_payload_size);
    }
unfolding verify_step respond
verify_right rtt_us info s =
    let answer = reverse_bytes info.original_data_for_verification in
    simp (==_refl (length answer), bytes_eq_refl answer, if◌then◌else◌) refl

-- A round in which a chunk is read.
round_some :
    (world : World) (file : ChunkReader) (id sent count verified k : ℕ)
    (m : MetricsAggregator Message)
    → is_empty (next_chunk file).1 ≡ false
    → let chunk = (next_chunk file).1 in
      let id' = u64 (id + 1) in
      run world (rounds (suc k)) (idle file id sent count verified m)
      ≡ run world (rounds k) (
          idle
            (next_chunk file).0
            id'
            (u64 (sent + 1))
            (u64 (count + 1))
            (u64 (verified + length chunk))
            (record_chunk_sent
              (length chunk)
              (world.byte_size chunk id')
              (record_chunk_rtt_us (world.rtt_us id') m)))
unfolding run act writer_step reader_step server_step write_step serve take_response assign entry
    respond
round_some world file id sent count verified k m e =
    let chunk = (next_chunk file).1 in
    let id' = u64 (id + 1) in
    let info = entry world.byte_size id' chunk in
    let before = record (idle file id sent count verified m) { writer = reading } in
    let read = record before {
      file = (next_chunk file).0;
      client_chunk_id_counter = id';
      writer = writing info;
    } in
    let answered = record read {
      writer = waiting;
      total_chunks_actually_sent_by_writer = u64 (sent + 1);
      inflight_requests_map = (id', info) ∷ [];
    } in
    let found = record answered {
      reader = verifying info (respond (request_of info));
      inflight_requests_map = [];
    } in
    ap
      (λ s.
        run world
          (writer_moves
            ∷ writer_moves
            ∷ server_moves
            ∷ reader_moves
            ∷ reader_moves
            ∷ reader_moves
            ∷ rounds k)
          s)
      (read_some world.byte_size before e)
    ∙ ap (λ s. run world (reader_moves ∷ rounds k) s)
        (match_one world (respond (request_of info)) info
          (record answered { reader = matching (respond (request_of info)) }) refl)
    ∙ ap (λ s. run world (rounds k) s) (verify_right world.rtt_us info found)

pub read_end :
    (byte_size : Bytes → ℕ → ℕ) (s : System)
    → is_empty (next_chunk s.file).1 ≡ true
    → eof (next_chunk s.file).0 ≡ true
    → read_step byte_size s ≡ record s { file = (next_chunk s.file).0; writer = leaving }
unfolding read_step
read_end byte_size s e over = simp (e, over, if◌then◌else◌) refl

-- Nothing is missing.
total_right :
    (expected : ℕ) (status : Status) (s : System)
    → s.total_bytes_verified_payload_by_reader ≡ expected
    → total_check expected status s ≡ s
unfolding total_check
total_right expected status s e = ground arith

-- `ProcessFile` has returned with a message for nothing, having verified this many bytes.
abbrev pub Completes : ℕ → MetricsAggregator Message → System → Type 0
Completes size m s =
    (s.reader ≡ returned)
    × (s.inflight_requests_map ≡ [])
    × (s.total_bytes_verified_payload_by_reader ≡ size)
    × (s.metrics.errors ≡ m.errors)

-- The round in which the end of the file is read.
round_last :
    (world : World) (file : ChunkReader) (id sent count verified : ℕ)
    (m : MetricsAggregator Message)
    → is_empty (next_chunk file).1 ≡ true
    → eof (next_chunk file).0 ≡ true
    → verified ≡ world.expected
    → Completes world.expected m (run world (rounds 1) (idle file id sent count verified m))
unfolding run act writer_step reader_step server_step close_step serve take_response finish_step
    leftover_check status_check final_status set_total_transaction_time_ms
round_last world file id sent count verified m e over all =
    let before = record (idle file id sent count verified m) { writer = reading } in
    let later =
      writer_moves ∷ writer_moves ∷ server_moves ∷ reader_moves ∷ reader_moves ∷ reader_moves
      ∷ [] in
    let done_sending : System = record before {
      file = (next_chunk file).0;
      writer = ended;
      writer_thread_finished_sending = true;
      stream = record { requests = []; responses = []; writes_done = true; broken = false };
      server = done Status.ok;
      reader = finishing;
      metrics = set_total_transaction_time_ms world.duration_ms m;
    } in
    subst (Completes world.expected m)
      (sym (ap (λ s. run world later s) (read_end world.byte_size before e over)))
      (subst (λ s. Completes world.expected m (record s { reader = returned }))
        (sym (total_right world.expected Status.ok done_sending all)) (refl, refl, all, refl))
