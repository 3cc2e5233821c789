-- ===== src/Grpc/Client/Bound.antt =====
-- The window of requests in flight.
use grpccapnp.Base.{
  ℕ, ◌≤◌, ◌<◌, ◌≡◌, refl, sym, subst, List, [], ◌∷◌, Option, none, some, arith, length,
}
use grpccapnp.Base.Int.{ℤ}
use grpccapnp.Common.ChunkReader.{ChunkReader}
use grpccapnp.Common.Metrics.{MetricsAggregator}
use grpccapnp.Grpc.Server.{ChunkResponse, ChunkRequest}
use grpccapnp.Grpc.Client.Inflight.{SentChunkInfo, find, length-assign-le, length-erase-le}
use grpccapnp.Grpc.Client.Finish.{finish_step-eq}
use grpccapnp.Grpc.Client.{
  Message, max_inflight_requests, Writer, waiting, reading, writing, recording, leaving, closing,
  ended, Reader, receiving, matching, verifying, joining, finishing, returned, Server, serving,
  done, System, World, Action, writer_moves, reader_moves, server_moves, stream_breaks, read_step,
  write_step, close_step, writer_step, take_response, match_found, verify_step, finish_step,
  reader_step, serve, server_step, act, run, start,
}

-- From the wait to the insertion there is room for one more entry.
abbrev pub Room : Writer → ℕ → Type 0
Room reading n = n < max_inflight_requests
Room (writing info) n = n < max_inflight_requests
Room (recording info) n = n < max_inflight_requests
Room _ n = n ≤ max_inflight_requests

abbrev pub IsBounded : System → Type 0
IsBounded s = Room s.writer (length s.inflight_requests_map)

writer_step-IsBounded :
    (byte_size : List ℕ → ℕ → ℕ) (w : Writer) (s : System)
    → s.writer ≡ w
    → Room w (length s.inflight_requests_map)
    → IsBounded (writer_step byte_size w s)
unfolding writer_step read_step write_step close_step
writer_step-IsBounded byte_size waiting s e h = ground arith
writer_step-IsBounded byte_size reading s e h = ground arith
writer_step-IsBounded byte_size (writing info) s e h = ground arith
writer_step-IsBounded byte_size (recording info) s e h =
    omega (arith, length-assign-le info.client_assigned_id info s.inflight_requests_map)
writer_step-IsBounded byte_size leaving s e h = h
writer_step-IsBounded byte_size closing s e h = ground arith
writer_step-IsBounded byte_size ended s e h = rw e h

Room-mono : (w : Writer) (m n : ℕ) → m ≤ n → Room w n → Room w m
Room-mono waiting m n h r = omega arith
Room-mono reading m n h r = omega arith
Room-mono (writing info) m n h r = omega arith
Room-mono (recording info) m n h r = omega arith
Room-mono leaving m n h r = omega arith
Room-mono closing m n h r = omega arith
Room-mono ended m n h r = omega arith

Room-le : (w : Writer) (n : ℕ) → Room w n → n ≤ max_inflight_requests
Room-le waiting n r = r
Room-le reading n r = omega arith
Room-le (writing info) n r = omega arith
Room-le (recording info) n r = omega arith
Room-le leaving n r = r
Room-le closing n r = r
Room-le ended n r = r

-- The other threads leave the writer where it is, and put nothing into the map.
abbrev Frame : System → System → Type 0
Frame s t =
    (t.writer ≡ s.writer) × (length t.inflight_requests_map ≤ length s.inflight_requests_map)

match_found-Frame :
    (response : ChunkResponse) (s : System) (o : Option SentChunkInfo)
    → Frame s (match_found response s o)
unfolding match_found
match_found-Frame response s none = (refl, omega arith)
match_found-Frame response s (some info) =
    (refl, length-erase-le response.original_client_chunk_id s.inflight_requests_map)

take_response-Frame : (rs : List ChunkResponse) (s : System) → Frame s (take_response rs s)
unfolding take_response
take_response-Frame [] s = ground arith
take_response-Frame (r ∷ rs) s = ground arith

verify_step-Frame :
    (rtt_us : ℕ → ℤ) (info : SentChunkInfo) (r : ChunkResponse) (s : System)
    → Frame s (verify_step rtt_us info r s)
unfolding verify_step
verify_step-Frame rtt_us info r s = ground arith

finish_step-Frame :
    (expected : ℕ) (duration : ℤ) (s : System) → Frame s (finish_step expected duration s)
finish_step-Frame expected duration s =
    let (m, e, _) = finish_step-eq expected duration s in
    subst (Frame s) (sym e) (refl, omega arith)

reader_step-Frame : (world : World) (r : Reader) (s : System) → Frame s (reader_step world r s)
unfolding reader_step
reader_step-Frame world receiving s = take_response-Frame s.stream.responses s
reader_step-Frame world (matching response) s =
    match_found-Frame response s (find response.original_client_chunk_id s.inflight_requests_map)
reader_step-Frame world (verifying info response) s = verify_step-Frame world.rtt_us info response s
reader_step-Frame world joining s = ground arith
reader_step-Frame world finishing s = finish_step-Frame world.expected world.duration_ms s
reader_step-Frame world returned s = (refl, omega arith)

serve-Frame : (rs : List ChunkRequest) (s : System) → Frame s (serve rs s)
unfolding serve
serve-Frame [] s = ground arith
serve-Frame (r ∷ rs) s = ground arith

server_step-Frame : (v : Server) (s : System) → Frame s (server_step v s)
unfolding server_step
server_step-Frame serving s = serve-Frame s.stream.requests s
server_step-Frame (done status) s = (refl, omega arith)

Frame-IsBounded : (s t : System) → Frame s t → IsBounded s → IsBounded t
Frame-IsBounded s t (w, le) h =
    subst (λ w. Room w (length t.inflight_requests_map)) (sym w) (Room-mono s.writer _ _ le h)

act-IsBounded : (world : World) (a : Action) (s : System) → IsBounded s → IsBounded (act world a s)
unfolding act
act-IsBounded world writer_moves s h = writer_step-IsBounded world.byte_size s.writer s refl h
act-IsBounded world reader_moves s h =
    Frame-IsBounded s (reader_step world s.reader s) (reader_step-Frame world s.reader s) h
act-IsBounded world server_moves s h =
    Frame-IsBounded s (server_step s.server s) (server_step-Frame s.server s) h
act-IsBounded world stream_breaks s h = h

run-IsBounded :
    (world : World) (actions : List Action) (s : System)
    → IsBounded s
    → IsBounded (run world actions s)
unfolding run
run-IsBounded world [] s h = h
run-IsBounded world (a ∷ actions) s h =
    run-IsBounded world actions (act world a s) (act-IsBounded world a s h)

-- Under every schedule of the threads and every break of the stream, and whatever the file yields,
-- no more than `MAX_INFLIGHT_REQUESTS` requests are ever in the map.
pub inflight-le-max :
    (world : World) (actions : List Action) (file : ChunkReader)
    (metrics : MetricsAggregator Message)
    → length (run world actions (start file metrics)).inflight_requests_map ≤ max_inflight_requests
inflight-le-max world actions file metrics =
    let s = run world actions (start file metrics) in
    Room-le s.writer _ (run-IsBounded world actions (start file metrics) (omega arith))
