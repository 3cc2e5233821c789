-- ===== src/Grpc/Client/Race.antt =====
-- A response that overtakes the insertion of its request into the map.
pub mod Deadlock
pub mod Lost
pub mod Forever
mod Tests
use grpccapnp.Base.{◌≡◌, refl, List, [], ◌∷◌, ◌++◌, false, none, length}
use grpccapnp.Common.Metrics.{log_error}
use grpccapnp.Grpc.Server.{ChunkRequest, ChunkResponse, respond}
use grpccapnp.Grpc.Client.Inflight.{SentChunkInfo, find, assign}
use grpccapnp.Grpc.Client.{
  no_such_request, waiting, recording, receiving, matching, serving, System, World, Action,
  writer_moves, reader_moves, server_moves, log, request_of, writer_step, take_response,
  match_found, reader_step, serve, server_step, act, run,
}

abbrev pub overtaking : List Action
overtaking = server_moves ∷ reader_moves ∷ reader_moves ∷ writer_moves ∷ []

-- The state after the schedule `overtaking`.
abbrev pub overtaken : World → System → System
overtaken world s = run world overtaking s

abbrev served : ChunkRequest → System → System
served request s = record s {
  stream = record s.stream {
    requests = [];
    responses = s.stream.responses ++ respond request ∷ [];
  };
}

act-served :
    (world : World) (request : ChunkRequest) (s : System)
    → s.server ≡ serving
    → s.stream.broken ≡ false
    → s.stream.requests ≡ request ∷ []
    → act world server_moves s ≡ served request s
unfolding act server_step serve
act-served world request s v b rq = rw (v, rq, b) refl

abbrev received : ChunkResponse → System → System
received response s = record s {
  reader = matching response;
  stream = record s.stream { responses = [] };
}

act-received :
    (world : World) (response : ChunkResponse) (s : System)
    → s.reader ≡ receiving
    → s.stream.broken ≡ false
    → s.stream.responses ≡ response ∷ []
    → act world reader_moves s ≡ received response s
unfolding act reader_step take_response
act-received world response s r b rp = rw (r, rp, b) refl

abbrev unmatched : ChunkResponse → System → System
unmatched response s =
    record (log
      (no_such_request response.original_client_chunk_id s.received_responses_count
        (length s.inflight_requests_map))
      s) { reader = receiving }

act-unmatched :
    (world : World) (response : ChunkResponse) (s : System)
    → s.reader ≡ matching response
    → find response.original_client_chunk_id s.inflight_requests_map ≡ none
    → act world reader_moves s ≡ unmatched response s
unfolding act reader_step match_found
act-unmatched world response s r f = rw (r, f) refl

abbrev recorded : SentChunkInfo → System → System
recorded info s = record s {
  writer = waiting;
  inflight_requests_map = assign info.client_assigned_id info s.inflight_requests_map;
}

act-recorded :
    (world : World) (info : SentChunkInfo) (s : System)
    → s.writer ≡ recording info
    → act world writer_moves s ≡ recorded info s
unfolding act writer_step
act-recorded world info s w = rw w refl

-- A request that was written and is not yet in the map, with nothing else in transit: its response is
-- dropped with a message, and then the request goes into the map.
pub response_overtakes :
    (world : World) (s : System) (info : SentChunkInfo)
    → s.writer ≡ recording info
    → s.reader ≡ receiving
    → s.server ≡ serving
    → s.stream.broken ≡ false
    → s.stream.requests ≡ request_of info ∷ []
    → s.stream.responses ≡ []
    → find info.client_assigned_id s.inflight_requests_map ≡ none
    → ((overtaken world s).metrics.errors
        ≡ s.metrics.errors
          ++ no_such_request info.client_assigned_id s.received_responses_count
              (length s.inflight_requests_map)
            ∷ [])
      × ((overtaken world s).inflight_requests_map
          ≡ assign info.client_assigned_id info s.inflight_requests_map)
      × ((overtaken world s).stream.requests ≡ [])
      × ((overtaken world s).stream.responses ≡ [])
      × ((overtaken world s).client_chunk_id_counter ≡ s.client_chunk_id_counter)
      × ((overtaken world s).writer ≡ waiting)
      × ((overtaken world s).reader ≡ receiving)
unfolding run log_error respond
response_overtakes world s info w r v b rq rp f =
    let q = request_of info in
    let s₁ = served q s in
    let s₂ = received (respond q) s₁ in
    let s₃ = unmatched (respond q) s₂ in
    rw
      (
        act-served world q s v b rq,
        act-received world (respond q) s₁ r b (rw rp refl),
        act-unmatched world (respond q) s₂ refl f,
        act-recorded world info s₃ w,
      )
      (refl, refl, refl, refl, refl, refl, refl)
