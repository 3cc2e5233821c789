-- ===== src/Grpc/Client/Balance/Frame.antt =====
-- The reader and the server leave alone what the writer has counted.
use grpccapnp.Base.{ℕ, ◌≡◌, refl, sym, subst, List, [], ◌∷◌, Option, none, some, arith}
use grpccapnp.Base.Int.{ℤ}
use grpccapnp.Grpc.Client.Finish.{finish_step-eq}
use grpccapnp.Grpc.Server.{ChunkRequest, ChunkResponse}
use grpccapnp.Grpc.Client.Inflight.{SentChunkInfo, find}
use grpccapnp.Grpc.Client.{
  Reader, receiving, matching, verifying, joining, finishing, returned, Server, serving, done,
  System, World, take_response, match_found, verify_step, finish_step, reader_step, serve,
  server_step,
}

abbrev pub Keeps : System → System → Type 0
Keeps s t =
    (t.writer ≡ s.writer)
    × (t.client_chunk_id_counter ≡ s.client_chunk_id_counter)
    × (t.writer_stream_broken ≡ s.writer_stream_broken)

take_response-Keeps : (ps : List ChunkResponse) (s : System) → Keeps s (take_response ps s)
unfolding take_response
take_response-Keeps [] s = ground arith
take_response-Keeps (p ∷ ps) s = ground arith

match_found-Keeps :
    (p : ChunkResponse) (s : System) (o : Option SentChunkInfo) → Keeps s (match_found p s o)
unfolding match_found
match_found-Keeps p s none = (refl, refl, refl)
match_found-Keeps p s (some info) = (refl, refl, refl)

verify_step-Keeps :
    (rtt_us : ℕ → ℤ) (info : SentChunkInfo) (p : ChunkResponse) (s : System)
    → Keeps s (verify_step rtt_us info p s)
unfolding verify_step
verify_step-Keeps rtt_us info p s = ground arith

finish_step-Keeps :
    (expected : ℕ) (duration : ℤ) (s : System) → Keeps s (finish_step expected duration s)
finish_step-Keeps expected duration s =
    let (m, e, _) = finish_step-eq expected duration s in subst (Keeps s) (sym e) (refl, refl, refl)

pub reader_step-Keeps : (world : World) (v : Reader) (s : System) → Keeps s (reader_step world v s)
unfolding reader_step
reader_step-Keeps world receiving s = take_response-Keeps s.stream.responses s
reader_step-Keeps world (matching p) s =
    match_found-Keeps p s (find p.original_client_chunk_id s.inflight_requests_map)
reader_step-Keeps world (verifying info p) s = verify_step-Keeps world.rtt_us info p s
reader_step-Keeps world joining s = ground arith
reader_step-Keeps world finishing s = finish_step-Keeps world.expected world.duration_ms s
reader_step-Keeps world returned s = (refl, refl, refl)

serve-Keeps : (qs : List ChunkRequest) (s : System) → Keeps s (serve qs s)
unfolding serve
serve-Keeps [] s = ground arith
serve-Keeps (q ∷ qs) s = ground arith

pub server_step-Keeps : (v : Server) (s : System) → Keeps s (server_step v s)
unfolding server_step
server_step-Keeps serving s = serve-Keeps s.stream.requests s
server_step-Keeps (done status) s = (refl, refl, refl)
