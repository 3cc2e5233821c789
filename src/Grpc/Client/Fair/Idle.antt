-- ===== src/Grpc/Client/Fair/Idle.antt =====
-- The states of `ProcessFile` in which a thread waits.
use grpccapnp.Base.{
  ℕ, ◌≡◌, refl, ap, subst, ◌≢◌, Option, none, some, true, false, List, [], ◌∷◌, arith, Bytes,
  length,
}
use grpccapnp.Grpc.Server.{ChunkRequest, ChunkResponse}
use grpccapnp.Grpc.Client.Inflight.{SentChunkInfo, find}
use grpccapnp.Grpc.Client.Finish.{finish_step-eq}
use grpccapnp.Grpc.Client.{
  Writer, waiting, reading, writing, recording, leaving, closing, ended, Reader, receiving,
  matching, verifying, joining, finishing, returned, Server, serving, done, System, World,
  writer_moves, reader_moves, server_moves, read_step, write_step, close_step, writer_step,
  take_response, match_found, verify_step, reader_step, serve, server_step, act,
}
use grpccapnp.Grpc.Client.Fair.{IsAlive, Closes}

writer_idle :
    (byte_size : Bytes → ℕ → ℕ) (w : Writer) (s : System)
    → s.writer ≡ w
    → IsAlive s
    → writer_step byte_size w s ≡ s
    → w ≡ ended
unfolding writer_step write_step close_step read_step
writer_idle byte_size waiting s is h e = ground (arith, ap (λ t. t.writer) e)
writer_idle byte_size reading s is h e = ground (arith, ap (λ t. t.writer) e)
writer_idle byte_size (writing info) s is h e = ground (arith, ap (λ t. t.writer) e)
writer_idle byte_size (recording info) s is h e = ground (arith, ap (λ t. t.writer) e)
writer_idle byte_size leaving s is h e = ground (arith, ap (λ t. t.writer) e)
writer_idle byte_size closing s is h e = ground (arith, ap (λ t. t.writer) e)
writer_idle byte_size ended s is h e = refl

serve_idle :
    (rs : List ChunkRequest) (s : System)
    → s.server ≡ serving
    → s.stream.requests ≡ rs
    → s.writer ≡ ended
    → IsAlive s
    → serve rs s ≢ s
unfolding serve
serve_idle [] s is e over h same =
    let closed : s.stream.writes_done ≡ true =
      subst (λ w. Closes w s.stream.writes_done) over h.closes in
    ground (arith, ap (λ t. t.server) same)
serve_idle (r ∷ rs) s is e over h same =
    ground (arith, ap (λ t. length t.stream.requests) same, ap length e)

server_idle :
    (v : Server) (s : System)
    → s.server ≡ v
    → s.writer ≡ ended
    → IsAlive s
    → server_step v s ≡ s
    → v ≢ serving
unfolding server_step
server_idle serving s is over h e same = serve_idle s.stream.requests s is refl over h e
server_idle (done status) s is over h e same = cc

take_response_idle :
    (rs : List ChunkResponse) (s : System)
    → s.reader ≡ receiving
    → s.server ≢ serving
    → s.stream.broken ≡ false
    → take_response rs s ≢ s
unfolding take_response
take_response_idle [] s is off works same = ground (arith, ap (λ t. t.reader) same)
take_response_idle (r ∷ rs) s is off works same = ground (arith, ap (λ t. t.reader) same)

match_found_idle :
    (response : ChunkResponse) (s : System) (o : Option SentChunkInfo)
    → s.reader ≡ matching response
    → match_found response s o ≢ s
unfolding match_found
match_found_idle response s none is same = ground (arith, ap (λ t. t.reader) same)
match_found_idle response s (some info) is same = ground (arith, ap (λ t. t.reader) same)

reader_idle :
    (world : World) (r : Reader) (s : System)
    → s.reader ≡ r
    → s.writer ≡ ended
    → s.server ≢ serving
    → IsAlive s
    → reader_step world r s ≡ s
    → r ≡ returned
unfolding reader_step verify_step
reader_idle world receiving s is over off h e =
    absurd (take_response_idle s.stream.responses s is off h.works e)
reader_idle world (matching response) s is over off h e = absurd (
    match_found_idle response s (find response.original_client_chunk_id s.inflight_requests_map) is
      e)
reader_idle world (verifying info response) s is over off h e = ground (arith, ap (λ t. t.reader) e)
reader_idle world joining s is over off h e = ground (arith, ap (λ t. t.reader) e)
reader_idle world finishing s is over off h e =
    let (m, finished, _) = finish_step-eq world.expected world.duration_ms s in
    ground (arith, ap (λ t. t.reader) finished, ap (λ t. t.reader) e)
reader_idle world returned s is over off h e = refl

-- If no thread can move, `ProcessFile` has returned.
pub all_idle :
    (world : World) (s : System)
    → IsAlive s
    → act world writer_moves s ≡ s
    → act world reader_moves s ≡ s
    → act world server_moves s ≡ s
    → s.reader ≡ returned
unfolding act
all_idle world s h w r v =
    let over = writer_idle world.byte_size s.writer s refl h w in
    reader_idle world s.reader s refl over (server_idle s.server s refl over h v) h r
