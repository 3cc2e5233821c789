-- ===== src/Grpc/Client/Fair/Moves.antt =====
-- Every step of a thread is a wait or lowers the measure.
use grpccapnp.Base.{
  ℕ, suc, ◌≡◌, refl, sym, ap, ◌∙◌, subst, ◌≢◌, inl, inr, List, [], ◌∷◌, ◌++◌, Option, none, some,
  arith, Byte, Bytes, length, length-append, is_empty,
}
use grpccapnp.Base.Int.{ℤ}
use grpccapnp.Base.Chunks.{chunks_of, chunks_of-nil}
use grpccapnp.Common.ChunkReader.{next_chunk}
use grpccapnp.Common.ChunkReader.Reading.{Delivered}
use grpccapnp.Common.ChunkReader.WholeFile.{AtEnd, Within, next_chunk-Next, eof-remaining}
use grpccapnp.Grpc.Server.{ChunkRequest, ChunkResponse, respond}
use grpccapnp.Grpc.Client.Inflight.{SentChunkInfo, find, length-assign-le, length-erase-le}
use grpccapnp.Grpc.Client.Finish.{finish_step-eq}
use grpccapnp.Grpc.Client.{
  Writer, waiting, reading, writing, recording, leaving, closing, ended, Reader, receiving,
  matching, verifying, joining, finishing, returned, Server, serving, done, System, World, Action,
  writer_moves, reader_moves, server_moves, stream_breaks, read_step, write_step, close_step,
  writer_step, take_response, match_found, verify_step, finish_step, reader_step, serve,
  server_step, act, request_of,
}
use grpccapnp.Grpc.Client.Lockstep.{read_some, read_end}
use grpccapnp.Grpc.Client.Fair.{chunks_left, IsAlive, Moves}

take_response-Moves :
    (s : System) (rs : List ChunkResponse)
    → s.reader ≡ receiving
    → s.stream.responses ≡ rs
    → IsAlive s
    → Moves s (take_response rs s)
unfolding take_response
take_response-Moves s [] is rs h = ground arith
take_response-Moves s (r ∷ rs) is e h = ground arith

match_found-Moves :
    (response : ChunkResponse) (s : System) (o : Option SentChunkInfo)
    → s.reader ≡ matching response
    → IsAlive s
    → Moves s (match_found response s o)
unfolding match_found
match_found-Moves response s none is h = ground arith
match_found-Moves response s (some info) is h =
    ground (arith, length-erase-le response.original_client_chunk_id s.inflight_requests_map)

verify_step-Moves :
    (rtt_us : ℕ → ℤ) (info : SentChunkInfo) (r : ChunkResponse) (s : System)
    → s.reader ≡ verifying info r
    → IsAlive s
    → Moves s (verify_step rtt_us info r s)
unfolding verify_step
verify_step-Moves rtt_us info r s is h = ground arith

finish_step-Moves :
    (expected : ℕ) (duration : ℤ) (s : System)
    → s.reader ≡ finishing
    → IsAlive s
    → Moves s (finish_step expected duration s)
finish_step-Moves expected duration s is h =
    let (m, e, _) = finish_step-eq expected duration s in subst (Moves s) (sym e) (ground arith)

reader_step-Moves :
    (world : World) (r : Reader) (s : System)
    → s.reader ≡ r
    → IsAlive s
    → Moves s (reader_step world r s)
unfolding reader_step
reader_step-Moves world receiving s is h = take_response-Moves s s.stream.responses is refl h
reader_step-Moves world (matching response) s is h =
    match_found-Moves response s (find response.original_client_chunk_id s.inflight_requests_map) is
      h
reader_step-Moves world (verifying info response) s is h =
    verify_step-Moves world.rtt_us info response s is h
reader_step-Moves world joining s is h = ground arith
reader_step-Moves world finishing s is h = finish_step-Moves world.expected world.duration_ms s is h
reader_step-Moves world returned s is h = inl refl

serve-Moves :
    (rs : List ChunkRequest) (s : System)
    → s.server ≡ serving
    → s.stream.requests ≡ rs
    → IsAlive s
    → Moves s (serve rs s)
unfolding serve
serve-Moves [] s is e h = ground arith
serve-Moves (r ∷ rs) s is e h = ground (arith, length-append s.stream.responses (respond r ∷ []))

server_step-Moves : (v : Server) (s : System) → s.server ≡ v → IsAlive s → Moves s (server_step v s)
unfolding server_step
server_step-Moves serving s is h = serve-Moves s.stream.requests s is refl h
server_step-Moves (done status) s is h = inl refl

write_step-Moves :
    (info : SentChunkInfo) (s : System)
    → s.writer ≡ writing info
    → IsAlive s
    → Moves s (write_step info s)
unfolding write_step
write_step-Moves info s is h =
    ground (arith, length-append s.stream.requests (request_of info ∷ []))

close_step-Moves : (s : System) → s.writer ≡ closing → IsAlive s → Moves s (close_step s)
unfolding close_step
close_step-Moves s is h = ground arith

read_end-Moves :
    (byte_size : Bytes → ℕ → ℕ) (seen : Bytes) (s : System)
    → s.writer ≡ reading
    → IsAlive s
    → AtEnd seen s.file (next_chunk s.file).0 (next_chunk s.file).1
    → Moves s (read_step byte_size s)
read_end-Moves byte_size seen s is h e =
    let file = (next_chunk s.file).0 in
    let (_, _, noticed) = eof-remaining seen file e.delivered in
    let gone : chunks_left file ≡ 0 =
      ap (λ q. length (chunks_of file.chunk_size q)) e.none_left'
      ∙ ap length (chunks_of-nil {A = Byte} file.chunk_size) in
    let delivered : (seen : Bytes) × Delivered seen file = (seen, e.delivered) in
    subst (Moves s) (sym (read_end byte_size s (ap is_empty e.empty) (noticed.1 e.none_left')))
      (ground (arith, gone, delivered))

read_some-Moves :
    (byte_size : Bytes → ℕ → ℕ) (seen : Bytes) (s : System) (b : Byte) (bs : Bytes)
    → s.writer ≡ reading
    → IsAlive s
    → (next_chunk s.file).1 ≡ b ∷ bs
    → Within seen s.file (next_chunk s.file).0 b bs
    → Moves s (read_step byte_size s)
read_some-Moves byte_size seen s b bs is h e w =
    let file = (next_chunk s.file).0 in
    let one_less : chunks_left s.file ≡ suc (chunks_left file) =
      ap length w.cuts
      ∙ ap (λ q. suc (length (chunks_of q file.file_stream.rest))) (sym w.same_chunk_size) in
    let delivered : (seen : Bytes) × Delivered seen file = (seen ++ b ∷ bs, w.delivered) in
    subst (Moves s) (sym (read_some byte_size s (ap is_empty e)))
      (ground (arith, one_less, delivered))

read_step-Moves :
    (byte_size : Bytes → ℕ → ℕ) (s : System)
    → s.writer ≡ reading
    → IsAlive s
    → Moves s (read_step byte_size s)
read_step-Moves byte_size s is h =
    let (seen, d) = h.read in
    elim (next_chunk-Next seen s.file d) [
      | inl e ↦ read_end-Moves byte_size seen s is h e
      | inr (b, bs, e, w) ↦ read_some-Moves byte_size seen s b bs is h e w
    ]

writer_step-Moves :
    (byte_size : Bytes → ℕ → ℕ) (w : Writer) (s : System)
    → s.writer ≡ w
    → IsAlive s
    → Moves s (writer_step byte_size w s)
unfolding writer_step
writer_step-Moves byte_size waiting s is h = ground arith
writer_step-Moves byte_size reading s is h = read_step-Moves byte_size s is h
writer_step-Moves byte_size (writing info) s is h = write_step-Moves info s is h
writer_step-Moves byte_size (recording info) s is h =
    ground (arith, length-assign-le info.client_assigned_id info s.inflight_requests_map)
writer_step-Moves byte_size leaving s is h = ground arith
writer_step-Moves byte_size closing s is h = close_step-Moves s is h
writer_step-Moves byte_size ended s is h = inl refl

-- The network keeps still.
pub act-Moves :
    (world : World) (a : Action) (s : System)
    → a ≢ stream_breaks
    → IsAlive s
    → Moves s (act world a s)
unfolding act
act-Moves world writer_moves s works h = writer_step-Moves world.byte_size s.writer s refl h
act-Moves world reader_moves s works h = reader_step-Moves world s.reader s refl h
act-Moves world server_moves s works h = server_step-Moves s.server s refl h
act-Moves world stream_breaks s works h = absurd (works refl)
