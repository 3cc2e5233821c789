-- ===== src/Grpc/Client/Schedule.antt =====
-- Schedules of `ProcessFile`: one after the other, and behind its return.
use grpccapnp.Base.{ℕ, ◌≡◌, refl, ap, ◌∙◌, List, [], ◌∷◌, ◌++◌, arith, Bytes}
use grpccapnp.Grpc.Server.{ChunkRequest}
use grpccapnp.Grpc.Client.{
  Writer, waiting, reading, writing, recording, leaving, closing, ended, Reader, returned, Server,
  serving, done, System, World, Action, writer_moves, reader_moves, server_moves, stream_breaks,
  read_step, write_step, close_step, writer_step, reader_step, serve, server_step, act, run,
}

pub run-append :
    (world : World) (xs ys : List Action) (s : System)
    → run world (xs ++ ys) s ≡ run world ys (run world xs s)
unfolding run
run-append world [] ys s = refl
run-append world (a ∷ xs) ys s = run-append world xs ys (act world a s)

writer_step-reader :
    (byte_size : Bytes → ℕ → ℕ) (w : Writer) (s : System)
    → (writer_step byte_size w s).reader ≡ s.reader
unfolding writer_step write_step close_step read_step
writer_step-reader byte_size waiting s = ground arith
writer_step-reader byte_size reading s = ground arith
writer_step-reader byte_size (writing info) s = ground arith
writer_step-reader byte_size (recording info) s = refl
writer_step-reader byte_size leaving s = refl
writer_step-reader byte_size closing s = ground arith
writer_step-reader byte_size ended s = refl

serve-reader : (rs : List ChunkRequest) (s : System) → (serve rs s).reader ≡ s.reader
unfolding serve
serve-reader [] s = ground arith
serve-reader (r ∷ rs) s = ground arith

server_step-reader : (v : Server) (s : System) → (server_step v s).reader ≡ s.reader
unfolding server_step
server_step-reader serving s = serve-reader s.stream.requests s
server_step-reader (done status) s = refl

reader_step-returned :
    (world : World) (r : Reader) (s : System) → r ≡ returned → reader_step world r s ≡ s
unfolding reader_step
reader_step-returned world r s e = rw e refl

act-returned :
    (world : World) (a : Action) (s : System)
    → s.reader ≡ returned
    → (act world a s).reader ≡ returned
unfolding act
act-returned world writer_moves s e = writer_step-reader world.byte_size s.writer s ∙ e
act-returned world reader_moves s e =
    ap (λ q. q.reader) (reader_step-returned world s.reader s e) ∙ e
act-returned world server_moves s e = server_step-reader s.server s ∙ e
act-returned world stream_breaks s e = e

-- A call that has returned stays so.
pub run-returned :
    (world : World) (actions : List Action) (s : System)
    → s.reader ≡ returned
    → (run world actions s).reader ≡ returned
unfolding run
run-returned world [] s e = e
run-returned world (a ∷ actions) s e =
    run-returned world actions (act world a s) (act-returned world a s e)
