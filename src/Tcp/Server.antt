-- ===== src/Tcp/Server.antt =====
-- GO++PROJECT/src/cpp_tcp_benchmark/server/tcp_server.cpp: `TCPSession` and the accept loop of
-- `TCPServer`. A session is its buffers and the operation that it waits for; a completion handler is a
-- function from the session and what the operation came to. A session that waits for nothing has no
-- handler left that holds it, and is destroyed, which closes its socket.
pub mod Connection
pub mod Answers
pub mod Bound
pub mod Accepting
pub mod Main
use grpccapnp.Base.{
  ℕ, zero, suc, ◌+◌, ◌*◌, Bytes, List, [], ◌∷◌, ◌++◌, Bool, true, false, not, ltb, length, ◌==◌,
  if◌then◌else◌,
}
use grpccapnp.Tcp.Reversal.{reverse_vector_content}
use grpccapnp.Tcp.Config.{chunk_size}
use grpccapnp.Tcp.Messaging.{Header, prepare_message, parse_header}

-- The error codes that the handlers tell apart.
pub data ErrorCode : Type 0 where
  eof operation_aborted other : ErrorCode

-- What an operation came to.
pub data Outcome {ℓ} (A : Type ℓ) : Type ℓ where
  done : A → Outcome A
  failed : ErrorCode → Outcome A

-- The operation that a session waits for. A write carries its buffers.
pub data Pending : Type 0 where
  reading_header reading_body closed : Pending
  writing : List Bytes → Pending

pub record Session : Type 0 where
  pub pending : Pending
  pub read_body_buffer : Bytes

abbrev do_read_header : Session → Session
do_read_header s = record s { pending = reading_header }

abbrev do_read_body : Session → Session
do_read_body s = record s { pending = reading_body }

abbrev do_write : Session → Session
do_write s = record s { pending = writing (prepare_message s.read_body_buffer) }

abbrev close : Session → Session
close s = record s { pending = closed }

-- `start` of a new session.
abbrev pub start : Session
start = record { pending = reading_header; read_body_buffer = [] }

-- `resize(n)`: bytes are cut off or zeros are added.
unfoldable pub resize : ℕ → Bytes → Bytes
resize zero bytes = []
resize (suc n) [] = 0 ∷ resize n []
resize (suc n) (b ∷ bytes) = b ∷ resize n bytes

-- The handler of `do_read_header`.
unfoldable pub on_header : Outcome Header → Session → Session
unfolding resize
on_header (failed ec) s = close s
on_header (done header) s =
    let body_length = parse_header header in
    if body_length == 0
    then do_write (record s { read_body_buffer = [] })
    else (if ltb (chunk_size * 2) body_length
        then close s
        else do_read_body (record s { read_body_buffer = resize body_length s.read_body_buffer }))

-- The handler of `do_read_body`, for the bytes read into the buffer.
unfoldable pub on_body : Outcome Bytes → Session → Session
on_body (failed ec) s = close s
on_body (done body) s =
    if not (length body == length s.read_body_buffer)
    then close s
    else do_write (record s { read_body_buffer = reverse_vector_content body })

-- The handler of `do_write`.
unfoldable pub on_written : Outcome (Unit {0}) → Session → Session
on_written (failed ec) s = close s
on_written (done _) s = do_read_header s

-- `TCPServer`: the sessions started, and whether it waits for a connection.
pub record Listener : Type 0 where
  pub sessions : List Session
  pub accepting : Bool

-- `do_accept` is called again unless the server shuts down or the acceptor has been closed.
unfoldable pub on_accept : Bool → Outcome (Unit {0}) → Listener → Listener
on_accept is_open (done _) l = record l { sessions = l.sessions ++ start ∷ []; accepting = is_open }
on_accept is_open (failed operation_aborted) l = record l { accepting = false }
on_accept is_open (failed eof) l = record l { accepting = is_open }
on_accept is_open (failed other) l = record l { accepting = is_open }
