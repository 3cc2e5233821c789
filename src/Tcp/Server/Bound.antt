-- ===== src/Tcp/Server/Bound.antt =====
-- What a client can make a session hold.
use grpccapnp.Base.{◌*◌, ◌≤◌, Bytes, List, [], ◌∷◌, arith, length, length-reverse}
use grpccapnp.Tcp.Reversal.{reverse_vector_content}
use grpccapnp.Tcp.Config.{chunk_size}
use grpccapnp.Tcp.Messaging.{Header, parse_header}
use grpccapnp.Tcp.Server.{
  Outcome, done, failed, Pending, Session, reading_header, reading_body, writing, closed, on_header,
  on_body, on_written, start,
}
use grpccapnp.Tcp.Server.Answers.{length-resize}

-- The completion of an operation.
pub data Completion : Type 0 where
  header_read : Outcome Header → Completion
  body_read : Outcome Bytes → Completion
  written : Outcome (Unit {0}) → Completion

-- Only the operation that the session waits for completes.
unfoldable pub complete : Pending → Completion → Session → Session
complete reading_header (header_read o) s = on_header o s
complete reading_body (body_read o) s = on_body o s
complete (writing buffers) (written o) s = on_written o s
complete _ _ s = s

unfoldable pub complete_all : List Completion → Session → Session
complete_all [] s = s
complete_all (c ∷ cs) s = complete_all cs (complete s.pending c s)

abbrev Holds : Session → Type 0
Holds s = length s.read_body_buffer ≤ chunk_size * 2

on_header-Holds : (o : Outcome Header) (s : Session) → Holds s → Holds (on_header o s)
unfolding on_header
on_header-Holds (failed ec) s h = h
on_header-Holds (done header) s h =
    ground (arith, length-resize (parse_header header) s.read_body_buffer)

on_body-Holds : (o : Outcome Bytes) (s : Session) → Holds s → Holds (on_body o s)
unfolding on_body reverse_vector_content
on_body-Holds (failed ec) s h = h
on_body-Holds (done body) s h = ground (arith, length-reverse body)

on_written-Holds : (o : Outcome (Unit {0})) (s : Session) → Holds s → Holds (on_written o s)
unfolding on_written
on_written-Holds (failed ec) s h = h
on_written-Holds (done _) s h = h

complete-Holds : (p : Pending) (c : Completion) (s : Session) → Holds s → Holds (complete p c s)
unfolding complete
complete-Holds reading_header (header_read o) s h = on_header-Holds o s h
complete-Holds reading_header (body_read o) s h = h
complete-Holds reading_header (written o) s h = h
complete-Holds reading_body (header_read o) s h = h
complete-Holds reading_body (body_read o) s h = on_body-Holds o s h
complete-Holds reading_body (written o) s h = h
complete-Holds closed (header_read o) s h = h
complete-Holds closed (body_read o) s h = h
complete-Holds closed (written o) s h = h
complete-Holds (writing buffers) (header_read o) s h = h
complete-Holds (writing buffers) (body_read o) s h = h
complete-Holds (writing buffers) (written o) s h = on_written-Holds o s h

complete_all-Holds : (cs : List Completion) (s : Session) → Holds s → Holds (complete_all cs s)
unfolding complete_all
complete_all-Holds [] s h = h
complete_all-Holds (c ∷ cs) s h =
    complete_all-Holds cs (complete s.pending c s) (complete-Holds s.pending c s h)

-- From a session's start, whatever its operations come to and whatever bytes the client sends, its
-- body buffer never holds more than twice the chunk size.
pub buffer-le :
    (cs : List Completion) → length (complete_all cs start).read_body_buffer ≤ chunk_size * 2
buffer-le cs = complete_all-Holds cs start (omega arith)
