-- ===== src/Tcp/Server/Main.antt =====
-- The whole process of GO++PROJECT/src/cpp_tcp_benchmark/server/tcp_server.cpp: `main`, with the accept
-- loop and all sessions on one `io_context`. Whether `remote_endpoint()` finds the peer of a socket is
-- an argument of each event; it throws where the connection has been reset.
pub mod Isolation
pub mod Reset
mod Tests
use grpccapnp.Base.{
  ℕ, zero, suc, ◌+◌, List, [], ◌∷◌, Bool, true, false, not, ◌&&◌, ◌||◌, Option, none, some, length,
  get_elem?, set, if◌then◌else◌,
}
use grpccapnp.Tcp.Server.{
  Outcome, done, failed, Pending, reading_header, reading_body, writing, closed, Session, Listener,
  on_accept,
}
use grpccapnp.Tcp.Server.Bound.{Completion, complete}

-- The process runs, with the listener and the sessions started so far, or `main` has returned, or
-- `std::terminate` was called.
pub data Process : Type 0 where
  running : Listener → Process
  exited : (code : ℕ) → Process
  terminated : Process

-- What completes: an accept, the operation of a session, or the wait for a signal.
pub data Event : Type 0 where
  accepted : (is_open : Bool) → Outcome (Unit {0}) → Event
  completed : (i : ℕ) → Completion → Event
  signalled : Event

-- Whether `remote_endpoint()` returns for the i-th session.
abbrev pub Peers : Type 0
Peers = ℕ → Bool

abbrev pub is_closed : Pending → Bool
is_closed closed = true
is_closed _ = false

-- The destructors of the sessions from the i-th on that are still there.
unfoldable pub all_released : Peers → ℕ → List Session → Bool
all_released peers i [] = true
all_released peers i (s ∷ sessions) =
    (is_closed s.pending || peers i) && all_released peers (i + 1) sessions

-- The `io_context` is destroyed, with the sessions that its handlers hold: an exception that leaves
-- a destructor ends the program.
shut_down : Peers → ℕ → Listener → Process
unfolding all_released
shut_down peers code l = if all_released peers 0 l.sessions then exited code else terminated

-- The constructor of the session asks for the peer; what it throws leaves `run()`, and `main` returns 1.
accept : Peers → Bool → Outcome (Unit {0}) → Listener → Process
unfolding shut_down
accept peers is_open (failed ec) l = running (on_accept is_open (failed ec) l)
accept peers is_open (done _) l =
    if peers (length l.sessions)
    then running (on_accept is_open (done tt) l)
    else shut_down peers 1 l

-- The destructor asks for the peer, when a handler has been the last to hold its session.
release : Bool → ℕ → Session → Session → Listener → Process
release known i s s' l =
    if is_closed s'.pending && not (is_closed s.pending) && not known
    then terminated
    else running (record l { sessions = set l.sessions i s' })

complete_session : Peers → ℕ → Completion → Option Session → Listener → Process
unfolding release
complete_session peers i c none l = running l
complete_session peers i c (some s) l = release (peers i) i s (complete s.pending c s) l

-- A handler is run. The wait for the signal goes on until then, so `run()` does not return for want of
-- work.
pub handle : Peers → Event → Listener → Process
unfolding accept complete_session shut_down
handle peers (accepted is_open o) l = if l.accepting then accept peers is_open o l else running l
handle peers (completed i c) l = complete_session peers i c (get_elem? l.sessions i) l
handle peers signalled l = shut_down peers 0 l

unfoldable pub advance : Peers → Event → Process → Process
unfolding handle
advance peers e (running l) = handle peers e l
advance peers e (exited code) = exited code
advance peers e terminated = terminated

unfoldable pub run : List (Peers × Event) → Process → Process
run [] p = p
run ((peers, e) ∷ events) p = run events (advance peers e p)

abbrev pub listening : Process
listening = running (record { sessions = []; accepting = true })

-- `main`, where the acceptor opens or throws.
pub main : Bool → List (Peers × Event) → Process
main opens events = if opens then run events listening else exited 1
