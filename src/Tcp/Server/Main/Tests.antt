-- ===== src/Tcp/Server/Main/Tests.antt =====
-- The TCP server with two clients.
use grpccapnp.Base.{ℕ, ◌≡◌, ◌≢◌, refl, List, [], ◌∷◌, true, false, not, some, ◌==◌, get_elem?}
use grpccapnp.Tcp.Server.{done, failed, eof, other, Session, Listener, start, on_header, on_accept}
use grpccapnp.Tcp.Server.Bound.{header_read, complete, complete_all}
use grpccapnp.Tcp.Server.Main.{
  running, exited, terminated, Event, accepted, completed, signalled, Peers, run, advance, handle,
  main, accept, complete_session, release, shut_down, all_released,
}
use grpccapnp.Tcp.Server.Main.Isolation.{addressed, run-isolated}
use grpccapnp.Tcp.Server.Main.Reset.{reset_ends_server}

abbrev all_there : Peers
all_there i = true

-- The peer of the first session is gone.
abbrev first_gone : Peers
first_gone i = not (i == 0)

abbrev two_sessions : Listener
two_sessions = record { sessions = start ∷ start ∷ []; accepting = true }

-- The first client leaves, and a third one comes.
abbrev events : List (Peers × Event)
events =
    (all_there, completed 0 (header_read (failed eof))) ∷ (all_there, accepted true (done tt)) ∷ []

run-isolated_example :
    (l' : Listener) × (run events (running two_sessions) ≡ running l')
    × ((i : ℕ) (s : Session)
        → get_elem? two_sessions.sessions i ≡ some s
        → get_elem? l'.sessions i ≡ some (complete_all (addressed i events) s))
run-isolated_example = run-isolated events two_sessions ((λ i. refl), ((λ i. refl), tt))

reset_ends_server_example :
    run ((first_gone, completed 0 (header_read (failed other))) ∷ []) (running two_sessions)
    ≢ running two_sessions
unfolding complete on_header
reset_ends_server_example =
    reset_ends_server first_gone (completed 0 (header_read (failed other))) two_sessions
      two_sessions [] (start, refl, refl, refl, refl)

-- The same client ends the whole process, and the acceptor's exception is the status 1.
terminated_by_reset :
    main true (
      (all_there, accepted true (done tt))
      ∷ (first_gone, completed 0 (header_read (failed other)))
      ∷ [])
    ≡ terminated
unfolding main run advance handle accept complete_session release on_accept complete on_header
terminated_by_reset = refl

ended_by_signal :
    main true ((all_there, accepted true (done tt)) ∷ (all_there, signalled) ∷ []) ≡ exited 0
unfolding main run advance handle accept on_accept shut_down all_released
ended_by_signal = refl

not_opened : main false [] ≡ exited 1
unfolding main
not_opened = refl
