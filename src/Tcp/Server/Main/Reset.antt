-- ===== src/Tcp/Server/Main/Reset.antt =====
-- A client that has reset its connection, and the TCP server.
use grpccapnp.Base.{
  ℕ, ◌≡◌, sym, subst, ◌≢◌, List, [], ◌∷◌, true, false, some, length, get_elem?, Bool-cases, inl,
  inr, if◌then◌else◌,
}
use grpccapnp.Tcp.Server.{done, failed, Session, Listener}
use grpccapnp.Tcp.Server.Bound.{complete}
use grpccapnp.Tcp.Server.Main.{
  Process, running, exited, terminated, Event, accepted, completed, signalled, Peers, is_closed,
  all_released, shut_down, accept, release, complete_session, handle, advance, run,
}

-- The new connection is gone already, or the i-th session's operation fails or is refused, which
-- closes the session, and its peer is gone.
abbrev pub Resets : Peers → Event → Listener → Type 0
Resets peers (accepted is_open (done _)) l =
    (l.accepting ≡ true) × (peers (length l.sessions) ≡ false)
Resets peers (completed i c) l =
    (s : Session) × (get_elem? l.sessions i ≡ some s)
    × (is_closed s.pending ≡ false)
    × (is_closed (complete s.pending c s).pending ≡ true)
    × (peers i ≡ false)
Resets peers _ l = ⊥

-- The process is at its end.
abbrev IsOver : Process → Type 0
IsOver (running l) = ⊥
IsOver _ = Unit {0}

shut_down-IsOver : (peers : Peers) (code : ℕ) (l : Listener) → IsOver (shut_down peers code l)
unfolding shut_down
shut_down-IsOver peers code l = elim (Bool-cases (all_released peers 0 l.sessions)) [
  | inl released ↦ simp (released, if◌then◌else◌) tt
  | inr lost ↦ simp (lost, if◌then◌else◌) tt
]

release-IsOver :
    (i : ℕ) (s s' : Session) (l : Listener)
    → is_closed s.pending ≡ false
    → is_closed s'.pending ≡ true
    → IsOver (release false i s s' l)
unfolding release
release-IsOver i s s' l before after = simp (before, after, if◌then◌else◌) tt

handle-IsOver :
    (peers : Peers) (e : Event) (l : Listener) → Resets peers e l → IsOver (handle peers e l)
unfolding handle accept complete_session
handle-IsOver peers (accepted is_open (done _)) l (on, gone) =
    simp (on, gone, if◌then◌else◌) (shut_down-IsOver peers 1 l)
handle-IsOver peers (accepted is_open (failed ec)) l h = elim h [ ]
handle-IsOver peers (completed i c) l (s, is, before, after, gone) =
    subst (λ o. IsOver (complete_session peers i c o l)) (sym is)
      (subst (λ q. IsOver (release q i s (complete s.pending c s) l)) (sym gone)
        (release-IsOver i s (complete s.pending c s) l before after))
handle-IsOver peers signalled l h = elim h [ ]

run-IsOver : (events : List (Peers × Event)) (p : Process) → IsOver p → IsOver (run events p)
unfolding run advance
run-IsOver [] p over = over
run-IsOver ((peers, e) ∷ events) (running l) over = elim over [ ]
run-IsOver ((peers, e) ∷ events) (exited code) over = run-IsOver events (exited code) over
run-IsOver ((peers, e) ∷ events) terminated over = run-IsOver events terminated over

-- One client that resets its connection ends the server for all: if the connection is gone when its
-- session is made, or when a session of which it is the peer closes, then whatever the other sessions
-- do, the process no longer runs: `remote_endpoint()` throws in the constructor, through `run()` into
-- `main`, or in the destructor.
pub reset_ends_server :
    (peers : Peers) (e : Event) (l l' : Listener) (later : List (Peers × Event))
    → Resets peers e l
    → run ((peers, e) ∷ later) (running l) ≢ running l'
unfolding run advance
reset_ends_server peers e l l' later reset is =
    subst IsOver is (run-IsOver later (handle peers e l) (handle-IsOver peers e l reset))
