-- ===== src/Tcp/Server/Main/Isolation.antt =====
-- The sessions of the TCP server side by side.
use grpccapnp.Base.{
  ℕ, ◌≡◌, refl, sym, ap, ◌∙◌, subst, inl, inr, List, [], ◌∷◌, ◌++◌, Bool, true, Option, none, some,
  arith, length, get_elem?, set, get_elem-set, get_elem-set_ne, get_elem-append, All, ◌==◌, ==_eq,
  Bool-cases, if◌then◌else◌, eq_of_some, none-ne-some,
}
use grpccapnp.Tcp.Server.{
  Outcome, done, failed, eof, operation_aborted, other, Session, Listener, on_accept, start,
}
use grpccapnp.Tcp.Server.Bound.{Completion, complete, complete_all}
use grpccapnp.Tcp.Server.Main.{
  Process, running, Event, accepted, completed, signalled, Peers, accept, release, complete_session,
  handle, advance, run,
}

-- Every peer is there, and nobody sends a signal.
abbrev pub IsCalm : Peers × Event → Type 0
IsCalm (peers, signalled) = ⊥
IsCalm (peers, _) = (i : ℕ) → peers i ≡ true

abbrev pub for_session : ℕ → Event → List Completion
for_session i (completed j c) = if j == i then c ∷ [] else []
for_session i _ = []

-- The completions of the i-th session's operations.
abbrev pub addressed : ℕ → List (Peers × Event) → List Completion
addressed i [] = []
addressed i ((peers, e) ∷ events) = for_session i e ++ addressed i events

-- The process runs on, and each session is left to its own completions.
abbrev Apart : (ℕ → List Completion) → Listener → Process → Type 0
Apart own l p =
    (l' : Listener) × (p ≡ running l')
    × ((i : ℕ) (s : Session)
        → get_elem? l.sessions i ≡ some s
        → get_elem? l'.sessions i ≡ some (complete_all (own i) s))

accept-Apart :
    (peers : Peers) (is_open : Bool) (o : Outcome (Unit {0})) (l : Listener)
    → ((i : ℕ) → peers i ≡ true)
    → Apart (λ i. []) l (accept peers is_open o l)
unfolding accept on_accept complete_all
accept-Apart peers is_open (failed eof) l known = (_, refl, λ i s e. e)
accept-Apart peers is_open (failed operation_aborted) l known = (_, refl, λ i s e. e)
accept-Apart peers is_open (failed other) l known = (_, refl, λ i s e. e)
accept-Apart peers is_open (done _) l known =
    rw (known (length l.sessions), if◌then◌else◌)
      (_, refl, λ i s e. get_elem-append l.sessions (start ∷ []) i s e)

release-known :
    (i : ℕ) (s s' : Session) (l : Listener)
    → release true i s s' l ≡ running (record l { sessions = set l.sessions i s' })
unfolding release
release-known i s s' l = ground arith

complete_session-Apart :
    (peers : Peers) (j : ℕ) (c : Completion) (l : Listener) (o : Option Session)
    → get_elem? l.sessions j ≡ o
    → ((i : ℕ) → peers i ≡ true)
    → Apart (λ i. for_session i (completed j c)) l (complete_session peers j c o l)
unfolding complete_session complete_all
complete_session-Apart peers j c l none is known = (
  l,
  refl,
  λ i s e. elim (Bool-cases (j == i)) [
    | inl same ↦ absurd (none-ne-some s (sym is ∙ ap (get_elem? l.sessions) (==_eq j i same) ∙ e))
    | inr other_one ↦ rw (other_one, if◌then◌else◌) e
  ],
)
complete_session-Apart peers j c l (some t) is known = (
  record l { sessions = set l.sessions j (complete t.pending c t) },
  ap (λ q. release q j t (complete t.pending c t) l) (known j) ∙ release-known j t _ l,
  λ i s e. elim (Bool-cases (j == i)) [
    | inl same ↦
        let at_j : get_elem? l.sessions j ≡ some s =
          ap (get_elem? l.sessions) (==_eq j i same) ∙ e in
        let is_t : t ≡ s = eq_of_some (sym is ∙ at_j) in
        rw (same, if◌then◌else◌)
          (ap (get_elem? (set l.sessions j (complete t.pending c t))) (sym (==_eq j i same))
            ∙ get_elem-set l.sessions j (complete t.pending c t) t is
            ∙ ap (λ q. some (complete q.pending c q)) is_t)
    | inr other_one ↦
        rw (other_one, if◌then◌else◌)
          (get_elem-set_ne l.sessions j i (complete t.pending c t)
              (λ same. ground (arith, same, other_one))
            ∙ e)
  ],
)

handle-Apart :
    (peers : Peers) (e : Event) (l : Listener)
    → IsCalm (peers, e)
    → Apart (λ i. for_session i e) l (handle peers e l)
unfolding handle complete_all
handle-Apart peers (accepted is_open o) l known =
    let step : Bool → Process = λ q. if q then accept peers is_open o l else running l in
    elim (Bool-cases l.accepting) [
      | inl on ↦
          subst (λ q. Apart (λ i. []) l (step q)) (sym on) (accept-Apart peers is_open o l known)
      | inr off ↦ subst (λ q. Apart (λ i. []) l (step q)) (sym off) (l, refl, λ i s e. e)
    ]
handle-Apart peers (completed j c) l known =
    complete_session-Apart peers j c l (get_elem? l.sessions j) refl known
handle-Apart peers signalled l known = elim known [ ]

complete_all-append :
    (cs ds : List Completion) (s : Session)
    → complete_all (cs ++ ds) s ≡ complete_all ds (complete_all cs s)
unfolding complete_all
complete_all-append [] ds s = refl
complete_all-append (c ∷ cs) ds s = complete_all-append cs ds (complete s.pending c s)

-- While every peer is there and nobody stops the server, it runs on whatever completes, and each of its
-- sessions is what its own completions make of it, whatever the other sessions and the accept loop do.
pub run-isolated :
    (events : List (Peers × Event)) (l : Listener)
    → All IsCalm events
    → (l' : Listener) × (run events (running l) ≡ running l')
      × ((i : ℕ) (s : Session)
          → get_elem? l.sessions i ≡ some s
          → get_elem? l'.sessions i ≡ some (complete_all (addressed i events) s))
unfolding run advance complete_all
run-isolated [] l calm = (l, refl, λ i s e. e)
run-isolated ((peers, e) ∷ events) l (quiet, calm) =
    let (l₁, now, own) = handle-Apart peers e l quiet in
    let (l₂, later, own') = run-isolated events l₁ calm in
    (
      l₂,
      ap (run events) now ∙ later,
      λ i s at.
          own' i (complete_all (for_session i e) s) (own i s at)
          ∙ ap some (sym (complete_all-append (for_session i e) (addressed i events) s)),
    )
