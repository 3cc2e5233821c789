-- ===== src/Tcp/Server/Accepting.antt =====
-- The accept loop of the TCP server over a sequence of accepts.
use grpccapnp.Base.{
  ℕ, ◌+◌, ◌≡◌, refl, subst, ap, ◌∙◌, sym, List, [], ◌∷◌, Bool, true, false, arith, length,
  length-append, if◌then◌else◌,
}
use grpccapnp.Tcp.Server.{
  eof, operation_aborted, other, Outcome, done, failed, start, Listener, on_accept,
}

-- Whether the acceptor is open when an accept completes, and what it completes with.
abbrev pub Accept : Type 0
Accept = Bool × Outcome (Unit {0})

-- An accept completes only if one is waited for.
unfoldable pub accept_all : List Accept → Listener → Listener
accept_all [] l = l
accept_all ((is_open, o) ∷ accepts) l =
    accept_all accepts (if l.accepting then on_accept is_open o l else l)

-- The connections that were made.
abbrev pub connections : List Accept → ℕ
connections [] = 0
connections ((is_open, done _) ∷ accepts) = 1 + connections accepts
connections ((is_open, failed ec) ∷ accepts) = connections accepts

abbrev pub is_aborted : Outcome (Unit {0}) → Bool
is_aborted (failed operation_aborted) = true
is_aborted _ = false

-- The acceptor is open and the accept is not aborted.
abbrev pub IsLive : List Accept → Type 0
IsLive [] = Unit {0}
IsLive ((is_open, o) ∷ accepts) = (is_open ≡ true) × (is_aborted o ≡ false) × IsLive accepts

-- Once no accept is waited for, nothing happens.
accept_all-over :
    (accepts : List Accept) (l : Listener) → l.accepting ≡ false → accept_all accepts l ≡ l
unfolding accept_all
accept_all-over [] l off = refl
accept_all-over ((is_open, o) ∷ accepts) l off =
    ap (λ q. accept_all accepts (if q then on_accept is_open o l else l)) off
    ∙ accept_all-over accepts l off

-- An accept that is waited for.
accept_step :
    (is_open : Bool) (o : Outcome (Unit {0})) (accepts : List Accept) (l : Listener)
    → l.accepting ≡ true
    → accept_all ((is_open, o) ∷ accepts) l ≡ accept_all accepts (on_accept is_open o l)
unfolding accept_all
accept_step is_open o accepts l on =
    ap (λ q. accept_all accepts (if q then on_accept is_open o l else l)) on

abbrev Lives : ℕ → Listener → Type 0
Lives n l = (l.accepting ≡ true) × (length l.sessions ≡ n)

accept_all-Lives :
    (n : ℕ) (accepts : List Accept) (l : Listener)
    → Lives n l
    → IsLive accepts
    → Lives (n + connections accepts) (accept_all accepts l)
unfolding accept_all on_accept
accept_all-Lives n [] l (on, many) live = (on, omega (arith, many))
accept_all-Lives n ((is_open, done _) ∷ accepts) l (on, many) (opened, _, live) =
    let l' = on_accept is_open (done tt) l in
    let ih =
      accept_all-Lives (n + 1) accepts l'
        (opened, omega (arith, many, length-append l.sessions (start ∷ []))) live in
    subst (Lives (n + (1 + connections accepts))) (sym (accept_step is_open (done tt) accepts l on))
      (ih.0, omega (arith, ih.1))
accept_all-Lives n ((is_open, failed eof) ∷ accepts) l (on, many) (opened, _, live) =
    subst (Lives (n + connections accepts)) (sym (accept_step is_open (failed eof) accepts l on))
      (accept_all-Lives n accepts (on_accept is_open (failed eof) l) (opened, many) live)
accept_all-Lives n ((is_open, failed operation_aborted) ∷ accepts) l (on, many)
      (opened, goes, live) =
    absurd (ground (arith, goes))
accept_all-Lives n ((is_open, failed other) ∷ accepts) l (on, many) (opened, _, live) =
    subst (Lives (n + connections accepts)) (sym (accept_step is_open (failed other) accepts l on))
      (accept_all-Lives n accepts (on_accept is_open (failed other) l) (opened, many) live)

-- As long as the acceptor is open and no accept is aborted, the server goes on accepting, whatever
-- other errors its accepts come to: from its start, it has started one session for each connection
-- that was made, no more and no fewer. After an accept that is aborted, it accepts no more: whatever
-- comes then starts no session.
pub accept_all-sessions :
    (accepts later : List Accept) (is_open : Bool)
    → IsLive accepts
    → let l = accept_all accepts (record { sessions = []; accepting = true }) in
      let l' = on_accept is_open (failed operation_aborted) l in
      (l.accepting ≡ true)
      × (length l.sessions ≡ connections accepts)
      × (length (accept_all later l').sessions ≡ connections accepts)
unfolding on_accept
accept_all-sessions accepts later is_open live =
    let l₀ : Listener = record { sessions = []; accepting = true } in
    let (on, many) = accept_all-Lives 0 accepts l₀ (refl, refl) live in
    let l = accept_all accepts l₀ in
    (
      on,
      omega (arith, many),
      ap (λ q. length q.sessions) (accept_all-over later (record l { accepting = false }) refl)
          ∙ omega (arith, many),
    )
