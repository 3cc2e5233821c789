-- ===== src/Capnp/Server/Main/Exits.antt =====
-- How long the Cap'n Proto server goes on, and what it returns.
use grpccapnp.Base.{ℕ, ◌+◌, ◌≡◌, ◌≢◌, refl, ap, ◌∙◌, List, [], ◌∷◌, ◌++◌, none, arith}
use grpccapnp.Common.Config.{capnp_server_address, capnp_server_port}
use grpccapnp.Capnp.Server.{Accept}
use grpccapnp.Capnp.Server.Main.{
  Address, bind_address, Setup, Report, listening_on, Listening, Process, listening, exited, Event,
  accepts, disconnects, disconnected, accepted_one, advance, run, set_up, main,
}

-- No call before the loop throws.
pub record SetsUp (calls : Setup) : Type 0 where
  pub io : calls.setup_async_io ≡ none
  pub parses : (address : Address) → calls.parse_address address ≡ none
  pub listens : calls.listen ≡ none

-- Every accept yields a connection, and connections end as they like.
abbrev pub AllConnect : List Event → Type 0
AllConnect [] = Unit {0}
AllConnect (accepts a ∷ events) = (a ≡ Accept.connection) × AllConnect events
AllConnect (disconnects i with_error ∷ events) = AllConnect events

abbrev pub connections : List Event → ℕ
connections [] = 0
connections (accepts a ∷ events) = 1 + connections events
connections (disconnects i with_error ∷ events) = connections events

run-append : (xs ys : List Event) (p : Process) → run (xs ++ ys) p ≡ run ys (run xs p)
unfolding run
run-append [] ys p = refl
run-append (e ∷ xs) ys p = run-append xs ys (advance e p)

run_connecting :
    (events : List Event) (l : Listening)
    → AllConnect events
    → (l' : Listening) × (run events (listening l) ≡ listening l')
      × (l'.accepted ≡ l.accepted + connections events)
unfolding run advance accepted_one disconnected
run_connecting [] l h = (l, refl, omega arith)
run_connecting (accepts a ∷ events) l (e, h) =
    let l₁ = record l { accepted = l.accepted + 1; attached = l.attached ++ l.accepted ∷ [] } in
    let (l₂, later, many) = run_connecting events l₁ h in
    (l₂, ap (λ q. run events (accepted_one q l)) e ∙ later, omega (arith, many))
run_connecting (disconnects i with_error ∷ events) l h =
    let l₁ = disconnected i with_error l in
    let (l₂, later, many) = run_connecting events l₁ h in (l₂, later, many)

run_exited :
    (events : List Event) (code : ℕ) (reports : List Report)
    → run events (exited code reports) ≡ exited code reports
unfolding run advance
run_exited [] code reports = refl
run_exited (e ∷ events) code reports = run_exited events code reports

-- An accept that yields no connection.
leaves :
    (a : Accept) (l : Listening)
    → a ≢ Accept.connection
    → (reports : List Report) × (accepted_one a l ≡ exited 0 reports)
unfolding accepted_one
leaves Accept.connection l ne = absurd (ne refl)
leaves Accept.null_connection l ne = (_, refl)
leaves Accept.kj_exception l ne = (_, refl)
leaves Accept.std_exception l ne = (_, refl)
leaves Accept.unknown_exception l ne = (_, refl)

set_up_done :
    (calls : Setup) (address : Address)
    → SetsUp calls
    → set_up calls address
      ≡ listening (record { accepted = 0; attached = []; reports = listening_on address ∷ [] })
unfolding set_up
set_up_done calls address h = rw (h.io, h.parses address, h.listens) refl

-- Where no call before the loop throws: as long as every accept yields a connection, the server goes on
-- and has accepted them all, whether connections end cleanly, with an error or not at all. At the first
-- accept that yields none it leaves the loop, whatever comes then, and returns 0, also if the accept
-- threw.
pub main-goes_on :
    (calls : Setup) (before after : List Event) (a : Accept)
    → SetsUp calls
    → AllConnect before
    → a ≢ Accept.connection
    → (l : Listening) × (main calls before ≡ listening l)
      × (l.accepted ≡ connections before)
      × ((reports : List Report) × (main calls (before ++ accepts a ∷ after) ≡ exited 0 reports))
unfolding main run advance
main-goes_on calls before after a ready calm ne =
    let address = bind_address capnp_server_address capnp_server_port in
    let begun = set_up_done calls address ready in
    let (l, there, many) =
      run_connecting before
        (record { accepted = 0; attached = []; reports = listening_on address ∷ [] }) calm in
    let here : main calls before ≡ listening l = ap (run before) begun ∙ there in
    let (reports, left) = leaves a l ne in
    (
      l,
      here,
      omega (arith, many),
      (
        reports,
        run-append before (accepts a ∷ after) (set_up calls address)
            ∙ ap (λ p. run (accepts a ∷ after) p) here
            ∙ ap (run after) left
            ∙ run_exited after 0 reports,
      ),
    )
