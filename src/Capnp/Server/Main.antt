-- ===== src/Capnp/Server/Main.antt =====
-- src/capnp_app/capnp_server.cpp: `main`, with the connections that its task set holds. What the KJ
-- library's calls come to, and when a connection ends, are arguments.
pub mod Exits
mod Tests
use Prim.Native.Nat.{Ordering}
use Prim.Native.String.{compare}
use grpccapnp.Base.{
  ℕ, ◌+◌, String, List, [], ◌∷◌, ◌++◌, Bool, true, false, Option, none, some, ◌==◌, if◌then◌else◌,
}
use grpccapnp.Common.Config.{capnp_server_address, capnp_server_port}
use grpccapnp.Capnp.Server.{Accept}

pub record Address : Type 0 where
  pub host : String
  pub port : ℕ

same_text : String → String → Bool
same_text a b = elim (compare a b) [ Ordering.eq ↦ true | _ ↦ false ]

-- `bind_address_str`, as its two sides of the colon.
pub bind_address : String → ℕ → Address
unfolding same_text
bind_address address port =
    if same_text address "0.0.0.0"
    then record { host = "*"; port = port }
    else record { host = address; port = port }

-- What the `catch` clauses tell apart.
pub data Thrown : Type 0 where
  of_kj of_std of_unknown : Thrown

-- What the three calls before the loop throw, if they do.
pub record Setup : Type 0 where
  pub setup_async_io : Option Thrown
  pub parse_address : Address → Option Thrown
  pub listen : Option Thrown

-- What `main` reports.
pub data Report : Type 0 where
  listening_on : Address → Report
  accept_threw : Thrown → Report
  accepted_null : Report
  disconnected_cleanly disconnected_with_error : (connection : ℕ) → Report
  setup_threw : Thrown → Report

-- The connections accepted so far, those of them that are still attached to a task, and the reports.
pub record Listening : Type 0 where
  pub accepted : ℕ
  pub attached : List ℕ
  pub reports : List Report

-- `main` waits in `accept`, or has returned.
pub data Process : Type 0 where
  listening : Listening → Process
  exited : (code : ℕ) → List Report → Process

-- An accept, or the end of a connection, with or without an error.
pub data Event : Type 0 where
  accepts : Accept → Event
  disconnects : (connection : ℕ) (with_error : Bool) → Event

abbrev report : Report → Listening → Listening
report r l = record l { reports = l.reports ++ r ∷ [] }

without : ℕ → List ℕ → List ℕ
without i [] = []
without i (j ∷ js) = if j == i then js else j ∷ without i js

-- The two continuations of `onDisconnect`; what was attached to the promise is released.
disconnected : ℕ → Bool → Listening → Listening
unfolding without
disconnected i with_error l =
    report (if with_error then disconnected_with_error i else disconnected_cleanly i)
      (record l { attached = without i l.attached })

-- The body of `while (true)`: a `break` leads to `return 0`.
accepted_one : Accept → Listening → Process
accepted_one Accept.connection l =
    listening (record l { accepted = l.accepted + 1; attached = l.attached ++ l.accepted ∷ [] })
accepted_one Accept.null_connection l = exited 0 (report accepted_null l).reports
accepted_one Accept.kj_exception l = exited 0 (report (accept_threw of_kj) l).reports
accepted_one Accept.std_exception l = exited 0 (report (accept_threw of_std) l).reports
accepted_one Accept.unknown_exception l = exited 0 (report (accept_threw of_unknown) l).reports

pub advance : Event → Process → Process
unfolding accepted_one disconnected
advance (accepts a) (listening l) = accepted_one a l
advance (disconnects i with_error) (listening l) = listening (disconnected i with_error l)
advance e (exited code reports) = exited code reports

unfoldable pub run : List Event → Process → Process
run [] p = p
run (e ∷ events) p = run events (advance e p)

-- The outer `try` block.
set_up : Setup → Address → Process
set_up calls address = elim calls.setup_async_io [
  | some thrown ↦ exited 1 (setup_threw thrown ∷ [])
  | none ↦ elim (calls.parse_address address) [
    | some thrown ↦ exited 1 (setup_threw thrown ∷ [])
    | none ↦ elim calls.listen [
      | some thrown ↦ exited 1 (setup_threw thrown ∷ [])
      | none ↦
          listening (record { accepted = 0; attached = []; reports = listening_on address ∷ [] })
    ]
  ]
]

unfoldable pub main : Setup → List Event → Process
unfolding set_up bind_address
main calls events = run events (set_up calls (bind_address capnp_server_address capnp_server_port))
