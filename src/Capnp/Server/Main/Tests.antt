-- ===== src/Capnp/Server/Main/Tests.antt =====
-- Runs of the Cap'n Proto server's `main`.
use grpccapnp.Base.{◌≡◌, refl, List, [], ◌∷◌, ◌++◌, true, none, some}
use grpccapnp.Capnp.Server.{Accept}
use grpccapnp.Capnp.Server.Main.{
  Setup, of_kj, Report, listening_on, disconnected_with_error, setup_threw, Listening, listening,
  exited, Event, accepts, disconnects, bind_address, same_text, without, disconnected, accepted_one,
  advance, run, set_up, main,
}
use grpccapnp.Capnp.Server.Main.Exits.{main-goes_on}

abbrev all_well : Setup
all_well = record { setup_async_io = none; parse_address = λ address. none; listen = none }

-- The port is taken.
abbrev port_taken : Setup
port_taken = record { setup_async_io = none; parse_address = λ address. none; listen = some of_kj }

-- Two clients come, and the first leaves with an error.
abbrev two_clients : List Event
two_clients = accepts Accept.connection ∷ accepts Accept.connection ∷ disconnects 0 true ∷ []

main-goes_on_example :
    (l : Listening) × (main all_well two_clients ≡ listening l)
    × (l.accepted ≡ 2)
    × ((reports : List Report) × (main all_well (two_clients ++ accepts Accept.kj_exception ∷ [])
          ≡ exited 0 reports))
main-goes_on_example =
    main-goes_on all_well two_clients [] Accept.kj_exception
      (record { io = refl; parses = λ address. refl; listens = refl }) (refl, (refl, tt)) (λ e. cc)

one_is_left :
    main all_well two_clients
    ≡ listening (record {
      accepted = 2;
      attached = 1 ∷ [];
      reports = listening_on (record { host = "*"; port = 50052 }) ∷ disconnected_with_error 0 ∷ [];
    })
unfolding main run advance set_up bind_address same_text disconnected without accepted_one
one_is_left = refl

not_set_up : main port_taken two_clients ≡ exited 1 (setup_threw of_kj ∷ [])
unfolding main run advance set_up bind_address same_text
not_set_up = refl
