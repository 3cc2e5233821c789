-- ===== src/Grpc/Server/Main.antt =====
-- src/grpc_app/grpc_server.cpp: `RunServer` and `main`. Whether the library can build and start a server
-- with these options is an argument; `Wait` returns once the server is shut down.
mod Tests
use grpccapnp.Base.{ℕ, String, List, [], ◌∷◌, ◌++◌, Bool, true, false, if◌then◌else◌}
use grpccapnp.Base.Int.{ℤ, negsuc}
use grpccapnp.Common.Config.{grpc_server_address, grpc_server_port}

-- What `RunServer` sets on the `ServerBuilder`; `server_address` is its two sides of the colon. The
-- service is the one of Grpc/Server.
pub record ServerBuilder : Type 0 where
  pub default_health_check : Bool
  pub max_receive_message_size : ℤ
  pub max_send_message_size : ℤ
  pub host : String
  pub port : ℕ
  pub services : ℕ

-- A size of -1 sets no limit.
abbrev pub builder : ServerBuilder
builder = record {
  default_health_check = true;
  max_receive_message_size = negsuc 0;
  max_send_message_size = negsuc 0;
  host = grpc_server_address;
  port = grpc_server_port;
  services = 1;
}

pub data Report : Type 0 where
  process_starting failed_to_start listening process_shut_down : Report

run_server : (ServerBuilder → Bool) → List Report
run_server build_and_start =
    if build_and_start builder then listening ∷ [] else failed_to_start ∷ []

-- The reports and the exit status.
pub main : (ServerBuilder → Bool) → List Report × ℕ
unfolding run_server
main build_and_start =
    (process_starting ∷ (run_server build_and_start ++ process_shut_down ∷ []), 0)
