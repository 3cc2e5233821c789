-- ===== src/Common/Config.antt =====
-- src/common/include/config.hpp: the settings of the benchmark.
use grpccapnp.Base.{ℕ, ◌*◌, String}

abbrev pub test_file_name : String
test_file_name = "test_file.dat"

abbrev pub test_file_size_gb : ℕ
test_file_size_gb = 10

abbrev pub actual_file_size_bytes : ℕ
actual_file_size_bytes = test_file_size_gb * 1024 * 1024 * 1024

abbrev pub chunk_size_bytes : ℕ
chunk_size_bytes = 64 * 1024

abbrev pub csv_output_file_prefix : String
csv_output_file_prefix = "benchmark"

abbrev pub grpc_server_address : String
grpc_server_address = "127.0.0.1"

abbrev pub grpc_server_port : ℕ
grpc_server_port = 50051

abbrev pub capnp_server_address : String
capnp_server_address = "0.0.0.0"

abbrev pub capnp_server_port : ℕ
capnp_server_port = 50052

abbrev pub capnp_client_connect_to : String
capnp_client_connect_to = "127.0.0.1"

pub data Protocol : Type 0 where
  grpc capnp : Protocol

pub protocol_to_string : Protocol → String
protocol_to_string grpc = "gRPC"
protocol_to_string capnp = "Cap'nProto"
