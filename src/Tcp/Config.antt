-- ===== src/Tcp/Config.antt =====
-- GO++PROJECT/src/cpp_tcp_benchmark/common/include/config.hpp: the settings of the TCP benchmark.
use grpccapnp.Base.{ℕ, ◌*◌, String, Bool, true}

abbrev pub tcp_server_port : ℕ
tcp_server_port = 12345

abbrev pub default_server_ip : String
default_server_ip = "127.0.0.1"

abbrev pub test_file_name : String
test_file_name = "test_file.dat"

abbrev pub total_file_size : ℕ
total_file_size = 10 * 1024 * 1024 * 1024

abbrev pub chunk_size : ℕ
chunk_size = 64 * 1024

abbrev pub cpp_overall_metrics_file : String
cpp_overall_metrics_file = "results/cpp_overall_metrics.csv"

abbrev pub cpp_chunk_rtt_metrics_file : String
cpp_chunk_rtt_metrics_file = "results/cpp_chunk_rtt_metrics.csv"

abbrev pub enable_client_resource_monitoring : Bool
enable_client_resource_monitoring = true
