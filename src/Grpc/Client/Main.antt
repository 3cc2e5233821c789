-- ===== src/Grpc/Client/Main.antt =====
-- src/grpc_app/grpc_client.cpp: `main`, with the beginning of `ProcessFile`, before its threads start.
-- The file system, the creation of the stream, the schedule of the threads with its exceptions, and
-- the generation of the test file are arguments. The channel's options are the library's.
pub mod Quiet
mod Tests
use grpccapnp.Base.{
  ℕ, ◌≡◌, ◌≢◌, refl, sym, ap, ◌∙◌, subst, String, Bool, true, false, not, List, [], ◌∷◌, ◌++◌,
  Option, none, some, Byte, Bytes, arith, ◌==◌, if◌then◌else◌, eq_of_some, Bool-cases, inl, inr,
  length,
}
use grpccapnp.Common.Config.{test_file_name, actual_file_size_bytes, chunk_size_bytes}
use grpccapnp.Common.Stream.{FileSystem}
use grpccapnp.Common.GenerateFile.{Generated, generate_test_file}
use grpccapnp.Common.ChunkReader
use grpccapnp.Common.ChunkReader.{ChunkReader, Failure, Result, ok, err}
use grpccapnp.Common.Metrics.{MetricsAggregator, make, log_error}
use grpccapnp.Grpc.Client.{
  Message, stream_not_created, exception, World, Reader, receiving, matching, verifying, joining,
  finishing, returned, start,
}
use grpccapnp.Grpc.Client.Faults.{Event, occur}
use grpccapnp.Grpc.Client.Faults.Clean.{returned_quietly}

pub record Setting : Type 0 where
  pub test_filename : String
  pub target_file_size_bytes : ℕ
  pub chunk_size : ℕ
  -- the size of the test file, if there is one
  pub existing : Option ℕ
  pub opens : Bool
  pub disk : ℕ → Bool
  pub rng : ℕ → Byte
  pub probed : FileSystem
  pub opened : FileSystem
  pub stream_created : Bool
  pub world : World
  pub events : List Event

pub record Report : Type 0 where
  pub exit_code : ℕ
  pub metrics : MetricsAggregator Message
  pub files : List String

-- The world of the threads, with the expected size of the file.
abbrev pub world_of : Setting → World
world_of w = record w.world { expected = w.target_file_size_bytes }

-- `ProcessFile` returns, or an exception leaves it.
pub data Processed : Type 0 where
  completed : MetricsAggregator Message → Processed
  threw : Failure → MetricsAggregator Message → Processed

abbrev pub new_metrics : Setting → MetricsAggregator Message
new_metrics w = make "gRPC" w.target_file_size_bytes w.chunk_size

-- At the end of the schedule; `none` means that `ProcessFile` has not returned.
after_run : Reader → MetricsAggregator Message → Option Processed
after_run returned m = some (completed m)
after_run _ m = none

process_opened : Setting → MetricsAggregator Message → Result ChunkReader → Option Processed
unfolding after_run
process_opened w m (err failure) = some (threw failure m)
process_opened w m (ok reader) =
    if not w.stream_created
    then some (completed (log_error stream_not_created m))
    else (let s = occur (world_of w) w.events (start reader m) in after_run s.reader s.metrics)

process_file : Setting → MetricsAggregator Message → Option Processed
unfolding process_opened
process_file w m =
    process_opened w m (ChunkReader.make w.probed w.opened w.test_filename w.chunk_size)

-- The `catch` clauses, and the reports behind them. The names of the files are the prefix of
-- Common/Config and what `main` appends to it.
finish : Option Processed → Option Report
finish none = none
finish (some (completed m)) = some (record {
  exit_code = 0;
  metrics = m;
  files = "benchmarkgrpc_summary.csv" ∷ "benchmarkgrpc_detailed_rtt.csv" ∷ [];
})
finish (some (threw failure m)) = some (record {
  exit_code = 0;
  metrics = log_error (exception failure) m;
  files = "benchmarkgrpc_summary.csv" ∷ "benchmarkgrpc_detailed_rtt.csv" ∷ [];
})

generate_new_file : Option ℕ → ℕ → Bool
generate_new_file none target = true
generate_new_file (some existing_file_size) target = not (existing_file_size == target)

transfer : Setting → Option Report
unfolding process_file finish
transfer w = finish (process_file w (new_metrics w))

after_generation : Setting → Option Generated → Option Report
unfolding transfer
after_generation w none = none
after_generation w (some g) =
    if g.result
    then transfer w
    else some (record { exit_code = 1; metrics = new_metrics w; files = [] })

-- `main`, for a file name, a file size and a chunk size.
unfoldable pub session : Setting → Option Report
unfolding generate_new_file after_generation
session w =
    if generate_new_file w.existing w.target_file_size_bytes
    then after_generation w (generate_test_file w.opens w.disk w.rng w.target_file_size_bytes)
    else transfer w

-- `main`: its constants are those of Common/Config.
unfoldable pub main : Setting → Option Report
unfolding session
main w = session (record w {
  test_filename = test_file_name;
  target_file_size_bytes = actual_file_size_bytes;
  chunk_size = chunk_size_bytes;
})
