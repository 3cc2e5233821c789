-- ===== src/Grpc/Client/Main/Tests.antt =====
-- A whole run of the gRPC client's `main` from its constants on, on a file of three bytes in chunks of two.
use grpccapnp.Base.{◌≡◌, refl, true, false, List, [], ◌∷◌, map, some, length, bytes_eq}
use grpccapnp.Base.Int.{pos}
use grpccapnp.Common.Reversal.{reverse_bytes}
use grpccapnp.Common.Stream.{FileSystem}
use grpccapnp.Common.ChunkReader
use grpccapnp.Common.ChunkReader.{ChunkReader, ok, next_chunk, eof}
use grpccapnp.Common.ChunkReader.WholeFile.{fresh}
use grpccapnp.Common.Metrics.{
  make, record_chunk_sent, record_chunk_rtt_us, set_total_transaction_time_ms,
}
use grpccapnp.Grpc.Server.{respond}
use grpccapnp.Grpc.Client.Inflight.{find, erase, assign}
use grpccapnp.Grpc.Client.{
  Action, writer_moves, reader_moves, server_moves, act, start, writer_step, reader_step,
  server_step, read_step, write_step, close_step, entry, take_response, match_found, verify_step,
  serve, finish_step, leftover_check, status_check, total_check, final_status, is_ok,
}
use grpccapnp.Grpc.Client.Faults.{acts, occur, happen}
use grpccapnp.Grpc.Client.Main.{
  Setting, Report, session, transfer, process_file, process_opened, after_run, finish,
  generate_new_file, new_metrics, world_of,
}
use grpccapnp.Grpc.Client.Main.Quiet.{Verified, session_clean}

abbrev disk_with_three : FileSystem
disk_with_three name = some (record { bytes = 1 ∷ 2 ∷ 3 ∷ []; size = 3; broken = false })

abbrev moves : List Action
moves =
    writer_moves ∷ writer_moves ∷ writer_moves ∷ writer_moves ∷ server_moves ∷ writer_moves
    ∷ writer_moves ∷ writer_moves ∷ writer_moves ∷ server_moves ∷ reader_moves ∷ reader_moves
    ∷ writer_moves ∷ writer_moves ∷ writer_moves ∷ writer_moves ∷ reader_moves ∷ reader_moves
    ∷ reader_moves ∷ reader_moves ∷ server_moves ∷ reader_moves ∷ reader_moves ∷ reader_moves ∷ []

abbrev setting : Setting
setting = record {
  test_filename = "test_file.dat";
  target_file_size_bytes = 3;
  chunk_size = 2;
  existing = some 3;
  opens = true;
  disk = λ k. true;
  rng = λ i. 0;
  probed = disk_with_three;
  opened = disk_with_three;
  stream_created = true;
  world = record {
    byte_size = λ chunk id. length chunk;
    rtt_us = λ id. pos 5;
    duration_ms = pos 1;
    expected = 3;
  };
  events = map acts moves;
}

abbrev reader : ChunkReader
reader = fresh "test_file.dat" 2 (record { bytes = 1 ∷ 2 ∷ 3 ∷ []; size = 3; broken = false })

abbrev report : Report
report = record {
  exit_code = 0;
  metrics =
      (occur (world_of setting) (map acts moves) (start reader (new_metrics setting))).metrics;
  files = "benchmarkgrpc_summary.csv" ∷ "benchmarkgrpc_detailed_rtt.csv" ∷ [];
}

session_clean_example :
    (reader : ChunkReader) × (ChunkReader.make disk_with_three disk_with_three "test_file.dat" 2
      ≡ ok reader)
    × Verified setting reader
unfolding occur happen act writer_step reader_step server_step read_step write_step close_step entry
    take_response match_found verify_step serve finish_step leftover_check status_check total_check
    final_status is_ok next_chunk eof find erase assign respond reverse_bytes bytes_eq
    record_chunk_sent record_chunk_rtt_us set_total_transaction_time_ms session generate_new_file
    transfer process_file process_opened after_run finish ChunkReader.make make
session_clean_example = session_clean setting report refl refl refl
