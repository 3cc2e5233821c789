-- ===== src/Grpc/Client/Tests.antt =====
-- A whole run of `ProcessFile` on a file of three bytes in chunks of two.
use grpccapnp.Base.{◌++◌, ◌+◌, ◌≡◌, ◌≤◌, refl, false, List, [], ◌∷◌, arith, length, bytes_eq}
use grpccapnp.Base.Int.{pos}
use grpccapnp.Common.Reversal.{reverse_bytes}
use grpccapnp.Common.Stream.{File, IsSound}
use grpccapnp.Common.ChunkReader.{next_chunk, eof}
use grpccapnp.Common.ChunkReader.WholeFile.{fresh}
use grpccapnp.Common.Metrics.{
  MetricsAggregator, record_chunk_sent, record_chunk_rtt_us, set_total_transaction_time_ms,
}
use grpccapnp.Grpc.Server.{respond}
use grpccapnp.Grpc.Client.Inflight.{find, erase, assign, payload}
use grpccapnp.Grpc.Client.Mismatches.{mismatches}
use grpccapnp.Grpc.Client.{
  Message, returned, World, Action, writer_moves, reader_moves, server_moves, run, act, start,
  writer_step, reader_step, server_step, read_step, write_step, close_step, entry, take_response,
  match_found, verify_step, serve, finish_step, leftover_check, status_check, total_check,
  final_status, is_ok,
}
use grpccapnp.Grpc.Client.Agreement.Honesty.{never_mismatched}
use grpccapnp.Base.Chunks.{chunks_of, pieces}
use grpccapnp.Grpc.Client.Lockstep.{rounds}
use grpccapnp.Grpc.Client.Lockstep.Completion.{rounds_complete}
use grpccapnp.Grpc.Client.Balance.{total, held_by_reader, Balance}
use grpccapnp.Grpc.Client.Clean.Verified.{returned_clean}
use grpccapnp.Grpc.Client.Balance.Conservation.{bytes_conserved}
use grpccapnp.Grpc.Client.Balance.Completion.{file_accounted}

abbrev pub world : World
world = record {
  byte_size = λ chunk id. length chunk;
  rtt_us = λ id. pos 5;
  duration_ms = pos 1;
  expected = 3;
}

abbrev pub metrics : MetricsAggregator Message
metrics = record {
  protocol_name = "gRPC";
  total_payload_to_transfer_bytes = 3;
  actual_payload_transferred_bytes = 0;
  total_on_wire_bytes = 0;
  chunk_size_bytes = 2;
  total_transaction_time_ms = pos 0;
  chunk_rtt_us = [];
  errors = [];
}

abbrev pub three : File
three = record { bytes = 1 ∷ 2 ∷ 3 ∷ []; size = 3; broken = false }

abbrev pub three-IsSound : IsSound three
three-IsSound = record { sized = refl; works = refl }

-- The writer sends the two chunks and ends; the server answers both; the reader verifies the first.
abbrev pub schedule : List Action
schedule =
    writer_moves ∷ writer_moves ∷ writer_moves ∷ writer_moves ∷ server_moves ∷ writer_moves
    ∷ writer_moves ∷ writer_moves ∷ writer_moves ∷ server_moves ∷ reader_moves ∷ reader_moves
    ∷ writer_moves ∷ writer_moves ∷ writer_moves ∷ writer_moves ∷ reader_moves ∷ []

never_mismatched_example :
    mismatches (run world schedule (start (fresh "test_file.dat" 2 three) metrics)).metrics.errors
    ≡ 0
never_mismatched_example =
    never_mismatched world schedule (fresh "test_file.dat" 2 three) metrics (omega arith)

bytes_conserved_example :
    let r = fresh "test_file.dat" 2 three in
    let s = run world schedule (start r metrics) in
    Balance r s s.writer s.reader × (total r s.client_chunk_id_counter ≤ 3)
bytes_conserved_example =
    bytes_conserved world schedule "test_file.dat" 2 three metrics three-IsSound (omega arith)
      (omega arith) (omega arith)

file_accounted_example :
    let s = run world schedule (start (fresh "test_file.dat" 2 three) metrics) in
    s.total_bytes_verified_payload_by_reader
      + payload s.inflight_requests_map
      + held_by_reader s.reader
    ≡ 3
unfolding run act writer_step reader_step server_step read_step write_step close_step entry
    take_response match_found verify_step serve next_chunk eof find erase assign respond
    reverse_bytes bytes_eq
file_accounted_example =
    file_accounted world schedule "test_file.dat" 2 three metrics three-IsSound (omega arith)
      (omega arith) (omega arith) refl refl

half_verified :
    let s = run world schedule (start (fresh "test_file.dat" 2 three) metrics) in
    (s.total_bytes_verified_payload_by_reader ≡ 2) × (payload s.inflight_requests_map ≡ 1)
unfolding run act writer_step reader_step server_step read_step write_step close_step entry
    take_response match_found verify_step serve next_chunk eof find erase assign respond
    reverse_bytes record_chunk_sent record_chunk_rtt_us bytes_eq
half_verified = (refl, refl)

-- The rest of the run: the reader verifies both chunks, and the server and `ProcessFile` return.
abbrev pub to_the_end : List Action
to_the_end =
    schedule
    ++ reader_moves ∷ reader_moves ∷ reader_moves ∷ server_moves ∷ reader_moves ∷ reader_moves
      ∷ reader_moves ∷ []

returned_clean_example :
    let s = run world to_the_end (start (fresh "test_file.dat" 2 three) metrics) in
    (s.inflight_requests_map ≡ []) × (s.total_bytes_verified_payload_by_reader ≡ 3)
unfolding run act writer_step reader_step server_step read_step write_step close_step entry
    take_response match_found verify_step serve finish_step leftover_check status_check total_check
    final_status is_ok next_chunk eof find erase assign respond reverse_bytes bytes_eq
    record_chunk_sent record_chunk_rtt_us set_total_transaction_time_ms
returned_clean_example =
    returned_clean world to_the_end (fresh "test_file.dat" 2 three) metrics refl refl

rounds_complete_example :
    let s = run world (rounds 3) (start (fresh "test_file.dat" 2 three) metrics) in
    (s.reader ≡ returned)
    × (s.inflight_requests_map ≡ [])
    × (s.total_bytes_verified_payload_by_reader ≡ 3)
    × (s.metrics.errors ≡ [])
unfolding chunks_of pieces
rounds_complete_example =
    rounds_complete world "test_file.dat" 2 three metrics three-IsSound (omega arith) refl
      (omega arith)
