-- ===== src/Common/Tests.antt =====
-- Runs of src/common at concrete inputs.
use grpccapnp.Base.{
  ◌+◌, ◌≡◌, refl, String, true, false, List, [], ◌∷◌, some, arith, length, flatten, get_elem?, ◌%◌,
  ◌↔◌,
}
use grpccapnp.Base.Int.{pos, negsuc}
use grpccapnp.Base.Chunks.{IsCut, IsCeiling}
use grpccapnp.Common.Stream.{FileSystem, File, IsSound}
use grpccapnp.Common.Formulas.{size, int, times, over, formulas}
use grpccapnp.Common.GenerateFile.{
  Generated, Outcome, generate_test_file, generate_test_file-Outcome,
}
use grpccapnp.Common.ChunkReader.{ChunkReader, ok, make, next_chunk, eof, reset, remaining_bytes}
use grpccapnp.Common.ChunkReader.Reading.{Delivered}
use grpccapnp.Common.ChunkReader.WholeFile.{
  fresh, fresh-Delivered, read_all, eof-remaining, next_chunk-empty,
}
use grpccapnp.Common.ChunkReader.Guarantees.{read_file, reset-restarts}
use grpccapnp.Common.Metrics.{MetricsAggregator, make as make_metrics}
use grpccapnp.Common.Metrics.Statistics.{
  min_element, overhead_bytes, get_protocol_overhead_percentage, get_min_chunk_rtt_ms,
}
use grpccapnp.Common.Metrics.Report.{save_detailed_rtt_csv}
use grpccapnp.Common.Metrics.Totals.{Update, sent, rtt, error, run, run-totals, save_detailed-rows}
use grpccapnp.Common.Metrics.Extremes.{round_trip_bounds}

abbrev seven : File
seven = record { bytes = 1 ∷ 2 ∷ 3 ∷ 4 ∷ 5 ∷ 6 ∷ 7 ∷ []; size = 7; broken = false }

abbrev seven-IsSound : IsSound seven
seven-IsSound = record { sized = refl; works = refl }

abbrev disk_with_seven : FileSystem
disk_with_seven name = some seven

read_all-seven :
    (read_all 8 (fresh "test_file.dat" 3 seven)).1
    ≡ (1 ∷ 2 ∷ 3 ∷ []) ∷ (4 ∷ 5 ∷ 6 ∷ []) ∷ (7 ∷ []) ∷ []
unfolding read_all next_chunk
read_all-seven = refl

-- `read_file` at a file of seven bytes in chunks of three.
read_file_example :
    (r : ChunkReader) × (make disk_with_seven disk_with_seven "test_file.dat" 3 ≡ ok r)
    × (let (last, chunks) = read_all 8 r in
        (flatten chunks ≡ seven.bytes)
        × IsCut 3 chunks
        × IsCeiling 3 7 (length chunks)
        × (eof last ≡ true)
        × (remaining_bytes last ≡ 0))
read_file_example =
    read_file disk_with_seven "test_file.dat" 3 seven refl seven-IsSound (omega arith)

abbrev opened_seven : ChunkReader
opened_seven = fresh "test_file.dat" 3 seven

reset-restarts_example :
    (r : ChunkReader) × (reset disk_with_seven opened_seven ≡ ok r)
    × Delivered [] r
    × (r.file_stream.rest ≡ seven.bytes)
    × (r.chunk_size ≡ 3)
reset-restarts_example =
    reset-restarts disk_with_seven [] opened_seven
      (fresh-Delivered "test_file.dat" 3 seven seven-IsSound (omega arith))

remaining_at_the_start :
    (0 + remaining_bytes opened_seven ≡ 7)
    × (remaining_bytes opened_seven ≡ 7)
    × ((eof opened_seven ≡ true) ↔ (seven.bytes ≡ []))
remaining_at_the_start =
    eof-remaining [] opened_seven
      (fresh-Delivered "test_file.dat" 3 seven seven-IsSound (omega arith))

-- A device that fails at once: the chunk is empty, and the reader reports the end of the file.
abbrev failing : ChunkReader
failing = fresh "test_file.dat" 3 (record { bytes = []; size = 7; broken = true })

next_chunk-empty_example : eof (next_chunk failing).0 ≡ true
unfolding next_chunk
next_chunk-empty_example = next_chunk-empty failing refl refl

generate_test_file-Outcome_example :
    (g : Generated) × (generate_test_file true (λ k. true) (λ i. i % 256) 5 ≡ some g)
    × Outcome (λ k. true) 5 g
generate_test_file-Outcome_example = generate_test_file-Outcome true (λ k. true) (λ i. i % 256) 5

abbrev updates : List (Update String)
updates = sent 3 5 ∷ rtt (pos 40) ∷ sent 4 6 ∷ error "lost" ∷ rtt (negsuc 0) ∷ []

run-totals_example : (run updates (make_metrics "gRPC" 7 4)).errors ≡ "lost" ∷ []
run-totals_example = (run-totals "gRPC" 7 4 updates (omega arith) (omega arith)).4

rows_of_three :
    get_elem? (save_detailed_rtt_csv true (run updates (make_metrics "gRPC" 7 4))).rows 1
    ≡ some (2, negsuc 0)
unfolding run make_metrics
rows_of_three = (save_detailed-rows (run updates (make_metrics "gRPC" 7 4)) 1).0

abbrev measured : MetricsAggregator String
measured = record {
  protocol_name = "gRPC";
  total_payload_to_transfer_bytes = 7;
  actual_payload_transferred_bytes = 7;
  total_on_wire_bytes = 11;
  chunk_size_bytes = 4;
  total_transaction_time_ms = pos 2;
  chunk_rtt_us = pos 40 ∷ pos 30 ∷ pos 50 ∷ [];
  errors = [];
}

round_trip_bounds_example : get_min_chunk_rtt_ms formulas measured ≡ over (int (pos 30)) (size 1000)
unfolding min_element
round_trip_bounds_example =
    (round_trip_bounds formulas measured (pos 40) (pos 30 ∷ pos 50 ∷ []) refl).0

overhead_of_four_bytes :
    get_protocol_overhead_percentage formulas measured ≡ times (over (size 4) (size 7)) (size 100)
unfolding get_protocol_overhead_percentage overhead_bytes
overhead_of_four_bytes = refl
