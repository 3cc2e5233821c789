-- ===== src/Tcp/Client/Tests.antt =====
-- Runs of the TCP client at a file of three bytes in chunks of two.
use grpccapnp.Base.{
  length, ◌<◌, ◌≡◌, ◌⊎◌, refl, true, false, List, [], ◌∷◌, none, some, arith, bytes_eq, All,
}
use grpccapnp.Base.Chunks.{chunks_of, pieces}
use grpccapnp.Common.Formulas.{formulas}
use grpccapnp.Common.Stream.{File, IsSound}
use grpccapnp.Tcp.Messaging.{encode_length, parse_header}
use grpccapnp.Tcp.Reversal.{get_reversed_vector_content}
use grpccapnp.Tcp.ChunkReader.{make_opened, read_next_chunk, eof}
use grpccapnp.Tcp.Metrics
use grpccapnp.Tcp.Metrics.{Moment, MetricsAggregator}
use grpccapnp.Tcp.Server.{done, failed, other, start, resize}
use grpccapnp.Tcp.Client.{
  unwound, Clock, make, stop_client_operations, send_chunk, send_next_chunk,
  handle_received_chunk_data, on_resolved, on_connected, on_written, on_header, on_body,
}
use grpccapnp.Tcp.Client.Outcomes.{
  Completion, resolved, connected, written, header_read, body_read, complete, complete_all, answers,
  finished_sound,
}
use grpccapnp.Tcp.Client.Opening.{fresh}
use grpccapnp.Tcp.Metrics.Records.{IsNumbered, recorded_bytes}
use grpccapnp.Tcp.Metrics.Report.{save_to_csv}
use grpccapnp.Tcp.Client.Rows.{infos, saved_rows}
use grpccapnp.Tcp.Config.{total_file_size}
use grpccapnp.Tcp.Client.Stopped.{is_pending, IsUnstopped, IsStopped}
use grpccapnp.Tcp.Client.Stopped.Once.{stops_once}
use grpccapnp.Tcp.Client.BrokenFile.{failed_read_finished}
use grpccapnp.Tcp.Client.Exchange.{exchange, world}
use grpccapnp.Tcp.Client.EndToEnd.{Succeeds, exchange-Succeeds}
use grpccapnp.Tcp.Client.Main.{Setting, Ended, Accounted, main}
use grpccapnp.Tcp.Client.Main.Exit.{main_exit}

abbrev three : File
three = record { bytes = 1 ∷ 2 ∷ 3 ∷ []; size = 3; broken = false }

abbrev three-IsSound : IsSound three
three-IsSound = record { sized = refl; works = refl }

abbrev moment : Moment
moment = record { now = 5; stat_file = none; status_file = none; clk_tck = 100 }

abbrev clock : Clock
clock = record { at_connect = moment; at_record = moment; at_start = moment; at_stop = moment }

abbrev events : List (Clock × Completion)
events =
    (clock, resolved (done tt))
    ∷ (clock, connected (done true))
    ∷ (clock, written (done tt))
    ∷ (clock, header_read (done (encode_length 2)))
    ∷ (clock, body_read (done (2 ∷ 1 ∷ [])))
    ∷ (clock, written (done tt))
    ∷ (clock, header_read (done (encode_length 1)))
    ∷ (clock, body_read (done (3 ∷ [])))
    ∷ []

finished_sound_example :
    (answers formulas events (fresh formulas three 2 "CPP_TCP") ≡ (2 ∷ 1 ∷ []) ∷ (3 ∷ []) ∷ [])
    × ((complete_all formulas events
          (fresh formulas three 2 "CPP_TCP")).metrics.processed_chunks_count
        ≡ 2)
    × ((complete_all formulas events
          (fresh formulas three 2 "CPP_TCP")).metrics.verified_chunks_count
        ≡ 2)
    × ((complete_all formulas events
          (fresh formulas three 2 "CPP_TCP")).metrics.total_bytes_processed
        ≡ 3)
unfolding complete_all complete make make_opened on_resolved on_connected on_written on_header
    on_body send_next_chunk send_chunk read_next_chunk eof stop_client_operations
    handle_received_chunk_data get_reversed_vector_content bytes_eq chunks_of pieces parse_header
    encode_length resize
finished_sound_example =
    finished_sound formulas three 2 "CPP_TCP" events three-IsSound (omega arith) (omega arith) refl

exchange-Succeeds_example :
    Succeeds formulas three 2
      (exchange formulas clock 14
        (world formulas (fresh formulas three 2 "CPP_TCP") start [] [])).client
unfolding chunks_of pieces
exchange-Succeeds_example =
    exchange-Succeeds formulas clock three 2 14 "CPP_TCP" three-IsSound (omega arith) (omega arith)
      (omega arith) (omega arith)

-- The device fails behind the first byte.
abbrev broken : File
broken = record { bytes = 1 ∷ []; size = 3; broken = true }

failed_read_finished_example :
    let c' = send_next_chunk formulas clock (fresh formulas broken 2 "CPP_TCP") in
    (c'.finished ≡ some false)
    × (c'.chunks_sent ≡ 0)
    × (c'.metrics.chunk_rtt_data ≡ [])
    × (c'.chunks_sent < c'.total_chunks_to_send)
unfolding make make_opened Metrics.make
failed_read_finished_example =
    failed_read_finished formulas clock (fresh formulas broken 2 "CPP_TCP") refl (omega arith) refl
      refl refl refl (omega arith)

-- A file of the size expected, of which nothing else is said, and no connection.
abbrev expected_file : File
expected_file = record { bytes = []; size = total_file_size; broken = true }

abbrev setting : Setting
setting = record {
  found = some expected_file;
  opens = true;
  disk = λ k. false;
  rng = λ i. 0;
  lost = 0;
  measured = true;
  readable = true;
  completions = (clock, resolved (failed other)) ∷ [];
  directory_ready = true;
  overall_opens = true;
  rtt_opens = true;
}

main_exit_example :
    (e : Ended formulas) × (main formulas setting ≡ some e) × Accounted formulas setting e
main_exit_example = main_exit formulas setting

-- Two chunks, and completions that come too late.
stops_once_example :
    let c =
      complete_all formulas events
        (make formulas (make_opened three 2) (Metrics.make formulas "CPP_TCP" 3 2)) in
    (IsUnstopped formulas c × (is_pending c.waiting ≡ true))
    ⊎ (IsUnstopped formulas c × (c.waiting ≡ unwound) × (complete_all formulas events c ≡ c))
    ⊎ (IsStopped formulas c × (complete_all formulas events c ≡ c))
stops_once_example =
    stops_once formulas (make_opened three 2) (Metrics.make formulas "CPP_TCP" 3 2) events events

saved_rows_example :
    let m = (complete_all formulas events (fresh formulas three 2 "CPP_TCP")).metrics in
    let rows = (save_to_csv formulas true true true m).chunk_rtts in
    (length (infos rows) ≡ 2)
    × IsNumbered 0 (infos rows)
    × All (λ i. i.verified ≡ true) (infos rows)
    × (recorded_bytes (infos rows) ≡ 3)
unfolding complete_all complete make make_opened on_resolved on_connected on_written on_header
    on_body send_next_chunk send_chunk read_next_chunk eof stop_client_operations
    handle_received_chunk_data get_reversed_vector_content bytes_eq chunks_of pieces parse_header
    encode_length resize
saved_rows_example =
    saved_rows formulas three 2 "CPP_TCP" events three-IsSound (omega arith) (omega arith) refl
