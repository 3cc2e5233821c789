-- ===== src/Capnp/Tests.antt =====
-- Runs of the Cap'n Proto client at concrete inputs.
use grpccapnp.Base.{◌≡◌, refl, false, [], ◌∷◌, none, some, arith, length, bytes_eq, flatten}
use grpccapnp.Base.Int.{pos}
use grpccapnp.Base.Chunks.{chunks_of, pieces}
use grpccapnp.Common.Stream.{File}
use grpccapnp.Common.ChunkReader.{make, next_chunk, eof}
use grpccapnp.Common.Metrics.{
  MetricsAggregator, make as make_metrics, record_chunk_sent, record_chunk_rtt_us,
  set_total_transaction_time_ms,
}
use grpccapnp.Common.Reversal.{reverse_bytes}
use grpccapnp.Capnp.Server.{process_chunk}
use grpccapnp.Capnp.Client.{
  Message, content_mismatch, not_all_verified, replied, Calls, World, Report, session, transfer,
  round,
}
use grpccapnp.Capnp.Client.Guarantees.{
  Sane, success_files, Reported, session-judge, session-honest, session_sound, session-mismatch,
}
use grpccapnp.Capnp.Client.Judgement.{Answered, judge}

abbrev five : File
five = record { bytes = 1 ∷ 2 ∷ 3 ∷ 4 ∷ 5 ∷ []; size = 5; broken = false }

abbrev honest_calls : Calls
honest_calls = record { process_chunk = λ k c. replied (process_chunk c); rtt_us = λ k. pos 10 }

-- A server that returns the chunk as it is.
abbrev echo_calls : Calls
echo_calls = record { process_chunk = λ k c. replied c; rtt_us = λ k. pos 10 }

abbrev world_of : Calls → World
world_of calls = record {
  connect = none;
  probed = λ name. some five;
  opened = λ name. some five;
  calls = calls;
  duration_ms = pos 1;
  done = none;
}

world-Sane : (calls : Calls) → Sane (world_of calls) "test_file.dat" 2 five
world-Sane calls = record {
  connects = refl;
  probes = refl;
  opens = refl;
  sound = record { sized = refl; works = refl };
  chunked = omega arith;
  small = omega arith;
  finishes = refl;
}

abbrev metrics : MetricsAggregator Message
metrics = make_metrics "CapnProto" 5 2

session-judge_example :
    (r : Report) × (session 6 (world_of echo_calls) "test_file.dat" 5 2 metrics ≡ some r)
    × Reported (judge echo_calls 0 0 (chunks_of 2 five.bytes)) metrics.errors 5 r
session-judge_example =
    session-judge 6 (world_of echo_calls) "test_file.dat" 5 2 five metrics (world-Sane echo_calls)
      (omega arith)

session-honest_example :
    (r : Report) × (session 6 (world_of honest_calls) "test_file.dat" 5 2 metrics ≡ some r)
    × (r.exit_code ≡ 0)
    × (r.metrics.errors ≡ metrics.errors)
    × (r.files ≡ success_files)
session-honest_example =
    session-honest 6 (world_of honest_calls) "test_file.dat" 2 five metrics
      (world-Sane honest_calls) (omega arith) (λ k c. refl)

abbrev honest_report : Report
honest_report = record {
  exit_code = 0;
  metrics = record {
    protocol_name = "CapnProto";
    total_payload_to_transfer_bytes = 5;
    actual_payload_transferred_bytes = 5;
    total_on_wire_bytes = 5;
    chunk_size_bytes = 2;
    total_transaction_time_ms = pos 1;
    chunk_rtt_us = pos 10 ∷ pos 10 ∷ pos 10 ∷ [];
    errors = [];
  };
  files = success_files;
}

honest_run : session 6 (world_of honest_calls) "test_file.dat" 5 2 metrics ≡ some honest_report
unfolding session transfer round make next_chunk eof process_chunk make_metrics record_chunk_sent
    record_chunk_rtt_us set_total_transaction_time_ms reverse_bytes bytes_eq
honest_run = refl

session_sound_example : (length five.bytes ≡ 5) × Answered honest_calls 0 (chunks_of 2 five.bytes)
session_sound_example =
    session_sound 6 (world_of honest_calls) "test_file.dat" 5 2 five metrics honest_report
      (world-Sane honest_calls) (omega arith) honest_run refl

session-mismatch_example :
    (r : Report) × (session 6 (world_of echo_calls) "test_file.dat" 5 2 metrics ≡ some r)
    × (r.exit_code ≡ 0)
    × (r.metrics.errors ≡ content_mismatch 1 ∷ not_all_verified 0 5 ∷ [])
unfolding chunks_of pieces make_metrics flatten
session-mismatch_example =
    session-mismatch 6 (world_of echo_calls) "test_file.dat" 5 2 five metrics []
      ((3 ∷ 4 ∷ []) ∷ (5 ∷ []) ∷ []) (1 ∷ 2 ∷ []) (1 ∷ 2 ∷ []) (world-Sane echo_calls) (omega arith)
      refl tt refl (λ e. ground arith)
