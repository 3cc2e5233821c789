-- ===== src/Capnp/Client.antt =====
-- src/capnp_app/capnp_client.cpp. The server, the clock and the connection are arguments: what each
-- call answers or raises, how long it took, and what the steps before and after the loop raise.
pub mod Judgement
pub mod Verdicts
pub mod Rounds
pub mod Guarantees
use grpccapnp.Base.{
  ℕ, zero, suc, ◌+◌, ◌≡◌, Byte, Bytes, List, [], ◌∷◌, ◌++◌, String, Bool, true, false, not, ◌&&◌,
  Option, none, some, is_empty, length, bytes_eq, ◌==◌, if◌then◌else◌,
}
use grpccapnp.Base.Int.{ℤ}
use grpccapnp.Common.Config.{test_file_name, actual_file_size_bytes, chunk_size_bytes}
use grpccapnp.Common.GenerateFile.{Generated, generate_test_file}
use grpccapnp.Common.Reversal.{reverse_bytes}
use grpccapnp.Common.Stream.{FileSystem}
use grpccapnp.Common.ChunkReader.{ChunkReader, Failure, Result, ok, err, next_chunk, eof}
use grpccapnp.Common.ChunkReader
use grpccapnp.Common.Metrics.{
  MetricsAggregator, make, record_chunk_sent, record_chunk_rtt_us, set_total_transaction_time_ms,
  log_error, u64,
}

-- What the `catch` clauses of `main` tell apart.
pub data Exception : Type 0 where
  kj : String → Exception
  std : Failure → Exception
  unknown : Exception

-- The messages that the client logs, with the numbers of their text.
pub data Message : Type 0 where
  generation_failed empty_chunk_not_eof : Message
  size_mismatch : (chunk expected got : ℕ) → Message
  content_mismatch : (chunk : ℕ) → Message
  not_all_verified : (verified expected : ℕ) → Message
  exception : Exception → Message

pub data Reply : Type 0 where
  replied : Bytes → Reply
  raised : Exception → Reply

-- The k-th call of `processChunk`: its answer, and its duration in microseconds.
pub record Calls : Type 0 where
  pub process_chunk : ℕ → Bytes → Reply
  pub rtt_us : ℕ → ℤ

-- The variables of the loop.
pub record Loop : Type 0 where
  pub reader : ChunkReader
  pub metrics : MetricsAggregator Message
  pub chunks_sent : ℕ
  pub total_bytes_verified_payload : ℕ

-- One round of the loop goes on, breaks, or throws.
pub data Round : Type 0 where
  continue stop : Loop → Round
  throw : Exception → Loop → Round

abbrev log : Message → Loop → Loop
log message s = record s { metrics = log_error message s.metrics }

-- From the answer of the server to the end of the round.
verify : Loop → Bytes → Bytes → Round
verify s chunk_buffer response =
    let expected_reversed_chunk = reverse_bytes chunk_buffer in
    if not (length response == length expected_reversed_chunk)
    then stop (
        log (size_mismatch (s.chunks_sent + 1) (length expected_reversed_chunk) (length response))
          s)
    else (if not (bytes_eq response expected_reversed_chunk)
        then stop (log (content_mismatch (s.chunks_sent + 1)) s)
        else continue (record s {
          chunks_sent = u64 (s.chunks_sent + 1);
          total_bytes_verified_payload = u64 (s.total_bytes_verified_payload + length chunk_buffer);
        }))

answer : Calls → Loop → Bytes → Reply → Round
answer calls s chunk_buffer (replied response) =
    verify (record s { metrics = record_chunk_rtt_us (calls.rtt_us s.chunks_sent) s.metrics })
      chunk_buffer response
answer calls s chunk_buffer (raised e) = throw e s

exchange : Calls → Loop → Bytes → Round
unfolding answer verify
exchange calls s chunk_buffer =
    answer calls
      (record s {
        metrics = record_chunk_sent (length chunk_buffer) (length chunk_buffer) s.metrics;
      })
      chunk_buffer (calls.process_chunk s.chunks_sent chunk_buffer)

-- The body of `while (true)`.
unfoldable pub round : Calls → Loop → Round
unfolding exchange
round calls s =
    let (reader, chunk_buffer) = next_chunk s.reader in
    let s' = record s { reader = reader } in
    if is_empty chunk_buffer && eof reader
    then stop s'
    else (if is_empty chunk_buffer && not (eof reader)
        then stop (log empty_chunk_not_eof s')
        else exchange calls s' chunk_buffer)

-- `while (true)`; `none` means that the fuel ran out.
unfoldable pub transfer : ℕ → Calls → Loop → Option Round
transfer zero calls s = none
transfer (suc fuel) calls s = elim (round calls s) [
  | continue s' ↦ transfer fuel calls s'
  | stop s' ↦ some (stop s')
  | throw e s' ↦ some (throw e s')
]

-- How `main` ends: its exit status, and the metrics and the names that it hands to `save_summary_csv` and
-- `save_detailed_rtt_csv` (none where it returns before that). The second of these writes no file where
-- no round trip was recorded.
pub record Report : Type 0 where
  pub exit_code : ℕ
  pub metrics : MetricsAggregator Message
  pub files : List String

abbrev failed : Exception → MetricsAggregator Message → Report
failed (kj what) m = record {
  exit_code = 1;
  metrics = log_error (exception (kj what)) m;
  files = "capnp_summary_results_kj_error.csv" ∷ "capnp_detailed_rtt_kj_error.csv" ∷ [];
}
failed (std what) m = record {
  exit_code = 1;
  metrics = log_error (exception (std what)) m;
  files = "capnp_summary_results_std_error.csv" ∷ "capnp_detailed_rtt_std_error.csv" ∷ [];
}
failed unknown m = record {
  exit_code = 1;
  metrics = log_error (exception unknown) m;
  files = "capnp_summary_results_unknown_error.csv" ∷ "capnp_detailed_rtt_unknown_error.csv" ∷ [];
}

-- The world of a run: what the steps before the loop raise (connecting, the bootstrap interface,
-- `startStreaming`), the file system at the two opens of the reader, the calls, the time of the
-- loop in milliseconds, and what `doneStreaming` raises.
pub record World : Type 0 where
  pub connect : Option Exception
  pub probed : FileSystem
  pub opened : FileSystem
  pub calls : Calls
  pub duration_ms : ℤ
  pub done : Option Exception

-- From the end of the loop to the end of `main`.
finish_verified : ℕ → Loop → Report
finish_verified target s =
    let m =
      if not (s.total_bytes_verified_payload == target)
      then log_error (not_all_verified s.total_bytes_verified_payload target) s.metrics
      else s.metrics in
    record {
      exit_code = 0;
      metrics = m;
      files = "capnp_summary_results.csv" ∷ "capnp_detailed_rtt_results.csv" ∷ [];
    }

finish : World → ℕ → Loop → Report
unfolding finish_verified
finish world target s =
    let s' = record s { metrics = set_total_transaction_time_ms world.duration_ms s.metrics } in
    elim world.done [ none ↦ finish_verified target s' | some e ↦ failed e s'.metrics ]

finish_round : World → ℕ → Round → Report
unfolding finish
finish_round world target (continue s) = finish world target s
finish_round world target (stop s) = finish world target s
finish_round world target (throw e s) = failed e s.metrics

abbrev start : MetricsAggregator Message → ChunkReader → Loop
start m reader = record {
  reader = reader;
  metrics = m;
  chunks_sent = 0;
  total_bytes_verified_payload = 0;
}

run_reader : ℕ → World → ℕ → MetricsAggregator Message → Result ChunkReader → Option Report
unfolding finish_round
run_reader fuel world target m (err failure) = some (failed (std failure) m)
run_reader fuel world target m (ok reader) = elim (transfer fuel world.calls (start m reader)) [
  | none ↦ none
  | some r ↦ some (finish_round world target r)
]

-- `main` from the `try` block on, for a file name, a file size and a chunk size.
unfoldable pub session : ℕ → World → String → ℕ → ℕ → MetricsAggregator Message → Option Report
unfolding run_reader
session fuel world name target chunk_size m =
    let reader = ChunkReader.make world.probed world.opened name chunk_size in
    elim world.connect [ some e ↦ some (failed e m) | none ↦ run_reader fuel world target m reader ]

-- Whether the test file has to be generated: it is missing, or its size is another.
unfoldable pub regenerate_new_file : Option ℕ → ℕ → Bool
regenerate_new_file none target = true
regenerate_new_file (some existing_file_size) target = not (existing_file_size == target)

-- `main`. `existing` is the size of the test file, if there is one; `opens`, `disk` and `rng` are
-- the world of `generate_test_file`, and `world` is that of the run behind it.
unfoldable pub main : ℕ → World → Option ℕ → Bool → (ℕ → Bool) → (ℕ → Byte) → Option Report
main fuel world existing opens disk rng =
    let metrics = make "CapnProto" actual_file_size_bytes chunk_size_bytes in
    let run = session fuel world test_file_name actual_file_size_bytes chunk_size_bytes metrics in
    if regenerate_new_file existing actual_file_size_bytes
    then (elim (generate_test_file opens disk rng actual_file_size_bytes) [
      | none ↦ none
      | some g ↦
          if g.result
          then run
          else some
              (record { exit_code = 1; metrics = log_error generation_failed metrics; files = [] })
    ])
    else run
