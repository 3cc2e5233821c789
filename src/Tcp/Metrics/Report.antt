-- ===== src/Tcp/Metrics/Report.antt =====
-- The reports of the TCP benchmark's `MetricsAggregator`: the console summary and the two CSV files, as
-- rows. The printing of a number is the stream's.
pub mod RoundTrips
use grpccapnp.Base.Int.{ℤ}
use grpccapnp.Base.{
  ℕ, ◌+◌, ◌-◌, ◌/◌, String, Bool, true, false, not, ◌&&◌, List, [], ◌∷◌, ◌++◌, map, length, ltb,
  ◌==◌, if◌then◌else◌,
}
use grpccapnp.Common.Double.{Double}
use grpccapnp.Tcp.Metrics.{ChunkRttInfo, MetricsAggregator}

-- A row of the file of chunk times, and of the file of overall metrics.
pub record RttRow : Type 0 where
  pub protocol : String
  pub info : ChunkRttInfo

pub record OverallRow (Carrier : Type 0) : Type 0 where
  pub protocol : String
  pub total_time_s : Carrier
  pub total_bytes : ℕ
  pub throughput_mbps : Carrier
  pub total_chunks : ℕ
  pub verified_chunks : ℕ
  pub avg_cpu_percent : Carrier
  pub peak_memory_kb : ℤ

-- The rows that `save_to_csv` has written, whether it has written both files, and whether it has thrown.
pub record Saved (Carrier : Type 0) : Type 0 where
  pub overall : List (OverallRow Carrier)
  pub chunk_rtts : List RttRow
  pub complete : Bool
  pub thrown : Bool

-- A line of the summary: its label and the numbers in it.
pub data Line (Carrier : Type 0) : Type 0 where
  title : String → Line Carrier
  amount : String → List Carrier → Line Carrier
  counted : String → ℕ → Line Carrier
  measured : String → ℤ → Line Carrier
  notice : String → Line Carrier

pub sum_rtt : ℕ → List ChunkRttInfo → ℕ
sum_rtt sum [] = sum
sum_rtt sum (item ∷ items) = sum_rtt (sum + item.rtt_us) items

pub min_rtt : ℕ → List ChunkRttInfo → ℕ
min_rtt best [] = best
min_rtt best (item ∷ items) = min_rtt (if ltb item.rtt_us best then item.rtt_us else best) items

pub max_rtt : ℕ → List ChunkRttInfo → ℕ
max_rtt best [] = best
max_rtt best (item ∷ items) = max_rtt (if ltb best item.rtt_us then item.rtt_us else best) items

module _ (double : Double) where
  open double use {Carrier, of_int, of_size, div, mul}

  duration_ms : MetricsAggregator double → ℕ
  duration_ms m = (m.end_time - m.start_time) / 1000000

  duration_sec : MetricsAggregator double → Carrier
  unfolding duration_ms
  duration_sec m = div (of_size (duration_ms m)) (of_size 1000)

  throughput : MetricsAggregator double → Carrier
  unfolding duration_sec
  throughput m =
      div (mul (of_size m.total_bytes_processed) (of_size 8))
        (mul (mul (duration_sec m) (of_size 1024)) (of_size 1024))

  -- The timer was started and has been stopped.
  abbrev pub has_summary : MetricsAggregator double → Bool
  has_summary m = not m.timer_running && not (m.start_time == 0)

  timed_lines : MetricsAggregator double → List (Line Carrier)
  unfolding duration_ms duration_sec throughput
  timed_lines m =
      let megabytes = div (of_size m.total_bytes_processed) (mul (of_size 1024) (of_size 1024)) in
      amount "Total time" (duration_sec m ∷ [])
      ∷ counted "Total bytes processed" m.total_bytes_processed
      ∷ amount "MB" (megabytes ∷ [])
      ∷ (if ltb 0 (duration_ms m)
          then amount "Throughput" (throughput m ∷ [])
          else notice "Throughput: N/A (duration is zero)")
      ∷ counted "Total chunks processed" m.processed_chunks_count
      ∷ counted "Chunks verified successfully" m.verified_chunks_count
      ∷ ((if ltb 0 m.processed_chunks_count && ltb m.verified_chunks_count m.processed_chunks_count
            then counted "WARNING" (m.processed_chunks_count - m.verified_chunks_count) ∷ []
            else [])
          ++ amount "Client Avg CPU Usage" (m.avg_cpu_usage_percent ∷ [])
            ∷ measured "Client Peak Memory (RSS)" m.peak_memory_kb
            ∷ amount "MB" (div (of_int m.peak_memory_kb) (of_size 1024) ∷ [])
            ∷ [])

  pub rtt_lines : List ChunkRttInfo → List (Line Carrier)
  unfolding sum_rtt min_rtt max_rtt
  rtt_lines [] = []
  rtt_lines (x ∷ xs) =
      let thousand = of_size 1000 in
      let avg = div (div (of_size (sum_rtt 0 (x ∷ xs))) (of_size (length (x ∷ xs)))) thousand in
      amount "Chunk RTT (ms) - Avg, Min, Max" (
        avg
        ∷ div (of_size (min_rtt x.rtt_us xs)) thousand
        ∷ div (of_size (max_rtt x.rtt_us xs)) thousand
        ∷ [])
      ∷ []

  unfoldable pub print_summary : MetricsAggregator double → List (Line Carrier)
  unfolding timed_lines rtt_lines
  print_summary m =
      title m.protocol_name
      ∷ ((if has_summary m
            then timed_lines m
            else notice "Timer was not run or is still running. No summary available." ∷ [])
          ++ rtt_lines m.chunk_rtt_data
          ++ notice "--- End of Summary ---" ∷ [])

  overall_row : MetricsAggregator double → OverallRow Carrier
  unfolding duration_sec throughput duration_ms
  overall_row m = record {
    protocol = m.protocol_name;
    total_time_s = duration_sec m;
    total_bytes = m.total_bytes_processed;
    throughput_mbps = if ltb 0 (duration_ms m) then throughput m else of_size 0;
    total_chunks = m.processed_chunks_count;
    verified_chunks = m.verified_chunks_count;
    avg_cpu_percent = m.avg_cpu_usage_percent;
    peak_memory_kb = m.peak_memory_kb;
  }

  -- `directory_ready` says that `fs::exists` and, where it is called, `fs::create_directories` do not
  -- throw; `overall_opens` and `rtt_opens` say whether the two files can be opened.
  unfoldable pub save_to_csv : Bool → Bool → Bool → MetricsAggregator double → Saved Carrier
  unfolding overall_row
  save_to_csv directory_ready overall_opens rtt_opens m =
      let overall = if has_summary m then overall_row m ∷ [] else [] in
      let rtts = map (λ i. record { protocol = m.protocol_name; info = i }) m.chunk_rtt_data in
      let unsaved : Saved Carrier = record {
        overall = [];
        chunk_rtts = [];
        complete = false;
        thrown = false;
      } in
      if not directory_ready
      then record unsaved { thrown = true }
      else (if not overall_opens
          then unsaved
          else (if not rtt_opens
              then record unsaved { overall = overall }
              else record unsaved { overall = overall; chunk_rtts = rtts; complete = true }))
