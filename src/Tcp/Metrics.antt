-- ===== src/Tcp/Metrics.antt =====
-- GO++PROJECT/src/cpp_tcp_benchmark/common/include/metrics_aggregator.hpp and
-- common/src/metrics_aggregator.cpp, as compiled for Linux: the state of `class MetricsAggregator` and
-- the operations that change it. The clock, the texts of /proc and `sysconf` are arguments: a time is a number of
-- nanoseconds of the steady clock, which does not run backwards, and 0 is `time_point()`. A `size_t`
-- and an `unsigned long long` wrap at 2 ^ 64.
pub mod Report
pub mod ProcFiles
pub mod Records
use grpccapnp.Base.{
  ℕ, ◌+◌, ◌-◌, ◌*◌, ◌/◌, ◌%◌, ◌^◌, String, List, [], ◌∷◌, ◌++◌, Bool, true, false, not, ◌&&◌, ◌||◌,
  ltb, if◌then◌else◌, Bytes, Option,
}
use grpccapnp.Base.Int.{ℤ, pos}
use grpccapnp.Common.Double.{Double}
use grpccapnp.Tcp.Metrics.ProcFiles.{ProcStatInfo, get_proc_stat, get_peak_memory_kb}
use grpccapnp.Common.Metrics.{u64}
use grpccapnp.Tcp.Config.{enable_client_resource_monitoring}

pub record ChunkRttInfo : Type 0 where
  pub chunk_index : ℕ
  pub rtt_us : ℕ
  pub chunk_size_bytes : ℕ
  pub verified : Bool

abbrev pub total_time : ProcStatInfo → ℕ
total_time stat = u64 (stat.utime + stat.stime)

pub record MetricsAggregator (double : Double) : Type 0 where
  pub protocol_name : String
  pub total_file_size_expected : ℕ
  pub chunk_size_expected : ℕ
  pub start_time : ℕ
  pub end_time : ℕ
  pub timer_running : Bool
  pub current_chunk_rtt_start_time : ℕ
  pub total_bytes_processed : ℕ
  pub verified_chunks_count : ℕ
  pub processed_chunks_count : ℕ
  pub chunk_rtt_data : List ChunkRttInfo
  pub resource_monitoring_enabled : Bool
  pub resource_monitor_start_time : ℕ
  pub cpu_stat_start : ProcStatInfo
  pub avg_cpu_usage_percent : double.Carrier
  pub peak_memory_kb : ℤ
  pub resource_monitoring_active : Bool

-- What the system tells at a moment: the clock, the texts of /proc/self/stat and /proc/self/status,
-- if they can be opened, and the ticks of a second.
pub record Moment : Type 0 where
  pub now : ℕ
  pub stat_file : Option Bytes
  pub status_file : Option Bytes
  pub clk_tck : ℕ

module _ (double : Double) where
  open double use {Carrier, of_size, div, mul}

  unfoldable pub make : String → ℕ → ℕ → MetricsAggregator double
  make protocol_name total chunk = record {
    protocol_name = protocol_name;
    total_file_size_expected = total;
    chunk_size_expected = chunk;
    start_time = 0;
    end_time = 0;
    timer_running = false;
    current_chunk_rtt_start_time = 0;
    total_bytes_processed = 0;
    verified_chunks_count = 0;
    processed_chunks_count = 0;
    chunk_rtt_data = [];
    resource_monitoring_enabled = enable_client_resource_monitoring;
    resource_monitor_start_time = 0;
    cpu_stat_start = record { utime = 0; stime = 0 };
    avg_cpu_usage_percent = of_size 0;
    peak_memory_kb = pos 0;
    resource_monitoring_active = false;
  }

  pub start_resource_monitoring : Moment → MetricsAggregator double → MetricsAggregator double
  start_resource_monitoring moment m =
      if not m.resource_monitoring_enabled || m.resource_monitoring_active then m else record m {
        resource_monitor_start_time = moment.now;
        cpu_stat_start = get_proc_stat moment.stat_file;
        peak_memory_kb = pos 0;
        resource_monitoring_active = true;
      }

  -- A duration in seconds is above 0 exactly if the nanoseconds are.
  cpu_usage : Moment → MetricsAggregator double → Carrier
  cpu_usage moment m =
      let nanoseconds = moment.now - m.resource_monitor_start_time in
      let ticks =
        u64 (total_time (get_proc_stat moment.stat_file) + 2 ^ 64 - total_time m.cpu_stat_start) in
      let duration_sec = div (of_size nanoseconds) (of_size 1000000000) in
      if ltb 0 nanoseconds && ltb 0 moment.clk_tck
      then mul (div (div (of_size ticks) (of_size moment.clk_tck)) duration_sec) (of_size 100)
      else of_size 0

  pub stop_resource_monitoring : Moment → MetricsAggregator double → MetricsAggregator double
  unfolding cpu_usage
  stop_resource_monitoring moment m =
      if not m.resource_monitoring_enabled || not m.resource_monitoring_active
      then m
      else record m {
        peak_memory_kb = get_peak_memory_kb moment.status_file;
        avg_cpu_usage_percent = cpu_usage moment m;
        resource_monitoring_active = false;
      }

  pub start_timer : Moment → MetricsAggregator double → MetricsAggregator double
  unfolding start_resource_monitoring
  start_timer moment m =
      let started = record m { start_time = moment.now; timer_running = true } in
      if not m.timer_running
      then (if m.resource_monitoring_enabled
          then start_resource_monitoring moment started
          else started)
      else m

  pub stop_timer : Moment → MetricsAggregator double → MetricsAggregator double
  unfolding stop_resource_monitoring
  stop_timer moment m =
      let stopped = record m { end_time = moment.now; timer_running = false } in
      if m.timer_running
      then (if m.resource_monitoring_enabled
          then stop_resource_monitoring moment stopped
          else stopped)
      else m

  unfoldable pub start_chunk_rtt_timer :
      Moment → MetricsAggregator double → MetricsAggregator double
  start_chunk_rtt_timer moment m = record m { current_chunk_rtt_start_time = moment.now }

  unfoldable pub stop_and_record_chunk_rtt :
      Moment → ℕ → Bool → MetricsAggregator double → MetricsAggregator double
  stop_and_record_chunk_rtt moment chunk_size_bytes verified m = record m {
    chunk_rtt_data =
        m.chunk_rtt_data
        ++ record {
          chunk_index = u64 (m.processed_chunks_count + 1);
          rtt_us = (moment.now - m.current_chunk_rtt_start_time) / 1000;
          chunk_size_bytes = chunk_size_bytes;
          verified = verified;
        }
          ∷ [];
    processed_chunks_count = u64 (m.processed_chunks_count + 1);
    total_bytes_processed = u64 (m.total_bytes_processed + chunk_size_bytes);
    verified_chunks_count =
        if verified then u64 (m.verified_chunks_count + 1) else m.verified_chunks_count;
  }

  pub record_chunk_processed : ℕ → MetricsAggregator double → MetricsAggregator double
  record_chunk_processed bytes_processed m = record m {
    total_bytes_processed = u64 (m.total_bytes_processed + bytes_processed);
  }

  -- Its body does nothing.
  unfoldable pub record_chunk_verified : Bool → MetricsAggregator double → MetricsAggregator double
  record_chunk_verified success m = m
