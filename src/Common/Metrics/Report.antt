-- ===== src/Common/Metrics/Report.antt =====
-- The reports of `MetricsAggregator`: the two CSV files and the console summary, as rows. The
-- printing of a number and the layout of a row's text are the stream's.
use grpccapnp.Base.{
  ℕ, ◌+◌, String, Bool, true, false, List, [], ◌∷◌, ◌++◌, length, is_empty, if◌then◌else◌,
}
use grpccapnp.Base.Int.{ℤ}
use grpccapnp.Common.Double.{Double}
use grpccapnp.Common.Metrics.{MetricsAggregator}
use grpccapnp.Common.Metrics.Statistics.{
  get_total_payload_sent_mb, get_total_data_on_wire_mb, get_protocol_overhead_percentage,
  get_throughput_payload_mbps, get_throughput_on_wire_mbps, get_num_chunks, get_avg_chunk_rtt_ms,
  get_min_chunk_rtt_ms, get_max_chunk_rtt_ms, get_std_dev_chunk_rtt_ms,
}

-- What stands in a cell.
pub data Value (Carrier Message : Type 0) : Type 0 where
  text : String → Value Carrier Message
  number : Carrier → Value Carrier Message
  count : ℕ → Value Carrier Message
  message : Message → Value Carrier Message

pub record Row (Carrier Message : Type 0) : Type 0 where
  pub metric : String
  pub value : Value Carrier Message
  pub unit : String

-- A file is not written when it cannot be opened (`none` in the source: no output at all).
pub record Saved (A : Type 0) : Type 0 where
  pub result : Bool
  pub rows : List A

-- The rows of the detailed file from index `i` on.
unfoldable pub detailed_rows : ℕ → List ℤ → List (ℕ × ℤ)
detailed_rows i [] = []
detailed_rows i (rtt ∷ rtts) = (i + 1, rtt) ∷ detailed_rows (i + 1) rtts

unfoldable pub save_detailed_rtt_csv :
    {Message : Type 0} → Bool → MetricsAggregator Message → Saved (ℕ × ℤ)
save_detailed_rtt_csv opens m =
    if is_empty m.chunk_rtt_us
    then record { result = true; rows = [] }
    else (if opens
        then record { result = true; rows = detailed_rows 0 m.chunk_rtt_us }
        else record { result = false; rows = [] })

abbrev pub Line : Double → Type 0 → Type 0
Line double Message = Row double.Carrier Message

row : (double : Double) {Message : Type 0} → String → double.Carrier → String → Line double Message
row double metric value unit = record { metric = metric; value = number value; unit = unit }

error_lines : (double : Double) {Message : Type 0} → List Message → List (Line double Message)
error_lines double [] = []
error_lines double (e ∷ es) =
    record { metric = "  - "; value = message e; unit = "" } ∷ error_lines double es

module _ (double : Double) {Message : Type 0} where
  open double use {of_size, of_int, div}

  -- The lines on time and volume that both summaries have.
  pub volume_rows : MetricsAggregator Message → List (Line double Message)
  unfolding row
  volume_rows m =
      row double "TotalTransactionTime" (div (of_int m.total_transaction_time_ms) (of_size 1000))
        "s"
      ∷ row double "TotalPayloadSent" (get_total_payload_sent_mb double m) "MB"
      ∷ row double "TotalDataSentOnWire" (get_total_data_on_wire_mb double m) "MB"
      ∷ row double "ProtocolOverheadSend" (get_protocol_overhead_percentage double m) "%"
      ∷ row double "ThroughputPayload_Mbps" (get_throughput_payload_mbps double m) "Mbps"
      ∷ row double "ThroughputPayload_Gbps"
          (div (get_throughput_payload_mbps double m) (of_size 1000)) "Gbps"
      ∷ row double "ThroughputOnWire_Mbps" (get_throughput_on_wire_mbps double m) "Mbps"
      ∷ row double "ThroughputOnWire_Gbps"
          (div (get_throughput_on_wire_mbps double m) (of_size 1000)) "Gbps"
      ∷ []

  -- The lines on round trips, left out when none was recorded.
  pub rtt_rows : MetricsAggregator Message → List (Line double Message)
  unfolding row
  rtt_rows m =
      if is_empty m.chunk_rtt_us
      then []
      else (row double "AvgChunkRTT" (get_avg_chunk_rtt_ms double m) "ms"
          ∷ row double "MinChunkRTT" (get_min_chunk_rtt_ms double m) "ms"
          ∷ row double "MaxChunkRTT" (get_max_chunk_rtt_ms double m) "ms"
          ∷ row double "StdDevChunkRTT" (get_std_dev_chunk_rtt_ms double m) "ms"
          ∷ [])

  num_chunks_row : MetricsAggregator Message → Line double Message
  num_chunks_row m = record {
    metric = "NumChunks";
    value = count (get_num_chunks double m);
    unit = "";
  }

  pub summary_rows : MetricsAggregator Message → List (Line double Message)
  unfolding num_chunks_row volume_rows rtt_rows
  summary_rows m =
      record { metric = "Protocol"; value = text m.protocol_name; unit = "" }
      ∷ (volume_rows m
          ++ (rtt_rows m
              ++ num_chunks_row m
                ∷ record {
                  metric = "ErrorsEncountered";
                  value = count (length m.errors);
                  unit = "";
                }
                ∷ []))

  unfoldable pub save_summary_csv : Bool → MetricsAggregator Message → Saved (Line double Message)
  unfolding summary_rows
  save_summary_csv opens m =
      if opens
      then record { result = true; rows = summary_rows m }
      else record { result = false; rows = [] }

  unfoldable pub print_summary_to_console : MetricsAggregator Message → List (Line double Message)
  unfolding num_chunks_row volume_rows rtt_rows error_lines
  print_summary_to_console m =
      record { metric = "Benchmark Summary"; value = text m.protocol_name; unit = "" }
      ∷ (volume_rows m
          ++ (rtt_rows m
              ++ num_chunks_row m
                ∷ (if is_empty m.errors
                    then []
                    else (record { metric = "Errors"; value = count (length m.errors); unit = "" }
                        ∷ error_lines double m.errors))))
