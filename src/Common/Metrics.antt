-- ===== src/Common/Metrics.antt =====
-- src/common/include/metrics_aggregator.hpp and src/common/src/metrics_aggregator.cpp: the state of
-- `class MetricsAggregator` and the operations that change it. A `size_t` wraps at 2 ^ 64; times
-- are integers without a bound. The type of the error messages is each client's own.
pub mod Statistics
pub mod Report
pub mod Totals
pub mod Extremes
use grpccapnp.Base.{ℕ, ◌+◌, ◌%◌, ◌^◌, String, List, [], ◌∷◌, ◌++◌}
use grpccapnp.Base.Int.{ℤ, pos}

pub record MetricsAggregator (Message : Type 0) : Type 0 where
  pub protocol_name : String
  pub total_payload_to_transfer_bytes : ℕ
  pub actual_payload_transferred_bytes : ℕ
  pub total_on_wire_bytes : ℕ
  pub chunk_size_bytes : ℕ
  pub total_transaction_time_ms : ℤ
  pub chunk_rtt_us : List ℤ
  pub errors : List Message

-- Arithmetic on `size_t`.
abbrev pub u64 : ℕ → ℕ
u64 n = n % 2 ^ 64

module _ {Message : Type 0} where
  unfoldable pub make : String → ℕ → ℕ → MetricsAggregator Message
  make protocol_name total_payload_size_bytes chunk_size_bytes = record {
    protocol_name = protocol_name;
    total_payload_to_transfer_bytes = total_payload_size_bytes;
    actual_payload_transferred_bytes = 0;
    total_on_wire_bytes = 0;
    chunk_size_bytes = chunk_size_bytes;
    total_transaction_time_ms = pos 0;
    chunk_rtt_us = [];
    errors = [];
  }

  unfoldable pub record_chunk_sent : ℕ → ℕ → MetricsAggregator Message → MetricsAggregator Message
  record_chunk_sent payload_size on_wire_size m = record m {
    actual_payload_transferred_bytes = u64 (m.actual_payload_transferred_bytes + payload_size);
    total_on_wire_bytes = u64 (m.total_on_wire_bytes + on_wire_size);
  }

  unfoldable pub record_chunk_rtt_us : ℤ → MetricsAggregator Message → MetricsAggregator Message
  record_chunk_rtt_us rtt_us m = record m { chunk_rtt_us = m.chunk_rtt_us ++ rtt_us ∷ [] }

  unfoldable pub set_total_transaction_time_ms :
      ℤ → MetricsAggregator Message → MetricsAggregator Message
  set_total_transaction_time_ms time_ms m = record m { total_transaction_time_ms = time_ms }

  unfoldable pub log_error : Message → MetricsAggregator Message → MetricsAggregator Message
  log_error error_message m = record m { errors = m.errors ++ error_message ∷ [] }
