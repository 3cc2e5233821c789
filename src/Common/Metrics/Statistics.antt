-- ===== src/Common/Metrics/Statistics.antt =====
-- The private calculations of `MetricsAggregator`.
use grpccapnp.Base.{ℕ, ◌+◌, ◌-◌, ◌^◌, List, [], ◌∷◌, Bool, length, ltb, ◌==◌, ◌&&◌, if◌then◌else◌}
use grpccapnp.Base.Int.{ℤ, pos, ltb_ℤ, ◌+ℤ◌, pos_part, neg_part}
use grpccapnp.Common.Double.{Double}
use grpccapnp.Common.Metrics.{MetricsAggregator, u64}

-- `std::accumulate` from an initial sum.
unfoldable pub accumulate : ℤ → List ℤ → ℤ
accumulate sum [] = sum
accumulate sum (x ∷ xs) = accumulate (sum +ℤ x) xs

-- `*std::min_element` and `*std::max_element` of a range whose first element is `best`.
unfoldable pub min_element : ℤ → List ℤ → ℤ
min_element best [] = best
min_element best (x ∷ xs) = min_element (if ltb_ℤ x best then x else best) xs

unfoldable pub max_element : ℤ → List ℤ → ℤ
max_element best [] = best
max_element best (x ∷ xs) = max_element (if ltb_ℤ best x then x else best) xs

-- `total_on_wire_bytes_ - actual_payload_transferred_bytes_` on `size_t`.
unfoldable pub overhead_bytes : {Message : Type 0} → MetricsAggregator Message → ℕ
overhead_bytes m = u64 (m.total_on_wire_bytes + 2 ^ 64 - m.actual_payload_transferred_bytes)

abbrev pub is_zero_ℤ : ℤ → Bool
is_zero_ℤ a = (pos_part a == 0) && (neg_part a == 0)

module _ (double : Double) where
  open double use {Carrier, of_size, of_int, add, sub, mul, div}

  -- 1024.0 * 1024.0
  mega : Carrier
  mega = mul (of_size 1024) (of_size 1024)

  average : List ℤ → Carrier
  average [] = of_size 0
  average (x ∷ xs) =
      div (div (of_int (accumulate (pos 0) (x ∷ xs))) (of_size (length (x ∷ xs)))) (of_size 1000)

  minimum : List ℤ → Carrier
  minimum [] = of_size 0
  minimum (x ∷ xs) = div (of_int (min_element x xs)) (of_size 1000)

  maximum : List ℤ → Carrier
  maximum [] = of_size 0
  maximum (x ∷ xs) = div (of_int (max_element x xs)) (of_size 1000)

  -- The `for` that adds up the squared distances from the mean.
  square_sum : Carrier → Carrier → List ℤ → Carrier
  square_sum mean sq_sum [] = sq_sum
  square_sum mean sq_sum (x ∷ xs) =
      let d = sub (of_int x) mean in square_sum mean (add sq_sum (mul d d)) xs

module _ (double : Double) {Message : Type 0} where
  open double use {Carrier, of_size, of_int, mul, div, sqrt}

  unfoldable pub get_total_payload_sent_mb : MetricsAggregator Message → Carrier
  unfolding mega
  get_total_payload_sent_mb m = div (of_size m.actual_payload_transferred_bytes) (mega double)

  unfoldable pub get_total_data_on_wire_mb : MetricsAggregator Message → Carrier
  unfolding mega
  get_total_data_on_wire_mb m = div (of_size m.total_on_wire_bytes) (mega double)

  unfoldable pub get_protocol_overhead_percentage : MetricsAggregator Message → Carrier
  get_protocol_overhead_percentage m =
      if m.actual_payload_transferred_bytes == 0
      then of_size 0
      else (mul (div (of_size (overhead_bytes m)) (of_size m.actual_payload_transferred_bytes))
          (of_size 100))

  -- The body of both `get_throughput_` methods, for a number of megabytes.
  throughput : Carrier → MetricsAggregator Message → Carrier
  throughput mb m =
      if is_zero_ℤ m.total_transaction_time_ms
      then of_size 0
      else (let time_s = div (of_int m.total_transaction_time_ms) (of_size 1000) in
          div (mul mb (of_size 8)) time_s)

  unfoldable pub get_throughput_payload_mbps : MetricsAggregator Message → Carrier
  unfolding throughput
  get_throughput_payload_mbps m = throughput (get_total_payload_sent_mb m) m

  unfoldable pub get_throughput_on_wire_mbps : MetricsAggregator Message → Carrier
  unfolding throughput
  get_throughput_on_wire_mbps m = throughput (get_total_data_on_wire_mb m) m

  unfoldable pub get_num_chunks : MetricsAggregator Message → ℕ
  get_num_chunks m = length m.chunk_rtt_us

  unfoldable pub get_avg_chunk_rtt_ms : MetricsAggregator Message → Carrier
  unfolding average
  get_avg_chunk_rtt_ms m = average double m.chunk_rtt_us

  unfoldable pub get_min_chunk_rtt_ms : MetricsAggregator Message → Carrier
  unfolding minimum
  get_min_chunk_rtt_ms m = minimum double m.chunk_rtt_us

  unfoldable pub get_max_chunk_rtt_ms : MetricsAggregator Message → Carrier
  unfolding maximum
  get_max_chunk_rtt_ms m = maximum double m.chunk_rtt_us

  unfoldable pub get_std_dev_chunk_rtt_ms : MetricsAggregator Message → Carrier
  unfolding square_sum
  get_std_dev_chunk_rtt_ms m =
      if ltb (get_num_chunks m) 2
      then of_size 0
      else (let mean = mul (get_avg_chunk_rtt_ms m) (of_size 1000) in
          let sq_sum = square_sum double mean (of_size 0) m.chunk_rtt_us in
          div (sqrt (div sq_sum (of_size (get_num_chunks m - 1)))) (of_size 1000))
