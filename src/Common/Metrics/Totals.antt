-- ===== src/Common/Metrics/Totals.antt =====
-- What the aggregator holds after any sequence of updates, and what its files say of it.
use grpccapnp.Base.{
  ℕ, zero, suc, ◌+◌, ◌^◌, ◌≤◌, ◌<◌, ◌≡◌, refl, sym, ap, ◌∙◌, String, true, List, [], ◌∷◌, ◌++◌,
  arith, append_assoc, append-nil, get_elem?, some, All, false, is_empty, if◌then◌else◌, List-cases,
  inl, inr,
}
use mathlib.Core.Option
use grpccapnp.Base.Int.{ℤ}
use grpccapnp.Common.Metrics.{
  MetricsAggregator, make, record_chunk_sent, record_chunk_rtt_us, set_total_transaction_time_ms,
  log_error,
}
use grpccapnp.Common.Metrics.Statistics.{overhead_bytes}
use grpccapnp.Common.Metrics.Report.{detailed_rows, save_detailed_rtt_csv}

-- A call that changes the aggregator.
pub data Update (Message : Type 0) : Type 0 where
  sent : ℕ → ℕ → Update Message
  rtt : ℤ → Update Message
  time : ℤ → Update Message
  error : Message → Update Message

module _ {Message : Type 0} where
  pub apply : Update Message → MetricsAggregator Message → MetricsAggregator Message
  unfolding record_chunk_sent record_chunk_rtt_us set_total_transaction_time_ms log_error
  apply (sent p w) = record_chunk_sent p w
  apply (rtt t) = record_chunk_rtt_us t
  apply (time t) = set_total_transaction_time_ms t
  apply (error e) = log_error e

  unfoldable pub run : List (Update Message) → MetricsAggregator Message → MetricsAggregator Message
  unfolding apply
  run [] m = m
  run (u ∷ us) m = run us (apply u m)

  -- What the updates add up to, each said on its own.
  abbrev pub payload_of : List (Update Message) → ℕ
  payload_of [] = 0
  payload_of (sent p w ∷ us) = p + payload_of us
  payload_of (_ ∷ us) = payload_of us

  abbrev pub wire_of : List (Update Message) → ℕ
  wire_of [] = 0
  wire_of (sent p w ∷ us) = w + wire_of us
  wire_of (_ ∷ us) = wire_of us

  abbrev pub rtts_of : List (Update Message) → List ℤ
  rtts_of [] = []
  rtts_of (rtt t ∷ us) = t ∷ rtts_of us
  rtts_of (_ ∷ us) = rtts_of us

  abbrev pub errors_of : List (Update Message) → List Message
  errors_of [] = []
  errors_of (error e ∷ us) = e ∷ errors_of us
  errors_of (_ ∷ us) = errors_of us

  -- No chunk takes less room on the wire than its payload.
  abbrev pub IsFramed : Update Message → Type 0
  IsFramed (sent p w) = p ≤ w
  IsFramed _ = Unit {0}

  payload-le-wire : (us : List (Update Message)) → All IsFramed us → payload_of us ≤ wire_of us
  payload-le-wire [] h = omega arith
  payload-le-wire (sent p w ∷ us) h = omega (arith, payload-le-wire us h.1)
  payload-le-wire (rtt t ∷ us) h = payload-le-wire us h.1
  payload-le-wire (time t ∷ us) h = payload-le-wire us h.1
  payload-le-wire (error e ∷ us) h = payload-le-wire us h.1

  run-lists :
      (us : List (Update Message)) (m : MetricsAggregator Message)
      → ((run us m).chunk_rtt_us ≡ m.chunk_rtt_us ++ rtts_of us)
        × ((run us m).errors ≡ m.errors ++ errors_of us)
  unfolding run
  run-lists [] m = (sym (append-nil _), sym (append-nil _))
  run-lists (sent p w ∷ us) m = run-lists us (record_chunk_sent p w m)
  run-lists (time t ∷ us) m = run-lists us (set_total_transaction_time_ms t m)
  run-lists (rtt t ∷ us) m =
      let ih = run-lists us (record_chunk_rtt_us t m) in
      (ih.0 ∙ append_assoc m.chunk_rtt_us (t ∷ []) (rtts_of us), ih.1)
  run-lists (error e ∷ us) m =
      let ih = run-lists us (log_error e m) in
      (ih.0, ih.1 ∙ append_assoc m.errors (e ∷ []) (errors_of us))

  run-sizes :
      (us : List (Update Message)) (m : MetricsAggregator Message)
      → m.actual_payload_transferred_bytes + payload_of us < 2 ^ 64
      → m.total_on_wire_bytes + wire_of us < 2 ^ 64
      → ((run us m).actual_payload_transferred_bytes
          ≡ m.actual_payload_transferred_bytes + payload_of us)
        × ((run us m).total_on_wire_bytes ≡ m.total_on_wire_bytes + wire_of us)
  unfolding run
  run-sizes [] m h k = omega arith
  run-sizes (sent p w ∷ us) m h k =
      let ih = run-sizes us (record_chunk_sent p w m) (omega arith) (omega arith) in
      omega (arith, ih)
  run-sizes (time t ∷ us) m h k = run-sizes us (set_total_transaction_time_ms t m) h k
  run-sizes (rtt t ∷ us) m h k = run-sizes us (record_chunk_rtt_us t m) h k
  run-sizes (error e ∷ us) m h k = run-sizes us (log_error e m) h k

  -- After any sequence of updates from a new aggregator in which no chunk is larger than its wire
  -- size and the wire sizes add up to less than 2 ^ 64, the counters are the exact sums of the
  -- payloads and of the wire sizes, the subtraction behind the overhead does not wrap (overhead and
  -- payload make up the wire size), and round trips and errors are all kept, in order.
  pub run-totals :
      (name : String) (total chunk : ℕ) (us : List (Update Message))
      → All IsFramed us
      → wire_of us < 2 ^ 64
      → let m = run us (make name total chunk) in
        (m.actual_payload_transferred_bytes ≡ payload_of us)
        × (m.total_on_wire_bytes ≡ wire_of us)
        × (overhead_bytes m + payload_of us ≡ wire_of us)
        × (m.chunk_rtt_us ≡ rtts_of us)
        × (m.errors ≡ errors_of us)
  unfolding make overhead_bytes
  run-totals name total chunk us framed h =
      let start : MetricsAggregator Message = make name total chunk in
      let le = payload-le-wire us framed in
      let (payload, wire) = run-sizes us start (omega (arith, le)) (omega arith) in
      let (rtts, errors) = run-lists us start in
      (omega (arith, payload), omega (arith, wire), omega (arith, payload, wire, le), rtts, errors)

detailed_rows-at :
    (k : ℕ) (xs : List ℤ) (i : ℕ)
    → get_elem? (detailed_rows k xs) i ≡ Option.map (λ t. (k + i + 1, t)) (get_elem? xs i)
unfolding detailed_rows
detailed_rows-at k [] i = refl
detailed_rows-at k (x ∷ xs) zero = ap (λ j. some (j, x)) (omega arith)
detailed_rows-at k (x ∷ xs) (suc i) =
    detailed_rows-at (k + 1) xs i
    ∙ ap (λ (j : ℕ). Option.map (λ t. (j, t)) (get_elem? xs i)) (omega arith)

-- The detailed file, where it can be opened, numbers the round trips from 1 in the order in which
-- they were recorded, one row for each and no more, and the call returns true. Where it cannot be
-- opened nothing is written, and the call returns true exactly if there was no round trip.
pub save_detailed-rows :
    {Message : Type 0} (m : MetricsAggregator Message) (i : ℕ)
    → let saved = save_detailed_rtt_csv true m in
      let unsaved = save_detailed_rtt_csv false m in
      (get_elem? saved.rows i ≡ Option.map (λ t. (i + 1, t)) (get_elem? m.chunk_rtt_us i))
      × (saved.result ≡ true)
      × (unsaved.rows ≡ [])
      × (unsaved.result ≡ is_empty m.chunk_rtt_us)
unfolding save_detailed_rtt_csv
save_detailed-rows m i = elim (List-cases m.chunk_rtt_us) [
  | inl e ↦ simp (e, if◌then◌else◌) (refl, refl, refl, refl)
  | inr (x, xs, e) ↦ simp e (
    detailed_rows-at 0 (x ∷ xs) i
        ∙ ap (λ (j : ℕ). Option.map (λ t. (j + 1, t)) (get_elem? (x ∷ xs) i)) (omega arith),
    refl,
    refl,
    refl,
  )
]
