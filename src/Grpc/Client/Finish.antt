-- ===== src/Grpc/Client/Finish.antt =====
-- The end of `ProcessFile` changes nothing but the metrics and the reader, and logs no failed
-- verification.
use grpccapnp.Base.{
  ℕ, ◌≡◌, refl, ap, ◌∙◌, arith, Bool, true, false, not, ◌&&◌, ◌==◌, Bool-cases, inl, inr,
  if◌then◌else◌, is_empty, length,
}
use grpccapnp.Base.Int.{ℤ}
use grpccapnp.Common.Metrics.{MetricsAggregator, set_total_transaction_time_ms, log_error}
use grpccapnp.Grpc.Server.{Status}
use grpccapnp.Grpc.Client.Mismatches.{weight, mismatches, mismatches-log_error}
use grpccapnp.Grpc.Client.{
  Message, requests_remaining, rpc_failed, data_loss, System, returned, leftover_check,
  status_check, total_check, is_ok, final_status, finish_step,
}

abbrev Logs : System → System → Type 0
Logs s t =
    (m : MetricsAggregator Message) × (t ≡ record s { metrics = m })
    × (mismatches m.errors ≡ mismatches s.metrics.errors)

abbrev logged : Message → System → System
logged message s = record s { metrics = log_error message s.metrics }

Logs-logged : (message : Message) (s : System) → weight message ≡ 0 → Logs s (logged message s)
Logs-logged message s w = (_, refl, omega (arith, w, mismatches-log_error message s.metrics))

Logs-refl : (s : System) → Logs s s
Logs-refl s = (s.metrics, refl, refl)

Logs-if : (b : Bool) (s t : System) → Logs s t → Logs s (if b then t else s)
Logs-if true s t l = l
Logs-if false s t l = Logs-refl s

leftover_check-Logs : (s : System) → Logs s (leftover_check s)
unfolding leftover_check
leftover_check-Logs s = elim (Bool-cases (is_empty s.inflight_requests_map)) [
  | inl e ↦ rw (e, leftover_check) (Logs-refl s)
  | inr e ↦
      rw (e, leftover_check)
        (Logs-logged (requests_remaining (length s.inflight_requests_map)) s refl)
]

status_check-Logs : (status : Status) (s : System) → Logs s (status_check status s)
unfolding status_check
status_check-Logs Status.ok s = Logs-refl s
status_check-Logs Status.unknown s = Logs-logged (rpc_failed Status.unknown) s refl

total_check-Logs :
    (expected : ℕ) (status : Status) (s : System) → Logs s (total_check expected status s)
unfolding total_check
total_check-Logs expected status s =
    Logs-if
      (s.writer_thread_finished_sending
        && not s.writer_stream_broken
        && is_ok status
        && not (s.total_bytes_verified_payload_by_reader == expected))
      s _ (Logs-logged (data_loss s.total_bytes_verified_payload_by_reader expected) s refl)

Logs-trans : (s t u : System) → Logs s t → Logs t u → Logs s u
Logs-trans s t u (m, e, n) (m', e', n') = (
  m',
  e' ∙ ap (λ (r : System). record r { metrics = m' }) e,
  n' ∙ ap (λ (r : System). mismatches r.metrics.errors) e ∙ n,
)

pub finish_step-eq :
    (expected : ℕ) (duration_ms : ℤ) (s : System)
    → (m : MetricsAggregator Message) × (finish_step expected duration_ms s
        ≡ record s { reader = returned; metrics = m })
      × (mismatches m.errors ≡ mismatches s.metrics.errors)
unfolding finish_step set_total_transaction_time_ms
finish_step-eq expected duration_ms s =
    let status = final_status s in
    let s₁ = leftover_check s in
    let s₂ : System = record s₁ {
      metrics = set_total_transaction_time_ms duration_ms s₁.metrics;
    } in
    let (m, e, n) : Logs s (total_check expected status (status_check status s₂)) =
      Logs-trans s s₁ _ (leftover_check-Logs s) (
        Logs-trans s₁ s₂ _ (s₂.metrics, refl, refl)
          (Logs-trans s₂ (status_check status s₂) _ (status_check-Logs status s₂)
            (total_check-Logs expected status (status_check status s₂)))) in
    (m, ap (λ (r : System). record r { reader = returned }) e, n)
