-- ===== src/Grpc/Client/Clean.antt =====
-- A run of `ProcessFile` of src/grpc_app/grpc_client.cpp that logs nothing.
pub mod Invariant
pub mod Reading
pub mod Verified
use grpccapnp.Base.{
  ℕ, zero, suc, ◌+◌, ◌≤◌, ◌<◌, ◌≡◌, ◌≢◌, refl, sym, ap, ◌∙◌, subst, Bool, true, false, not, ◌&&◌,
  ◌==◌, ==_eq, List, [], ◌∷◌, ◌++◌, arith, length, length-append, List-cases, is_empty, Bool-cases,
  ◌⊎◌, inl, inr, if◌then◌else◌,
}
use grpccapnp.Base.Int.{ℤ}
use grpccapnp.Common.Metrics.{MetricsAggregator, log_error, set_total_transaction_time_ms}
use grpccapnp.Grpc.Server.{Status}
use grpccapnp.Grpc.Client.{
  Message, Writer, waiting, reading, writing, recording, leaving, closing, ended, Reader, receiving,
  matching, verifying, joining, finishing, returned, Server, serving, done, System, World, Action,
  log, leftover_check, status_check, total_check, is_ok, final_status, finish_step,
  requests_remaining, rpc_failed, data_loss,
}

-- How many messages have been logged.
abbrev pub logged : System → ℕ
logged s = length s.metrics.errors

-- What a run that logs nothing comes to.
abbrev pub Clean : ℕ → System → Type 0
Clean expected s =
    (s.inflight_requests_map ≡ []) × (s.total_bytes_verified_payload_by_reader ≡ expected)

pub logged-log : (m : Message) (s : System) → logged (log m s) ≡ suc (logged s)
unfolding log_error
logged-log m s = omega (arith, length-append s.metrics.errors (m ∷ []))

leftover_check-clean :
    (s : System)
    → logged (leftover_check s) ≡ 0
    → (logged s ≡ 0) × (s.inflight_requests_map ≡ []) × (leftover_check s ≡ s)
unfolding leftover_check
leftover_check-clean s h = elim (List-cases s.inflight_requests_map) [
  | inl e ↦
      let same : leftover_check s ≡ s = simp e refl in (omega (arith, h, ap logged same), e, same)
  | inr (x, xs, e) ↦
      let message = requests_remaining (length s.inflight_requests_map) in
      let more : leftover_check s ≡ log message s = simp e refl in
      absurd (omega (arith, h, ap logged more, logged-log message s))
]

status_check-clean :
    (status : Status) (s : System)
    → logged (status_check status s) ≡ 0
    → (status_check status s ≡ s) × (is_ok status ≡ true)
unfolding status_check is_ok
status_check-clean Status.ok s h = (refl, refl)
status_check-clean Status.unknown s h =
    absurd (omega (arith, h, logged-log (rpc_failed Status.unknown) s))

total_check-clean :
    (expected : ℕ) (status : Status) (s : System)
    → is_ok status ≡ true
    → s.writer_thread_finished_sending ≡ true
    → s.writer_stream_broken ≡ false
    → logged (total_check expected status s) ≡ 0
    → (total_check expected status s ≡ s) × (s.total_bytes_verified_payload_by_reader ≡ expected)
unfolding total_check
total_check-clean expected status s ok sent kept h =
    let verified = s.total_bytes_verified_payload_by_reader in
    elim (Bool-cases (verified == expected)) [
      | inl all ↦ (simp (sent, kept, ok, all, if◌then◌else◌) refl, ==_eq verified expected all)
      | inr part ↦
          let more : total_check expected status s ≡ log (data_loss verified expected) s =
            simp (sent, kept, ok, part, if◌then◌else◌) refl in
          absurd (omega (arith, h, ap logged more, logged-log (data_loss verified expected) s))
    ]

total_check-le :
    (expected : ℕ) (status : Status) (s : System)
    → logged s ≤ logged (total_check expected status s)
unfolding total_check
total_check-le expected status s =
    let verified = s.total_bytes_verified_payload_by_reader in
    elim (Bool-cases (
      s.writer_thread_finished_sending
      && not s.writer_stream_broken
      && is_ok status
      && not (verified == expected))) [
        | inl c ↦
            let more : total_check expected status s ≡ log (data_loss verified expected) s =
              simp (c, if◌then◌else◌) refl in
            omega (arith, ap logged more, logged-log (data_loss verified expected) s)
        | inr c ↦
            let same : total_check expected status s ≡ s = simp (c, if◌then◌else◌) refl in
            omega (arith, ap logged same)
      ]

final_status-ok : (s : System) → is_ok (final_status s) ≡ true → s.stream.broken ≡ false
unfolding final_status is_ok
final_status-ok s h = elim (Bool-cases s.stream.broken) [
  | inl broken ↦ absurd (ground (arith, broken, h))
  | inr works ↦ works
]

abbrev timed : ℤ → System → System
timed duration_ms s = record s { metrics = set_total_transaction_time_ms duration_ms s.metrics }

-- If nothing has been logged by the end of `ProcessFile`, then no request was left, the stream had
-- not broken, and if the writer had sent everything, all bytes had been verified.
pub finish_step-clean :
    (expected : ℕ) (duration_ms : ℤ) (s : System)
    → logged (finish_step expected duration_ms s) ≡ 0
    → (logged s ≡ 0)
      × (s.inflight_requests_map ≡ [])
      × (s.stream.broken ≡ false)
      × (s.writer_thread_finished_sending ≡ true
          → s.writer_stream_broken ≡ false
          → s.total_bytes_verified_payload_by_reader ≡ expected)
unfolding finish_step set_total_transaction_time_ms
finish_step-clean expected duration_ms s h =
    let status = final_status s in
    let s₂ = timed duration_ms (leftover_check s) in
    let (timely, ok) =
      status_check-clean status s₂
        (omega (arith, h, total_check-le expected status (status_check status s₂))) in
    let (quiet, empty, same) = leftover_check-clean s (
      omega
        (arith, h, total_check-le expected status (status_check status s₂), ap logged timely)) in
    let whole : status_check status s₂ ≡ timed duration_ms s =
      timely ∙ ap (timed duration_ms) same in
    (
      quiet,
      empty,
      final_status-ok s ok,
      λ sent kept.
          (total_check-clean expected status (timed duration_ms s) ok sent kept
            (ap (λ q. logged (total_check expected status q)) (sym whole) ∙ h)).1,
    )
