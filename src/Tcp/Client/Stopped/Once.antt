-- ===== src/Tcp/Client/Stopped/Once.antt =====
-- The TCP client over any sequence of completions: it is stopped once, and for good.
use grpccapnp.Base.{◌≡◌, ◌⊎◌, inl, inr, refl, true, List, [], ◌∷◌}
use grpccapnp.Common.Double.{Double}
use grpccapnp.Tcp.ChunkReader.{ChunkReader}
use grpccapnp.Tcp.Metrics.{MetricsAggregator}
use grpccapnp.Tcp.Client.{
  Waiting, resolving, connecting, reading_header, reading_body, writing, nothing, unwound, Clock,
  Client, make,
}
use grpccapnp.Tcp.Client.Outcomes.{
  Completion, resolved, connected, written, header_read, body_read, complete, complete_all,
}
use grpccapnp.Tcp.Client.Stopped.{
  is_pending, IsUnstopped, IsStopped, Stage, pending, left_by_exception, stopped, on_resolved-Stage,
  on_connected-Stage, on_written-Stage, on_header-Stage, on_body-Stage,
}

module _ (double : Double) where
  complete-Stage :
      (clock : Clock) (w : Waiting) (o : Completion) (c : Client double)
      → c.waiting ≡ w
      → IsUnstopped double c
      → is_pending w ≡ true
      → Stage double (complete double clock w o c)
  unfolding complete
  complete-Stage clock resolving (resolved o) c e h p =
      on_resolved-Stage double clock o c (h, rw e p)
  complete-Stage clock resolving (connected o) c e h p = pending h (rw e p)
  complete-Stage clock resolving (written o) c e h p = pending h (rw e p)
  complete-Stage clock resolving (header_read o) c e h p = pending h (rw e p)
  complete-Stage clock resolving (body_read o) c e h p = pending h (rw e p)
  complete-Stage clock connecting (resolved o) c e h p = pending h (rw e p)
  complete-Stage clock connecting (connected o) c e h p =
      on_connected-Stage double clock o c (h, rw e p)
  complete-Stage clock connecting (written o) c e h p = pending h (rw e p)
  complete-Stage clock connecting (header_read o) c e h p = pending h (rw e p)
  complete-Stage clock connecting (body_read o) c e h p = pending h (rw e p)
  complete-Stage clock (writing buffers) (resolved o) c e h p = pending h (rw e p)
  complete-Stage clock (writing buffers) (connected o) c e h p = pending h (rw e p)
  complete-Stage clock (writing buffers) (written o) c e h p =
      on_written-Stage double clock o c (h, rw e p)
  complete-Stage clock (writing buffers) (header_read o) c e h p = pending h (rw e p)
  complete-Stage clock (writing buffers) (body_read o) c e h p = pending h (rw e p)
  complete-Stage clock reading_header (resolved o) c e h p = pending h (rw e p)
  complete-Stage clock reading_header (connected o) c e h p = pending h (rw e p)
  complete-Stage clock reading_header (written o) c e h p = pending h (rw e p)
  complete-Stage clock reading_header (header_read o) c e h p =
      on_header-Stage double clock o c (h, rw e p)
  complete-Stage clock reading_header (body_read o) c e h p = pending h (rw e p)
  complete-Stage clock reading_body (resolved o) c e h p = pending h (rw e p)
  complete-Stage clock reading_body (connected o) c e h p = pending h (rw e p)
  complete-Stage clock reading_body (written o) c e h p = pending h (rw e p)
  complete-Stage clock reading_body (header_read o) c e h p = pending h (rw e p)
  complete-Stage clock reading_body (body_read o) c e h p =
      on_body-Stage double clock o c (h, rw e p)
  complete-Stage clock nothing o c e h p = absurd (cc)
  complete-Stage clock unwound o c e h p = absurd (cc)

  complete_idle :
      (clock : Clock) (w : Waiting) (o : Completion) (c : Client double)
      → (w ≡ nothing) ⊎ (w ≡ unwound)
      → complete double clock w o c ≡ c
  unfolding complete
  complete_idle clock w o c (inl e) = rw e refl
  complete_idle clock w o c (inr e) = rw e refl

  complete_all_idle :
      (os : List (Clock × Completion)) (c : Client double)
      → (c.waiting ≡ nothing) ⊎ (c.waiting ≡ unwound)
      → complete_all double os c ≡ c
  unfolding complete_all
  complete_all_idle [] c e = refl
  complete_all_idle ((clock, o) ∷ os) c e =
      rw (complete_idle clock c.waiting o c e) (complete_all_idle os c e)

  complete_all-Stage :
      (os : List (Clock × Completion)) (c : Client double)
      → Stage double c
      → Stage double (complete_all double os c)
  unfolding complete_all
  complete_all-Stage [] c h = h
  complete_all-Stage ((clock, o) ∷ os) c (pending h e) =
      complete_all-Stage os _ (complete-Stage clock c.waiting o c refl h e)
  complete_all-Stage ((clock, o) ∷ os) c (left_by_exception h e) =
      rw (complete_idle clock c.waiting o c (inr e))
        (complete_all-Stage os c (left_by_exception h e))
  complete_all-Stage ((clock, o) ∷ os) c (stopped h) =
      rw (complete_idle clock c.waiting o c (inl h.5)) (complete_all-Stage os c (stopped h))

  make-Stage :
      (reader : ChunkReader) (m : MetricsAggregator double) → Stage double (make double reader m)
  unfolding make
  make-Stage reader m = pending (refl, refl, refl, refl) refl

  -- For any reader and any aggregator, whatever the operations complete with from the start on, the
  -- client is in one of three cases. An operation is under way, and the client has not been stopped:
  -- neither its context nor its timer, and it has said nothing. Or an exception has left its handler:
  -- it has not been stopped either, and nothing that might complete later changes it. Or it has been
  -- stopped, with its context, its timer (which does not run) and its socket (which is closed), has
  -- said whether an error occurred, waits for nothing, and nothing that might complete later changes
  -- it or what it has said.
  pub stops_once :
      (reader : ChunkReader) (m : MetricsAggregator double) (os more : List (Clock × Completion))
      → let c = complete_all double os (make double reader m) in
        (IsUnstopped double c × (is_pending c.waiting ≡ true))
        ⊎ (IsUnstopped double c × (c.waiting ≡ unwound) × (complete_all double more c ≡ c))
        ⊎ (IsStopped double c × (complete_all double more c ≡ c))
  stops_once reader m os more = elim (complete_all-Stage os _ (make-Stage reader m)) [
    | pending h e ↦ inl (h, e)
    | left_by_exception h e ↦ inr (inl (h, e, complete_all_idle more _ (inr e)))
    | stopped h ↦ inr (inr (h, complete_all_idle more _ (inl h.5)))
  ]
