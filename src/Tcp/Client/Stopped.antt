-- ===== src/Tcp/Client/Stopped.antt =====
-- Where a completion handler can leave the TCP client: waiting, stopped by `stop_client_operations`, or
-- left by an exception.
pub mod Once
use grpccapnp.Base.{
  ◌+◌, ◌*◌, ◌||◌, ◌&&◌, ◌==◌, is_empty, reverse, leb, bytes_eq, ◌≡◌, ◌⊎◌, inl, inr, refl, true,
  false, not, Bytes, Bool, List, [], ◌∷◌, Option, none, some, arith, if◌then◌else◌, ◌∙◌, length,
  ltb,
}
use grpccapnp.Common.Double.{Double}
use grpccapnp.Tcp.Config.{chunk_size}
use grpccapnp.Tcp.Messaging.{Header, prepare_message, parse_header}
use grpccapnp.Tcp.Reversal.{get_reversed_vector_content}
use grpccapnp.Tcp.ChunkReader.{ChunkReader, eof, read_next_chunk}
use grpccapnp.Common.Metrics.{u64}
use grpccapnp.Tcp.Metrics.{
  MetricsAggregator, start_timer, start_chunk_rtt_timer, record_chunk_verified,
  stop_and_record_chunk_rtt,
}
use grpccapnp.Tcp.Metrics.Records.{stop_timer-stopped}
use grpccapnp.Tcp.Server.{ErrorCode, operation_aborted, other, Outcome, done, failed, resize}
use grpccapnp.Tcp.Client.{
  Waiting, resolving, connecting, reading_header, reading_body, writing, nothing, unwound, Clock,
  Client, make, stop_client_operations, send_chunk, send_next_chunk, handle_received_chunk_data,
  on_resolved, on_connected, on_written, on_header, on_body,
}

-- An operation is under way, whose completion will call a handler.
abbrev pub is_pending : Waiting → Bool
is_pending nothing = false
is_pending unwound = false
is_pending resolving = true
is_pending connecting = true
is_pending (writing buffers) = true
is_pending reading_header = true
is_pending reading_body = true

module _ (double : Double) where
  -- The client has not been stopped, and has said nothing.
  abbrev pub IsUnstopped : Client double → Type 0
  IsUnstopped c =
      (c.operations_stopped ≡ false)
      × (c.io_stopped ≡ false)
      × (c.timer_stopped_flag ≡ false)
      × (c.finished ≡ none)

  -- The client has been stopped, with its timer and its socket, and has said how that came.
  abbrev pub IsStopped : Client double → Type 0
  IsStopped c =
      (c.operations_stopped ≡ true)
      × (c.io_stopped ≡ true)
      × (c.timer_stopped_flag ≡ true)
      × (c.metrics.timer_running ≡ false)
      × (c.socket_open ≡ false)
      × (c.waiting ≡ nothing)
      × ((error : Bool) × (c.finished ≡ some error))

  -- The client waits, or an exception has left it, or it has been stopped.
  pub data Stage (c : Client double) : Type 0 where
    pending : IsUnstopped c → is_pending c.waiting ≡ true → Stage c
    left_by_exception : IsUnstopped c → c.waiting ≡ unwound → Stage c
    stopped : IsStopped c → Stage c

  Stage-if :
      (test : Bool) (c c' : Client double) → Stage c → Stage c' → Stage (if test then c else c')
  Stage-if true c c' h h' = h
  Stage-if false c c' h h' = h'

  stop-Stage :
      (clock : Clock) (error : Bool) (c : Client double)
      → IsUnstopped c
      → Stage (stop_client_operations double clock error c)
  unfolding stop_client_operations
  stop-Stage clock error c (running, _, timed, _) =
      rw (running, timed, if◌then◌else◌)
        (stopped (
          refl,
          refl,
          refl,
          stop_timer-stopped double clock.at_stop c.metrics,
          refl,
          refl,
          (error, refl),
        ))

  send_chunk-Stage :
      (clock : Clock) (c : Client double) (chunk : Bytes)
      → IsUnstopped c
      → Stage (send_chunk double clock c chunk)
  unfolding send_chunk
  send_chunk-Stage clock c chunk h =
      let c₁ = record c { metrics = record_chunk_verified double false c.metrics } in
      Stage-if (is_empty chunk && not (eof c.chunk_reader))
        (stop_client_operations double clock true c₁) _ (stop-Stage clock true c₁ h)
        (Stage-if (is_empty chunk && eof c.chunk_reader)
          (stop_client_operations double clock false c)
          (record c {
            waiting = writing (prepare_message chunk);
            expected_reversed_chunk = get_reversed_vector_content chunk;
            metrics = start_chunk_rtt_timer double clock.at_start c.metrics;
          })
          (stop-Stage clock false c h) (pending h refl))

  send_next_chunk-Stage :
      (clock : Clock) (c : Client double)
      → IsUnstopped c
      → is_pending c.waiting ≡ true
      → Stage (send_next_chunk double clock c)
  unfolding send_next_chunk
  send_next_chunk-Stage clock c h e =
      let (reader, chunk) = read_next_chunk c.chunk_reader in
      let c₁ = record c { chunk_reader = reader; current_chunk_data = chunk } in
      Stage-if c.operations_stopped c _ (pending h e) (
        Stage-if (leb c.total_chunks_to_send c.chunks_sent || eof c.chunk_reader)
          (stop_client_operations double clock false c) (send_chunk double clock c₁ chunk)
          (stop-Stage clock false c h) (send_chunk-Stage clock c₁ chunk h))

  handle_received-Stage :
      (clock : Clock) (c : Client double)
      → IsUnstopped c
      → is_pending c.waiting ≡ true
      → Stage (handle_received_chunk_data double clock c)
  unfolding handle_received_chunk_data
  handle_received-Stage clock c h e =
      let verified = bytes_eq c.read_body_buffer c.expected_reversed_chunk in
      let c₁ = record c {
        metrics =
            stop_and_record_chunk_rtt double clock.at_record (length c.current_chunk_data) verified
              c.metrics;
      } in
      let c₂ = record c₁ { chunks_sent = u64 (c.chunks_sent + 1) } in
      Stage-if c.operations_stopped c _ (pending h e) (
        Stage-if (not verified) (stop_client_operations double clock true c₁) _
          (stop-Stage clock true c₁ h)
          (Stage-if (leb c.total_chunks_to_send c₂.chunks_sent || eof c.chunk_reader)
            (stop_client_operations double clock false c₂) (send_next_chunk double clock c₂)
            (stop-Stage clock false c₂ h) (send_next_chunk-Stage clock c₂ h e)))

  pub on_resolved-Stage :
      (clock : Clock) (o : Outcome (Unit {0})) (c : Client double)
      → IsUnstopped c × (is_pending c.waiting ≡ true)
      → Stage (on_resolved double clock o c)
  unfolding on_resolved
  on_resolved-Stage clock (failed ec) c (h, e) = stop-Stage clock true c h
  on_resolved-Stage clock (done _) c (h, e) = pending h refl

  pub on_connected-Stage :
      (clock : Clock) (o : Outcome Bool) (c : Client double)
      → IsUnstopped c × (is_pending c.waiting ≡ true)
      → Stage (on_connected double clock o c)
  unfolding on_connected
  on_connected-Stage clock (failed ec) c (h, e) = stop-Stage clock true c h
  on_connected-Stage clock (done false) c (h, e) = left_by_exception h refl
  on_connected-Stage clock (done true) c (h, e) =
      send_next_chunk-Stage clock
        (record c { socket_open = true; metrics = start_timer double clock.at_connect c.metrics }) h
        e

  pub on_written-Stage :
      (clock : Clock) (o : Outcome (Unit {0})) (c : Client double)
      → IsUnstopped c × (is_pending c.waiting ≡ true)
      → Stage (on_written double clock o c)
  unfolding on_written
  on_written-Stage clock (failed ec) c (h, e) =
      Stage-if c.operations_stopped c _ (pending h e) (stop-Stage clock true c h)
  on_written-Stage clock (done _) c (h, e) = Stage-if c.operations_stopped c _ (pending h e) (
      Stage-if c.operations_stopped c (record c { waiting = reading_header }) (pending h e)
        (pending h refl))

  pub on_header-Stage :
      (clock : Clock) (o : Outcome Header) (c : Client double)
      → IsUnstopped c × (is_pending c.waiting ≡ true)
      → Stage (on_header double clock o c)
  unfolding on_header
  on_header-Stage clock (failed ErrorCode.eof) c (h, e) =
      Stage-if c.operations_stopped c _ (pending h e)
        (stop-Stage clock (ltb c.chunks_sent c.total_chunks_to_send) c h)
  on_header-Stage clock (failed operation_aborted) c (h, e) =
      Stage-if c.operations_stopped c _ (pending h e) (stop-Stage clock true c h)
  on_header-Stage clock (failed other) c (h, e) =
      Stage-if c.operations_stopped c _ (pending h e) (stop-Stage clock true c h)
  on_header-Stage clock (done header) c (h, e) =
      let c' = record c { read_body_buffer = resize (parse_header header) c.read_body_buffer } in
      let next = record c' { waiting = reading_body } in
      Stage-if c.operations_stopped c _ (pending h e) (
        Stage-if (ltb (chunk_size * 2) (parse_header header))
          (stop_client_operations double clock true c) _ (stop-Stage clock true c h)
          (Stage-if (parse_header header == 0) (handle_received_chunk_data double clock c') _
            (handle_received-Stage clock c' h e)
            (Stage-if c'.operations_stopped c' next (pending h e) (pending h refl))))

  pub on_body-Stage :
      (clock : Clock) (o : Outcome Bytes) (c : Client double)
      → IsUnstopped c × (is_pending c.waiting ≡ true)
      → Stage (on_body double clock o c)
  unfolding on_body
  on_body-Stage clock (failed ec) c (h, e) =
      Stage-if c.operations_stopped c _ (pending h e) (stop-Stage clock true c h)
  on_body-Stage clock (done body) c (h, e) =
      let c' = record c { read_body_buffer = body } in
      Stage-if c.operations_stopped c _ (pending h e) (
        Stage-if (not (length body == length c.read_body_buffer))
          (stop_client_operations double clock true c) (handle_received_chunk_data double clock c')
          (stop-Stage clock true c h) (handle_received-Stage clock c' h e))
