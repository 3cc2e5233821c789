-- ===== src/Grpc/Client/Tally/Steps.antt =====
-- The steps of the threads keep the tally of responses and entries.
use grpccapnp.Base.{
  ℕ, ◌≡◌, refl, sym, ap, ◌∙◌, subst, List, [], ◌∷◌, Option, none, some, arith, Bytes, length,
  length-append,
}
use grpccapnp.Base.Int.{ℤ}
use grpccapnp.Common.Metrics.{log_error, record_chunk_sent, record_chunk_rtt_us}
use grpccapnp.Common.Reversal.{reverse_bytes}
use grpccapnp.Grpc.Server.{ChunkRequest, ChunkResponse, respond}
use grpccapnp.Grpc.Client.Inflight.{SentChunkInfo, find, erase_found, assign_fresh}
use grpccapnp.Grpc.Client.Finish.{finish_step-eq}
use grpccapnp.Grpc.Client.{
  Message, Writer, waiting, reading, writing, recording, leaving, closing, ended, Reader, receiving,
  matching, verifying, joining, finishing, returned, Server, serving, done, System, World,
  read_step, write_step, close_step, writer_step, take_response, match_found, verify_step,
  finish_step, reader_step, serve, server_step, request_of,
}
use grpccapnp.Grpc.Client.Tally.{dropped, dropped-append, IsTallied, finish_step-dropped}

module _ (base : ℕ) where
  pub read_step-IsTallied :
      (byte_size : Bytes → ℕ → ℕ) (s : System)
      → s.writer ≡ reading
      → IsTallied base s
      → IsTallied base (read_step byte_size s)
  unfolding read_step log_error
  read_step-IsTallied byte_size s is h =
      ground (arith, dropped-append s.metrics.errors Message.empty_chunk_before_eof)

  pub writer_step-IsTallied :
      (byte_size : Bytes → ℕ → ℕ) (w : Writer) (s : System)
      → s.writer ≡ w
      → ((info : SentChunkInfo)
          → w ≡ recording info
          → find info.client_assigned_id s.inflight_requests_map ≡ none)
      → IsTallied base s
      → IsTallied base (writer_step byte_size w s)
  unfolding writer_step write_step close_step
  writer_step-IsTallied byte_size waiting s is fresh h = ground arith
  writer_step-IsTallied byte_size reading s is fresh h = read_step-IsTallied byte_size s is h
  writer_step-IsTallied byte_size (writing info) s is fresh h =
      ground (arith, length-append s.stream.requests (request_of info ∷ []))
  writer_step-IsTallied byte_size (recording info) s is fresh h =
      let (longer, _) =
        assign_fresh info.client_assigned_id info s.inflight_requests_map (fresh info refl) in
      ground (arith, longer)
  writer_step-IsTallied byte_size leaving s is fresh h = ground arith
  writer_step-IsTallied byte_size closing s is fresh h = ground arith
  writer_step-IsTallied byte_size ended s is fresh h = h

  take_response-IsTallied :
      (rs : List ChunkResponse) (s : System)
      → s.reader ≡ receiving
      → s.stream.responses ≡ rs
      → IsTallied base s
      → IsTallied base (take_response rs s)
  unfolding take_response
  take_response-IsTallied [] s is e h = ground arith
  take_response-IsTallied (r ∷ rs) s is e h = ground arith

  match_found-IsTallied :
      (response : ChunkResponse) (s : System) (o : Option SentChunkInfo)
      → s.reader ≡ matching response
      → find response.original_client_chunk_id s.inflight_requests_map ≡ o
      → IsTallied base s
      → IsTallied base (match_found response s o)
  unfolding match_found log_error
  match_found-IsTallied response s none is e h = ground (
    arith,
    dropped-append s.metrics.errors (
        Message.no_such_request response.original_client_chunk_id s.received_responses_count
          (length s.inflight_requests_map)),
  )
  match_found-IsTallied response s (some info) is e h =
      let (shorter, _) =
        erase_found response.original_client_chunk_id s.inflight_requests_map info e in
      ground (arith, shorter)

  verify_step-IsTallied :
      (rtt_us : ℕ → ℤ) (info : SentChunkInfo) (r : ChunkResponse) (s : System)
      → s.reader ≡ verifying info r
      → IsTallied base s
      → IsTallied base (verify_step rtt_us info r s)
  unfolding verify_step log_error record_chunk_sent record_chunk_rtt_us
  verify_step-IsTallied rtt_us info r s is h =
      let expected = reverse_bytes info.original_data_for_verification in
      ground (
        arith,
        dropped-append s.metrics.errors (
            Message.size_mismatch info.client_assigned_id (length expected)
              (length r.reversed_chunk_data)),
        dropped-append s.metrics.errors (Message.content_mismatch info.client_assigned_id),
      )

  finish_step-IsTallied :
      (expected : ℕ) (duration : ℤ) (s : System)
      → s.reader ≡ finishing
      → IsTallied base s
      → IsTallied base (finish_step expected duration s)
  finish_step-IsTallied expected duration s is h =
      let (m, e, _) = finish_step-eq expected duration s in
      let same : dropped m.errors ≡ dropped s.metrics.errors =
        sym (ap (λ q. dropped q.metrics.errors) e) ∙ finish_step-dropped expected duration s in
      subst (IsTallied base) (sym e) (ground (arith, same))

  pub reader_step-IsTallied :
      (world : World) (r : Reader) (s : System)
      → s.reader ≡ r
      → IsTallied base s
      → IsTallied base (reader_step world r s)
  unfolding reader_step
  reader_step-IsTallied world receiving s is h =
      take_response-IsTallied s.stream.responses s is refl h
  reader_step-IsTallied world (matching response) s is h =
      match_found-IsTallied response s
        (find response.original_client_chunk_id s.inflight_requests_map) is refl h
  reader_step-IsTallied world (verifying info response) s is h =
      verify_step-IsTallied world.rtt_us info response s is h
  reader_step-IsTallied world joining s is h = ground arith
  reader_step-IsTallied world finishing s is h =
      finish_step-IsTallied world.expected world.duration_ms s is h
  reader_step-IsTallied world returned s is h = h

  serve-IsTallied :
      (rs : List ChunkRequest) (s : System)
      → s.server ≡ serving
      → s.stream.requests ≡ rs
      → IsTallied base s
      → IsTallied base (serve rs s)
  unfolding serve
  serve-IsTallied [] s is e h = ground arith
  serve-IsTallied (r ∷ rs) s is e h =
      ground (arith, length-append s.stream.responses (respond r ∷ []))

  pub server_step-IsTallied :
      (v : Server) (s : System) → s.server ≡ v → IsTallied base s → IsTallied base (server_step v s)
  unfolding server_step
  server_step-IsTallied serving s is h = serve-IsTallied s.stream.requests s is refl h
  server_step-IsTallied (done status) s is h = h
