-- ===== src/Tcp/Client/Exchange/Steps.antt =====
-- The way of a chunk from the TCP client to the server and back.
use grpccapnp.Base.{
  ℕ, suc, ◌*◌, ◌^◌, ◌%◌, ◌≤◌, ◌<◌, ◌≡◌, refl, sym, ap, ◌∙◌, Bytes, List, [], true, false, not, some,
  arith, length, append-nil, flatten, reverse, length-reverse, ltb, ◌==◌, ==_refl, if◌then◌else◌,
}
use grpccapnp.Common.Double.{Double}
use grpccapnp.Tcp.Config.{chunk_size}
use grpccapnp.Tcp.Messaging.{Header, encode_length, prepare_message, parse_header}
use grpccapnp.Tcp.Messaging.Stream.{
  receive_header, receive_body, frame, receive_header-frame, receive_body-append, parse_frame,
}
use grpccapnp.Tcp.Server
use grpccapnp.Tcp.Server.{ErrorCode, Outcome, done, failed, Session, resize}
use grpccapnp.Tcp.Server.Answers.{length-resize, at_header, at_body, on_header_fits, on_body_whole}
use grpccapnp.Tcp.Client.{
  reading_header, reading_body, writing, Clock, Client, on_written, on_header, on_body,
  stop_client_operations, handle_received_chunk_data,
}
use grpccapnp.Tcp.Client.Exchange.{
  server_header, server_body, client_header, client_body, advance, exchange, world,
}

module _ (double : Double) (clock : Clock) where
  receive_whole_header :
      (payload : Bytes)
      → receive_header (frame payload) ≡ some (encode_length (length payload % 2 ^ 32), payload)
  receive_whole_header payload =
      ap receive_header (sym (append-nil (frame payload)))
      ∙ receive_header-frame payload []
      ∙ ap (λ q. some (encode_length (length payload % 2 ^ 32), q)) (append-nil payload)

  receive_whole_body :
      (n : ℕ) (payload : Bytes) → n ≡ length payload → receive_body n payload ≡ some (payload, [])
  receive_whole_body n payload e =
      ap (λ q. receive_body q payload) e
      ∙ ap (receive_body (length payload)) (sym (append-nil payload))
      ∙ receive_body-append payload []

  -- The six steps of a chunk.
  write_step :
      (c : Client double) (s : Session) (buffers : List Bytes)
      → c.operations_stopped ≡ false
      → advance double clock (world double (record c { waiting = writing buffers }) s [] [])
        ≡ world double (record c { waiting = reading_header }) s (flatten buffers) []
  unfolding advance on_written
  write_step c s buffers running =
      let c' = record c { waiting = writing buffers } in
      let next = record c { waiting = reading_header } in
      ap (λ q. world double (if q then c' else (if q then c' else next)) s (flatten buffers) [])
        running

  server_header_step :
      (c : Client double) (buffer payload : Bytes)
      → advance double clock (
          world double
            (record c { waiting = reading_header })
            (at_header buffer)
            (frame payload)
            [])
        ≡ world double
            (record c { waiting = reading_header })
            (Server.on_header (done (encode_length (length payload % 2 ^ 32))) (at_header buffer))
            payload
            []
  unfolding advance receive_header
  server_header_step c buffer payload =
      let c' = record c { waiting = reading_header } in
      ap (λ q. server_header double clock q (world double c' (at_header buffer) (frame payload) []))
        (receive_whole_header payload)

  server_body_step :
      (c : Client double) (buffer payload : Bytes)
      → length buffer ≡ length payload
      → advance double clock
          (world double (record c { waiting = reading_header }) (at_body buffer) payload [])
        ≡ world double
            (record c { waiting = reading_header })
            (record {
              pending = Server.Pending.writing (prepare_message (reverse payload));
              read_body_buffer = reverse payload;
            })
            []
            []
  unfolding advance receive_header
  server_body_step c buffer payload e =
      let c' = record c { waiting = reading_header } in
      ap (λ q. server_body double clock q (world double c' (at_body buffer) payload []))
        (receive_whole_body (length buffer) payload e)
      ∙ ap (λ q. world double c' q [] []) (on_body_whole buffer payload e)

  server_write_step :
      (c : Client double) (answer : Bytes)
      → advance double clock (
          world double
            (record c { waiting = reading_header })
            (record {
              pending = Server.Pending.writing (prepare_message answer);
              read_body_buffer = answer;
            })
            []
            [])
        ≡ world double (record c { waiting = reading_header }) (at_header answer) [] (frame answer)
  unfolding advance receive_header Server.on_written
  server_write_step c answer = refl

  client_header_fits :
      (c : Client double) (header : Header)
      → c.operations_stopped ≡ false
      → 0 < parse_header header
      → parse_header header ≤ chunk_size * 2
      → on_header double clock (done header) c ≡ record c {
        waiting = reading_body;
        read_body_buffer = resize (parse_header header) c.read_body_buffer;
      }
  unfolding on_header
  client_header_fits c header running some_body fits =
      let within : ltb (chunk_size * 2) (parse_header header) ≡ false = ground arith in
      let full : (parse_header header == 0) ≡ false = ground arith in
      simp (running, within, full, if◌then◌else◌) refl

  client_header_step :
      (c : Client double) (s : Session) (answer : Bytes)
      → c.operations_stopped ≡ false
      → 0 < length answer
      → length answer ≤ chunk_size * 2
      → let h = encode_length (length answer % 2 ^ 32) in
        advance double clock
          (world double (record c { waiting = reading_header }) s [] (frame answer))
        ≡ world double
            (record c {
              waiting = reading_body;
              read_body_buffer = resize (parse_header h) c.read_body_buffer;
            })
            s
            []
            answer
  unfolding advance
  client_header_step c s answer running some_body fits =
      let h = encode_length (length answer % 2 ^ 32) in
      let size : parse_header h ≡ length answer = parse_frame answer (omega (arith, fits)) in
      let c' = record c { waiting = reading_header } in
      ap (λ q. client_header double clock q (world double c' s [] (frame answer)))
        (receive_whole_header answer)
      ∙ ap (λ q. world double q s [] answer)
          (client_header_fits c' h running (omega (arith, size)) (omega (arith, size)))

  client_body_step :
      (c : Client double) (s : Session) (buffer answer : Bytes)
      → c.operations_stopped ≡ false
      → length buffer ≡ length answer
      → advance double clock (
          world double (record c { waiting = reading_body; read_body_buffer = buffer }) s [] answer)
        ≡ world double
            (handle_received_chunk_data double clock
              (record c { waiting = reading_body; read_body_buffer = answer }))
            s
            []
            []
  unfolding advance on_body
  client_body_step c s buffer answer running e =
      let c' = record c { waiting = reading_body; read_body_buffer = buffer } in
      let next =
        handle_received_chunk_data double clock
          (record c { waiting = reading_body; read_body_buffer = answer }) in
      let whole : (length answer == length buffer) ≡ true =
        ap (λ q. length answer == q) e ∙ ==_refl (length answer) in
      let stopped = stop_client_operations double clock true c' in
      ap (λ q. client_body double clock q (world double c' s [] answer))
        (receive_whole_body (length buffer) answer e)
      ∙ ap
          (λ q.
            world double
              (if q then c' else (if not (length answer == length buffer) then stopped else next)) s
              [] [])
          running
      ∙ ap (λ q. world double (if not q then stopped else next) s [] []) whole

  -- A chunk's way to the server and back.
  pub round_trip :
      (fuel : ℕ) (c : Client double) (buffer chunk : Bytes)
      → c.operations_stopped ≡ false
      → 0 < length chunk
      → length chunk ≤ chunk_size * 2
      → exchange double clock (suc (suc (suc (suc (suc (suc fuel)))))) (
          world double
            (record c { waiting = writing (prepare_message chunk) })
            (at_header buffer)
            []
            [])
        ≡ exchange double clock fuel (
            world double
              (handle_received_chunk_data double clock
                (record c { waiting = reading_body; read_body_buffer = reverse chunk }))
              (at_header (reverse chunk))
              []
              [])
  unfolding exchange
  round_trip fuel c buffer chunk running some_body fits =
      let h = encode_length (length chunk % 2 ^ 32) in
      let k = encode_length (length (reverse chunk) % 2 ^ 32) in
      let size : parse_header h ≡ length chunk = parse_frame chunk (omega (arith, fits)) in
      let answer = reverse chunk in
      let same : length answer ≡ length chunk = length-reverse chunk in
      let reading = record c { waiting = reading_header } in
      let size' : parse_header k ≡ length answer = parse_frame answer (omega (arith, same, fits)) in
      ap (λ w. exchange double clock (suc (suc (suc (suc (suc fuel))))) w)
        (write_step c (at_header buffer) (prepare_message chunk) running)
      ∙ ap (λ w. exchange double clock (suc (suc (suc (suc fuel)))) w)
          (server_header_step c buffer chunk)
      ∙ ap
          (λ s.
            exchange double clock (suc (suc (suc (suc fuel)))) (world double reading s chunk []))
          (on_header_fits h buffer (omega (arith, size)) (omega (arith, size)))
      ∙ ap (λ w. exchange double clock (suc (suc (suc fuel))) w)
          (server_body_step c (resize (parse_header h) buffer) chunk
            (length-resize (parse_header h) buffer ∙ size))
      ∙ ap (λ w. exchange double clock (suc (suc fuel)) w) (server_write_step c answer)
      ∙ ap (λ w. exchange double clock (suc fuel) w)
          (client_header_step c (at_header answer) answer running (omega (arith, same))
            (omega (arith, same)))
      ∙ ap (λ w. exchange double clock fuel w)
          (client_body_step c (at_header answer) (resize (parse_header k) c.read_body_buffer) answer
            running (length-resize (parse_header k) c.read_body_buffer ∙ size'))
