-- ===== src/Tcp/Client/Exchange.antt =====
-- The TCP client and a session of the server on one connection: what one writes, the other reads, in the
-- order of the bytes. The client's operations complete before the server's where both can.
pub mod Steps
use grpccapnp.Base.{
  ℕ, zero, suc, ◌+◌, ◌*◌, ◌^◌, ◌%◌, ◌≤◌, ◌<◌, ◌≡◌, refl, sym, ap, ◌∙◌, subst, inl, inr, Bytes, List,
  [], ◌∷◌, ◌++◌, Bool, true, false, not, ◌&&◌, ◌||◌, Option, none, some, arith, length, append-nil,
  flatten, reverse, length-reverse, ltb, ◌==◌, ==_refl, Bool-cases, if◌then◌else◌,
}
use grpccapnp.Common.Double.{Double}
use grpccapnp.Tcp.Config.{chunk_size}
use grpccapnp.Tcp.Messaging.{Header, encode_length, prepare_message, parse_header}
use grpccapnp.Tcp.Messaging.Stream.{
  receive_header, receive_body, frame, receive_header-frame, receive_body-append, parse_frame,
}
use grpccapnp.Tcp.Server
use grpccapnp.Tcp.Server.{ErrorCode, Outcome, done, failed, Session, resize}
use grpccapnp.Tcp.Server.Answers.{length-resize, at_header, at_body, on_header_fits, on_body_whole}
use grpccapnp.Tcp.Client.{
  Waiting, resolving, connecting, reading_header, reading_body, writing, nothing, unwound, Clock,
  Client, on_resolved, on_connected, on_written, on_header, on_body, stop_client_operations,
  handle_received_chunk_data,
}

pub record World (double : Double) : Type 0 where
  pub client : Client double
  pub session : Session
  pub to_server : Bytes
  pub to_client : Bytes

module _ (double : Double) where
  abbrev pub world : Client double → Session → Bytes → Bytes → World double
  world c s a b = record { client = c; session = s; to_server = a; to_client = b }

module _ (double : Double) (clock : Clock) where
  server_header : Option (Header × Bytes) → World double → World double
  server_header none w = w
  server_header (some (header, rest)) w = record w {
    session = Server.on_header (done header) w.session;
    to_server = rest;
  }

  server_body : Option (Bytes × Bytes) → World double → World double
  server_body none w = w
  server_body (some (body, rest)) w = record w {
    session = Server.on_body (done body) w.session;
    to_server = rest;
  }

  -- A step of the server. `at_end` is the client that finds the connection closed.
  serve_step : Client double → World double → World double
  unfolding server_header server_body
  serve_step at_end w = elim w.session.pending [
    | Server.Pending.reading_header ↦ server_header (receive_header w.to_server) w
    | Server.Pending.reading_body ↦
        server_body (receive_body (length w.session.read_body_buffer) w.to_server) w
    | Server.Pending.writing buffers ↦ record w {
      session = Server.on_written (done tt) w.session;
      to_client = w.to_client ++ flatten buffers;
    }
    | Server.Pending.closed ↦ record w { client = at_end }
  ]

  client_header : Option (Header × Bytes) → World double → World double
  unfolding serve_step
  client_header none w = serve_step (on_header double clock (failed ErrorCode.eof) w.client) w
  client_header (some (header, rest)) w = record w {
    client = on_header double clock (done header) w.client;
    to_client = rest;
  }

  client_body : Option (Bytes × Bytes) → World double → World double
  unfolding serve_step
  client_body none w = serve_step (on_body double clock (failed ErrorCode.eof) w.client) w
  client_body (some (body, rest)) w = record w {
    client = on_body double clock (done body) w.client;
    to_client = rest;
  }

  unfoldable pub advance : World double → World double
  unfolding client_header client_body
  advance w = elim w.client.waiting [
    | resolving ↦ record w { client = on_resolved double clock (done tt) w.client }
    | connecting ↦ record w { client = on_connected double clock (done true) w.client }
    | writing buffers ↦ record w {
      client = on_written double clock (done tt) w.client;
      to_server = w.to_server ++ flatten buffers;
    }
    | reading_header ↦ client_header (receive_header w.to_client) w
    | reading_body ↦ client_body (receive_body (length w.client.read_body_buffer) w.to_client) w
    | nothing ↦ w
    | unwound ↦ w
  ]

  unfoldable pub exchange : ℕ → World double → World double
  unfolding advance
  exchange zero w = w
  exchange (suc fuel) w = exchange fuel (advance w)
