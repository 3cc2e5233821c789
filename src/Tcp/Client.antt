-- ===== src/Tcp/Client.antt =====
-- GO++PROJECT/src/cpp_tcp_benchmark/client/tcp_client.cpp: `class TCPClient`. The client is its members
-- and the operation that it waits for; a completion handler is a function from the client and what the
-- operation came to. `Clock` is what a handler is told when it starts the timer, records a round trip,
-- starts one, and stops the timer.
pub mod Progress
pub mod Sending
pub mod Receiving
pub mod Opening
pub mod Handlers
pub mod Outcomes
pub mod Rows
pub mod BrokenFile
pub mod Stopped
pub mod Exchange
pub mod EndToEnd
pub mod Main
mod Tests
use grpccapnp.Base.{
  ℕ, ◌+◌, ◌*◌, Bytes, List, [], Bool, true, false, not, ◌&&◌, ◌||◌, Option, none, some, ltb, leb,
  ◌==◌, length, is_empty, bytes_eq, reverse, if◌then◌else◌,
}
use grpccapnp.Common.Double.{Double}
use grpccapnp.Common.Metrics.{u64}
use grpccapnp.Tcp.Reversal.{get_reversed_vector_content}
use grpccapnp.Tcp.Config.{chunk_size}
use grpccapnp.Tcp.Messaging.{Header, prepare_message, parse_header}
use grpccapnp.Tcp.ChunkReader.{ChunkReader, read_next_chunk, eof}
use grpccapnp.Tcp.Metrics.{
  Moment, MetricsAggregator, start_timer, stop_timer, start_chunk_rtt_timer,
  stop_and_record_chunk_rtt, record_chunk_verified,
}
use grpccapnp.Tcp.Server.{ErrorCode, operation_aborted, other, Outcome, done, failed, resize}

-- The operation that the client waits for. A write carries its buffers. `unwound` is a client whose
-- handler an exception has left, and with it `io_context.run()`.
pub data Waiting : Type 0 where
  resolving connecting reading_header reading_body nothing unwound : Waiting
  writing : List Bytes → Waiting

pub record Clock : Type 0 where
  pub at_connect : Moment
  pub at_record : Moment
  pub at_start : Moment
  pub at_stop : Moment

pub record Client (double : Double) : Type 0 where
  pub waiting : Waiting
  pub metrics : MetricsAggregator double
  pub chunk_reader : ChunkReader
  pub current_chunk_data : Bytes
  pub expected_reversed_chunk : Bytes
  pub read_body_buffer : Bytes
  pub chunks_sent : ℕ
  pub total_chunks_to_send : ℕ
  pub timer_stopped_flag : Bool
  pub operations_stopped : Bool
  pub socket_open : Bool
  pub io_stopped : Bool
  -- what the client has said at its end: whether an error occurred
  pub finished : Option Bool

module _ (double : Double) where
  -- The constructor, and `start`, which waits for the resolver. The socket is not yet open.
  unfoldable pub make : ChunkReader → MetricsAggregator double → Client double
  make reader metrics = record {
    waiting = resolving;
    metrics = metrics;
    chunk_reader = reader;
    current_chunk_data = [];
    expected_reversed_chunk = [];
    read_body_buffer = [];
    chunks_sent = 0;
    total_chunks_to_send =
        if ltb 0 reader.file_size && reader.total_chunks == 0 && reader.chunks_read_count == 0
        then 1
        else (if reader.file_size == 0 then 0 else reader.total_chunks);
    timer_stopped_flag = false;
    operations_stopped = false;
    socket_open = false;
    io_stopped = false;
    finished = none;
  }

  -- Closing the socket and stopping the context abort whatever was waited for.
  unfoldable pub stop_client_operations : Clock → Bool → Client double → Client double
  stop_client_operations clock error_occurred c =
      let metrics =
        if c.timer_stopped_flag then c.metrics else stop_timer double clock.at_stop c.metrics in
      if c.operations_stopped then c else record c {
        waiting = nothing;
        metrics = metrics;
        timer_stopped_flag = true;
        operations_stopped = true;
        socket_open = false;
        io_stopped = true;
        finished = some error_occurred;
      }

  -- From the read of a chunk on.
  send_chunk : Clock → Client double → Bytes → Client double
  unfolding stop_client_operations record_chunk_verified get_reversed_vector_content
  send_chunk clock c chunk =
      if is_empty chunk && not (eof c.chunk_reader)
      then stop_client_operations clock true
          (record c { metrics = record_chunk_verified double false c.metrics })
      else (if is_empty chunk && eof c.chunk_reader
          then stop_client_operations clock false c
          else record c {
            waiting = writing (prepare_message chunk);
            expected_reversed_chunk = get_reversed_vector_content chunk;
            metrics = start_chunk_rtt_timer double clock.at_start c.metrics;
          })

  unfoldable pub send_next_chunk : Clock → Client double → Client double
  unfolding send_chunk
  send_next_chunk clock c =
      let (reader, chunk) = read_next_chunk c.chunk_reader in
      if c.operations_stopped
      then c
      else (if leb c.total_chunks_to_send c.chunks_sent || eof c.chunk_reader
          then stop_client_operations clock false c
          else send_chunk clock (record c { chunk_reader = reader; current_chunk_data = chunk })
              chunk)

  unfoldable pub handle_received_chunk_data : Clock → Client double → Client double
  unfolding send_next_chunk
  handle_received_chunk_data clock c =
      let verified = bytes_eq c.read_body_buffer c.expected_reversed_chunk in
      let c₁ = record c {
        metrics =
            stop_and_record_chunk_rtt double clock.at_record (length c.current_chunk_data) verified
              c.metrics;
      } in
      let c₂ = record c₁ { chunks_sent = u64 (c.chunks_sent + 1) } in
      if c.operations_stopped
      then c
      else (if not verified
          then stop_client_operations clock true c₁
          else (if leb c.total_chunks_to_send c₂.chunks_sent || eof c.chunk_reader
              then stop_client_operations clock false c₂
              else send_next_chunk clock c₂))

  -- The handlers of the resolver, of the connection, of a write, of a header and of a body. A connection
  -- comes with what its `remote_endpoint()` does: it throws if the peer is known no more.
  unfoldable pub on_resolved : Clock → Outcome (Unit {0}) → Client double → Client double
  on_resolved clock (failed ec) c = stop_client_operations clock true c
  on_resolved clock (done _) c = record c { waiting = connecting }

  unfoldable pub on_connected : Clock → Outcome Bool → Client double → Client double
  on_connected clock (failed ec) c = stop_client_operations clock true c
  on_connected clock (done false) c = record c { waiting = unwound; socket_open = true }
  on_connected clock (done true) c =
      send_next_chunk clock
        (record c { socket_open = true; metrics = start_timer double clock.at_connect c.metrics })

  abbrev do_read_header : Client double → Client double
  do_read_header c = if c.operations_stopped then c else record c { waiting = reading_header }

  abbrev do_read_body : Client double → Client double
  do_read_body c = if c.operations_stopped then c else record c { waiting = reading_body }

  unfoldable pub on_written : Clock → Outcome (Unit {0}) → Client double → Client double
  on_written clock (failed ec) c =
      if c.operations_stopped then c else stop_client_operations clock true c
  on_written clock (done _) c = if c.operations_stopped then c else do_read_header c

  unfoldable pub on_header : Clock → Outcome Header → Client double → Client double
  on_header clock (failed ErrorCode.eof) c =
      if c.operations_stopped
      then c
      else stop_client_operations clock (ltb c.chunks_sent c.total_chunks_to_send) c
  on_header clock (failed operation_aborted) c =
      if c.operations_stopped then c else stop_client_operations clock true c
  on_header clock (failed other) c =
      if c.operations_stopped then c else stop_client_operations clock true c
  on_header clock (done header) c =
      let body_length = parse_header header in
      let c' = record c { read_body_buffer = resize body_length c.read_body_buffer } in
      if c.operations_stopped
      then c
      else (if ltb (chunk_size * 2) body_length
          then stop_client_operations clock true c
          else (if body_length == 0 then handle_received_chunk_data clock c' else do_read_body c'))

  -- For the bytes read into the buffer.
  unfoldable pub on_body : Clock → Outcome Bytes → Client double → Client double
  on_body clock (failed ec) c =
      if c.operations_stopped then c else stop_client_operations clock true c
  on_body clock (done body) c =
      if c.operations_stopped
      then c
      else (if not (length body == length c.read_body_buffer)
          then stop_client_operations clock true c
          else handle_received_chunk_data clock (record c { read_body_buffer = body }))
