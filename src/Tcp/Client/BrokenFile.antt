-- ===== src/Tcp/Client/BrokenFile.antt =====
-- What the TCP client makes of a read of its file that fails.
use grpccapnp.Base.{◌<◌, ◌≡◌, true, false, some, arith, length}
use grpccapnp.Common.Double.{Double}
use grpccapnp.Common.Stream.{good}
use grpccapnp.Tcp.ChunkReader.{read_next_chunk, eof}
use grpccapnp.Tcp.Metrics.Records.{stop_timer-Same}
use grpccapnp.Tcp.Client.{Clock, Client, stop_client_operations, send_chunk, send_next_chunk}

module _ (double : Double) (clock : Clock) where
  -- Where chunks are still to be sent and the device fails before it delivers the next one, the
  -- client says that no error occurred, though it has sent no more chunks than before and its
  -- aggregator has recorded none.
  pub failed_read_finished :
      (c : Client double)
      → c.operations_stopped ≡ false
      → c.chunks_sent < c.total_chunks_to_send
      → c.chunk_reader.eof_flag ≡ false
      → c.chunk_reader.file_stream.is_open ≡ true
      → good c.chunk_reader.file_stream ≡ true
      → c.chunk_reader.file_stream.broken ≡ true
      → length c.chunk_reader.file_stream.rest < c.chunk_reader.chunk_size
      → let c' = send_next_chunk double clock c in
        (c'.finished ≡ some false)
        × (c'.chunks_sent ≡ c.chunks_sent)
        × (c'.metrics.chunk_rtt_data ≡ c.metrics.chunk_rtt_data)
        × (c'.chunks_sent < c'.total_chunks_to_send)
  unfolding send_next_chunk send_chunk stop_client_operations eof read_next_chunk
  failed_read_finished c running left goes_on is_open is_good broken short =
      ground (arith, stop_timer-Same double clock.at_stop c.metrics)
