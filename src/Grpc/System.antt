-- ===== src/Grpc/System.antt =====
-- src/grpc_app/grpc_client.cpp: the state of `ProcessFile`, its threads and its stream, and the messages
-- that it logs.
use grpccapnp.Base.{ℕ, Bytes, List, Bool, String}
use grpccapnp.Base.Int.{ℤ}
use grpccapnp.Common.ChunkReader.{ChunkReader, Failure}
use grpccapnp.Common.Metrics.{MetricsAggregator}
use grpccapnp.Grpc.Server.{ChunkRequest, ChunkResponse, Status}
use grpccapnp.Grpc.Client.Inflight.{SentChunkInfo, InflightMap}

-- The messages that the client logs, with the numbers of their text.
pub data Message : Type 0 where
  stream_not_created empty_chunk_before_eof : Message
  exception : Failure → Message
  writer_thread_exception read_loop_exception : (what : String) → Message
  no_such_request : (client_id received map_size : ℕ) → Message
  size_mismatch : (client_id expected got : ℕ) → Message
  content_mismatch : (client_id : ℕ) → Message
  requests_remaining : (number : ℕ) → Message
  rpc_failed : Status → Message
  data_loss : (verified expected : ℕ) → Message

abbrev pub max_inflight_requests : ℕ
max_inflight_requests = 2000

-- Where the writer stands: before the wait on the condition variable, before the read of the file,
-- before `Write`, between `Write` and the insertion into the map, behind the loop, before
-- `WritesDone`, and at its end.
pub data Writer : Type 0 where
  waiting reading : Writer
  writing recording : SentChunkInfo → Writer
  leaving closing ended : Writer

-- Where the reader stands: before `Read`, with a response before the map is searched, with a
-- response and its request, before the join, behind it, and at the end of `ProcessFile`.
pub data Reader : Type 0 where
  receiving : Reader
  matching : ChunkResponse → Reader
  verifying : SentChunkInfo → ChunkResponse → Reader
  joining finishing returned : Reader

pub data Server : Type 0 where
  serving : Server
  done : Status → Server

-- The stream: requests on their way to the server, responses on their way to the client, whether
-- `WritesDone` was called, and whether the stream has broken.
pub record Stream : Type 0 where
  pub requests : List ChunkRequest
  pub responses : List ChunkResponse
  pub writes_done : Bool
  pub broken : Bool

pub record System : Type 0 where
  pub writer : Writer
  pub reader : Reader
  pub server : Server
  pub stream : Stream
  pub file : ChunkReader
  pub inflight_requests_map : InflightMap
  pub client_chunk_id_counter : ℕ
  pub total_chunks_actually_sent_by_writer : ℕ
  pub writer_thread_finished_sending : Bool
  pub writer_stream_broken : Bool
  pub received_responses_count : ℕ
  pub total_bytes_verified_payload_by_reader : ℕ
  pub metrics : MetricsAggregator Message

-- What the run depends on beyond its state.
pub record World : Type 0 where
  pub byte_size : Bytes → ℕ → ℕ
  pub rtt_us : ℕ → ℤ
  pub duration_ms : ℤ
  -- `ACTUAL_FILE_SIZE_BYTES`
  pub expected : ℕ

-- Who moves: a thread, or the network, by breaking the stream.
pub data Action : Type 0 where
  writer_moves reader_moves server_moves stream_breaks : Action
