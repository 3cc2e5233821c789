-- ===== src/Lib.antt =====
-- The benchmark that sends a file, chunk by chunk, to a server that reverses each chunk and sends it
-- back, once by gRPC, once by Cap'n Proto (both in src/) and once over plain TCP
-- (GO++PROJECT/src/cpp_tcp_benchmark/), modelled with its theorems.
--
-- The parts of the program and the files that model them:
--   * src/common/include/config.hpp: Common/Config, the constants by their names in lower case.
--   * src/common/include/reversal_utils.hpp: Common/Reversal.
--   * src/common/{include/file_utils.hpp,src/file_utils.cpp}: Common/ChunkReader (`class
--     ChunkReader`; the constructor is `make`, the destructor `destroy`, a method returns the reader
--     that it leaves) and Common/GenerateFile (`generate_test_file`). `std::ifstream` is described in
--     Common/Stream: what a read delivers and which bits it sets at the end of the file, at a failure
--     of the device and on a stream that is not good. Common/ChunkReader/Reading and WholeFile carry
--     the induction over a reading, and Guarantees says what a client relies on.
--   * src/common/{include/metrics_aggregator.hpp,src/metrics_aggregator.cpp}: Common/Metrics (the
--     state and the operations that change it), Metrics/Statistics (the private getters),
--     Metrics/Report (the two CSV files and the console summary, as rows). Common/Double is the
--     arithmetic of `double`, a parameter of which no law is assumed.
--   * src/capnp_app/capnp_server.cpp: Capnp/Server (the methods of the two capabilities) and
--     Server/Main (`main`: its set-up, the accept loop and the ends of its connections).
--   * src/capnp_app/capnp_client.cpp: Capnp/Client (`main`; the loop is `transfer`, its body `round`,
--     what comes from the `try` block on is `session`). Client/Judgement says what the answers of a
--     server amount to without running the client; Verdicts and Rounds carry the induction.
--   * src/benchmark.proto, src/grpc_app/grpc_server.cpp: Grpc/Server (`ProcessFileChunks`)
--     and Server/Main (`RunServer`, `main`).
--   * src/grpc_app/grpc_client.cpp: Grpc/Client (`GrpcFileClient::ProcessFile`): the writer
--     thread, the reader and the server's thread as states (Grpc/System), `act` the step of one of
--     them, `run` a schedule. Client/Inflight is `inflight_requests_map`. Agreement says which data
--     belong together (a request, its answer and its entry in the map), Balance where the bytes read
--     are, Clean what a run that logs nothing has come to; each is an invariant of `act`, with the
--     steps of the writer, the server and the reader in modules of their own. Bound, Hang and Race
--     are about the window of requests in flight, a break of the stream, and a response that comes
--     early (Race/Lost and Race/Forever: its request stays in the map; Race/Deadlock: this again and
--     again), Lockstep about rounds of all threads, and Fair, with a measure that every step lowers,
--     about any schedule that forgets no thread; Tally counts the responses that were dropped against
--     the entries left. Client/Faults adds
--     the exceptions that leave the loop of a thread (`happen`, `occur`). Client/Main is `main` and
--     the beginning of `ProcessFile`, before its threads start.
--   * GO++PROJECT/src/cpp_tcp_benchmark/ is under Tcp. It shares no code with the other two
--     programs; the model shares Common/Stream, Common/Double, the wrapping of a `size_t` and the
--     drawing of random bytes. Tcp/Config and Tcp/Reversal are the headers of those names;
--     Tcp/Messaging is common/include/tcp_messaging.hpp, with what an exact read delivers from a
--     stream of bytes in Messaging/Stream; Tcp/ChunkReader and Tcp/TestFile are
--     common/src/chunk_reader.cpp and common/src/file_utils.cpp; Tcp/Metrics, with Metrics/Report,
--     is the aggregator, and Metrics/ProcFiles its reading of /proc.
--   * server/tcp_server.cpp of that directory: Tcp/Server. A session is its buffer and the
--     operation that it waits for, and each completion handler (a lambda of the source) is a
--     function from the session and what the operation came to: `on_header`, `on_body`,
--     `on_written`, `on_accept`. Server/Connection runs a session on the bytes of a client;
--     Server/Bound lets any operation complete with anything, Server/Accepting runs the accept loop,
--     and Server/Main is the process: all sessions, the accept loop, the signal, and `main`.
--   * client/tcp_client.cpp of that directory: Tcp/Client, in the same way (`on_resolved`,
--     `on_connected`, `on_written`, `on_header`, `on_body`), and Client/Main, its `main`, with the ways
--     in which that ends in Main/Exit. An exception that leaves a handler is a client that is
--     `unwound`; `main` over too few completions is one whose `io_context.run()` has not returned.
--     Client/Progress says where the client stands in its file, Handlers what each handler makes of
--     it, and Outcomes what that comes to over any sequence of completions; Sending, Receiving and
--     Opening carry their lemmas. Client/Exchange joins a client and a session by the bytes that
--     each writes to the other, and EndToEnd runs them to the end. Client/BrokenFile is
--     about a failed read, Client/Stopped and Stopped/Once about when the client is stopped, and
--     Client/Rows about the file of chunk times.
-- The gRPC and the Cap'n Proto client use the chunk reader, the reversal and the aggregator of
-- Common, each with messages of its own; the Cap'n Proto server's `process_chunk`, the gRPC
-- server's `respond` and the TCP server's handlers are what the theorems on whole runs plug in as
-- the other side. Base holds the helpers that all parts share: Boolean tests, lists and bytes,
-- integers, the cutting of a list into chunks.
--
-- Bounds and fuel: a schedule of the gRPC client is a list of steps, of any length. A `size_t`
-- wraps at 2 ^ 64 where a counter is increased; sizes of files and buffers and the milliseconds
-- and microseconds of a clock do not wrap. Fuel bounds `generate_loop` and `write_file` (the
-- file's size and one more), `read_all` and `transfer` (more than the bytes of the file): each
-- round consumes a byte or is the last, as the theorems that return a result prove. `serve` takes
-- three steps for a message and three at the end, `exchange` six for a chunk and two to connect. A
-- TCP header holds a length below 2 ^ 32, which every chunk and every answer is far below.
--
-- Not modelled: what is only printed, except the two reports; the texts of messages (a message is a
-- constructor with its numbers); the RPC libraries, which are the answers of calls and a stream that
-- keeps its order, and the options of their channels; exceptions for want of memory elsewhere than in
-- the loops of the gRPC client's threads; and the TCP programs in Go
-- (GO++PROJECT/src/go_tcp_benchmark/).
mod Base
pub mod Common
pub mod Capnp
pub mod Grpc
pub mod Tcp
