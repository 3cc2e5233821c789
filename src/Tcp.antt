-- ===== src/Tcp.antt =====
-- GO++PROJECT/src/cpp_tcp_benchmark: the benchmark over plain TCP.
pub mod Config
pub mod Reversal
pub mod Messaging
pub mod Server
pub mod ChunkReader
pub mod TestFile
pub mod Metrics
pub mod Client
mod Tests
