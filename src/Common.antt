-- ===== src/Common.antt =====
-- src/common: what the gRPC and the Cap'n Proto programs share.
pub mod Config
pub mod Reversal
pub mod Stream
pub mod ChunkReader
pub mod GenerateFile
pub mod Double
pub mod Formulas
pub mod Metrics
mod Tests
