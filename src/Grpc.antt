-- ===== src/Grpc.antt =====
-- src/grpc_app: the gRPC server and client.
pub mod Server
pub mod System
pub mod Client
mod Tests
