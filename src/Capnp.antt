-- ===== src/Capnp.antt =====
-- src/capnp_app: the Cap'n Proto server and client.
pub mod Server
pub mod Client
mod Tests
