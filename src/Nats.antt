-- ===== src/Nats.antt =====
-- The clients of NATS (natsmq/): the configuration and the core client.
pub mod Config
pub mod Connect
pub mod Core
pub mod JetStream
pub mod Sender
pub mod Setup
pub mod Stream
