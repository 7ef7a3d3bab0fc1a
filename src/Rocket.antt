-- ===== src/Rocket.antt =====
-- The clients of RocketMQ (rocketmq/): the configuration, the producer and the two consumers.
pub mod Config
pub mod Inbox
pub mod Options
pub mod Producer
pub mod Pull
pub mod Push
pub mod Removal
