-- ===== src/Kafka.antt =====
-- The clients of Kafka (kafkamq/): the configuration, the producer and the consumer.
pub mod Config
pub mod Consumer
pub mod Kerberos
pub mod Options
pub mod Producer
pub mod Session
pub mod Settings
pub mod Topics
