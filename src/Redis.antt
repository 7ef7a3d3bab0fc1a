-- ===== src/Redis.antt =====
-- The clients of Redis (redismq/): the configuration, the toolkit over
-- one server or a cluster, the publisher and the subscriber.
pub mod Config
pub mod Publisher
pub mod Subscriber
pub mod Toolkit
