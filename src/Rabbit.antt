-- ===== src/Rabbit.antt =====
-- The RabbitMQ clients (rabbitmq/pub.go, rabbitmq/sub.go).
pub mod Producer
pub mod Consumer
