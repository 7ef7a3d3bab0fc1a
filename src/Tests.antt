-- ===== src/Tests.antt =====
-- Runs of the models on small inputs.
mod JetStream
mod Kafka
mod KafkaConsumer
mod Mqtt
mod Nats
mod Rabbit
mod Redis
mod Rocket
mod RocketConsumer
