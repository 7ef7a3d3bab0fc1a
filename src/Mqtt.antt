-- ===== src/Mqtt.antt =====
-- The MQTT client (mqtt/config.go, mqtt/mqtt_client.go).
pub mod Config
pub mod Client
