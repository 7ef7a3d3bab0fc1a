-- ===== src/Kafka/Config/Fields.antt =====
-- The setters of a single field of the network, consumer and producer settings
-- (kafkamq/config_sarama.go).
use kmq_utils.Prelude.{Bool}
use kmq_utils.Prelude.Int.{ℤ}
use kmq_utils.Kafka.Config.{NetConfig, ConsumerConfig, ProducerConfig}

unfoldable pub set_dial_timeout : ℤ → NetConfig → NetConfig
set_dial_timeout x c = record c { dial_timeout = x }

unfoldable pub set_read_timeout : ℤ → NetConfig → NetConfig
set_read_timeout x c = record c { read_timeout = x }

unfoldable pub set_write_timeout : ℤ → NetConfig → NetConfig
set_write_timeout x c = record c { write_timeout = x }

unfoldable pub set_max_open_requests : ℤ → NetConfig → NetConfig
set_max_open_requests x c = record c { max_open_requests = x }

unfoldable pub set_keep_alive : ℤ → NetConfig → NetConfig
set_keep_alive x c = record c { keep_alive = x }

unfoldable pub set_resolve_host : Bool → NetConfig → NetConfig
set_resolve_host x c = record c { resolve_host = x }

unfoldable pub set_max_processing_time : ℤ → ConsumerConfig → ConsumerConfig
set_max_processing_time x c = record c { max_processing_time = x }

unfoldable pub set_return_error : Bool → ConsumerConfig → ConsumerConfig
set_return_error x c = record c { return_error = x }

unfoldable pub set_heartbeat_interval : ℤ → ConsumerConfig → ConsumerConfig
set_heartbeat_interval x c = record c { heartbeat_interval = x }

unfoldable pub set_rebalance_timeout : ℤ → ConsumerConfig → ConsumerConfig
set_rebalance_timeout x c = record c { rebalance_timeout = x }

unfoldable pub set_session_timeout : ℤ → ConsumerConfig → ConsumerConfig
set_session_timeout x c = record c { session_timeout = x }

unfoldable pub set_message_handler : Bool → ConsumerConfig → ConsumerConfig
set_message_handler x c = record c { has_handler = x }

unfoldable pub set_max_message_bytes : ℤ → ProducerConfig → ProducerConfig
set_max_message_bytes x c = record c { max_message_bytes = x }

unfoldable pub set_idempotent : Bool → ProducerConfig → ProducerConfig
set_idempotent x c = record c { idempotent = x }

unfoldable pub set_retry : ℤ → ProducerConfig → ProducerConfig
set_retry x c = record c { retry_max = x }

unfoldable pub set_timeout : ℤ → ProducerConfig → ProducerConfig
set_timeout x c = record c { timeout = x }
