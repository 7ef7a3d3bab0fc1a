-- ===== src/Kafka/Options.antt =====
-- What the Kafka clients hand to the library (kafkamq/pub.go, NewAsyncProducer, and kafkamq/sub.go,
-- NewConsumerGroup, up to the authentication). What is not set keeps the library's default, and is not
-- listed. An int becomes an int32 by its low 32 bits.
use kmq_utils.Prelude.{Bool, String, Option, none, some, str_eq, if◌then◌else◌}
use kmq_utils.Prelude.Int.{ℤ, to_int32}
use kmq_utils.KList.{KList}
use kmq_utils.Kafka.Topics.{Topic}
use kmq_utils.Kafka.Config.{
  NetConfig, Strategy, range, Codec, Acks, get_assignor, get_compression, get_required_acks,
}
use kmq_utils.Kafka.Settings.{Config}

pub record GroupOptions (V : Type 0) : Type 0 where
  pub version : V
  pub client_id : String
  pub channel_buffer_size : ℤ
  pub max_processing_time : ℤ
  pub fetch_min : ℤ
  pub fetch_max : ℤ
  pub fetch_default : ℤ
  pub max_wait_time : ℤ
  pub initial_offset : ℤ
  pub auto_commit : Option ℤ  -- enabled, with the interval
  pub return_errors : Bool
  pub strategy : Strategy
  pub rebalance_timeout : ℤ
  pub heartbeat_interval : ℤ
  pub session_timeout : ℤ
  pub net : NetConfig

pub record ProducerOptions (V : Type 0) : Type 0 where
  pub version : V
  pub client_id : String
  pub channel_buffer_size : ℤ
  pub net : NetConfig
  pub codec : Codec
  pub compression_level : ℤ
  pub max_message_bytes : ℤ
  pub acks : Acks
  pub idempotent : Bool
  pub return_errors : Bool
  pub return_successes : Bool
  pub flush_messages : ℤ
  pub flush_frequency : ℤ
  pub flush_max_messages : ℤ
  pub retry_max : ℤ
  pub timeout : ℤ

-- The strategy, which is range where GetAssignor answers nil.
or_range : Option Strategy → Strategy
or_range none = range
or_range (some s) = s

module _ {V : Type 0} {K : KList String} {T : KList Topic} where
  unfoldable pub group_options : Config V K T → GroupOptions V
  unfolding to_int32 get_assignor or_range
  group_options c = record {
    version = c.version;
    client_id = c.client_id;
    channel_buffer_size = c.channel_buffer_size;
    max_processing_time = c.consumer.max_processing_time;
    fetch_min = to_int32 c.consumer.min;
    fetch_max = to_int32 c.consumer.max;
    fetch_default = to_int32 c.consumer.fetch;
    max_wait_time = c.consumer.max_wait_time;
    initial_offset = c.consumer.initial_offset;
    auto_commit =
        if str_eq c.consumer.auto_commit "native"
        then some c.consumer.auto_commit_interval
        else none;
    return_errors = c.consumer.return_error;
    strategy = or_range (get_assignor c.consumer);
    rebalance_timeout = c.consumer.rebalance_timeout;
    heartbeat_interval = c.consumer.heartbeat_interval;
    session_timeout = c.consumer.session_timeout;
    net = c.net;
  }

  unfoldable pub producer_options : Config V K T → ProducerOptions V
  unfolding get_compression get_required_acks
  producer_options c = record {
    version = c.version;
    client_id = c.client_id;
    channel_buffer_size = c.channel_buffer_size;
    net = c.net;
    codec = get_compression c.producer;
    compression_level = c.producer.compression_level;
    max_message_bytes = c.producer.max_message_bytes;
    acks = get_required_acks c.producer;
    idempotent = c.producer.idempotent;
    return_errors = c.producer.return_error;
    return_successes = c.producer.return_ack;
    flush_messages = c.producer.flush_messages;
    flush_frequency = c.producer.flush_frequency;
    flush_max_messages = c.producer.flush_max_messages;
    retry_max = c.producer.retry_max;
    timeout = c.producer.timeout;
  }
