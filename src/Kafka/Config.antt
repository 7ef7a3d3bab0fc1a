-- ===== src/Kafka/Config.antt =====
-- The configuration of Kafka (kafkamq/config_sarama.go). Durations are numbers of milliseconds,
-- callbacks stand for whether they are set, and a version is what ParseKafkaVersion makes of its text.
pub mod Fields
pub mod Known
use kmq_utils.Prelude.{
  Bool, true, false, ◌||◌, String, Option, none, some, List, [], ◌∷◌, str_eq, if◌then◌else◌,
}
use kmq_utils.Prelude.Int.{ℤ, pos, negsuc}
use kmq_utils.KList.{KList}
use kmq_utils.Kafka.Topics.{Topic, offset_newest}

pub record NetConfig : Type 0 where
  pub max_open_requests : ℤ
  pub dial_timeout : ℤ
  pub read_timeout : ℤ
  pub write_timeout : ℤ
  pub keep_alive : ℤ
  pub resolve_host : Bool

pub record ConsumerConfig : Type 0 where
  pub max_processing_time : ℤ
  pub min : ℤ
  pub max : ℤ
  pub fetch : ℤ
  pub max_wait_time : ℤ
  pub initial_offset : ℤ
  pub auto_commit : String
  pub auto_commit_interval : ℤ
  pub return_error : Bool
  pub assignor : String
  pub heartbeat_interval : ℤ
  pub rebalance_timeout : ℤ
  pub session_timeout : ℤ
  pub has_handler : Bool

pub record ProducerConfig : Type 0 where
  pub compression : String
  pub compression_level : ℤ
  pub max_message_bytes : ℤ
  pub required_acks : String
  pub idempotent : Bool
  pub return_ack : Bool
  pub return_error : Bool
  pub flush_messages : ℤ
  pub flush_frequency : ℤ
  pub flush_max_messages : ℤ
  pub retry_max : ℤ
  pub timeout : ℤ

-- The library's names for what the configuration chooses.
pub data Strategy : Type 0 where
  sticky round_robin range : Strategy

pub data Codec : Type 0 where
  codec_none codec_gzip codec_snappy codec_lz4 codec_zstd : Codec

pub data Acks : Type 0 where
  no_response wait_for_local wait_for_all : Acks

unfoldable pub new_net : NetConfig
new_net = record {
  max_open_requests = pos 5;
  dial_timeout = pos 30000;
  read_timeout = pos 120000;
  write_timeout = pos 10000;
  keep_alive = pos 30000;
  resolve_host = false;
}

unfoldable pub new_consumer : ConsumerConfig
new_consumer = record {
  max_processing_time = pos 100;
  min = pos 100;
  max = pos 500;
  fetch = pos 200;
  max_wait_time = pos 250;
  initial_offset = offset_newest;
  auto_commit = "native";
  auto_commit_interval = pos 5000;
  return_error = false;
  assignor = "range";
  heartbeat_interval = pos 5000;
  rebalance_timeout = pos 60000;
  session_timeout = pos 240000;
  has_handler = false;
}

unfoldable pub new_producer : ProducerConfig
new_producer = record {
  compression = "snappy";
  compression_level = negsuc 999;
  max_message_bytes = pos 104857600;
  required_acks = "none";
  idempotent = false;
  return_ack = false;
  return_error = false;
  flush_messages = pos 100;
  flush_frequency = pos 1000;
  flush_max_messages = pos 10000;
  retry_max = pos 3;
  timeout = pos 10000;
}

-- Setters of the consumer.
unfoldable pub set_fetch : ℤ → ℤ → ℤ → ℤ → ConsumerConfig → ConsumerConfig
set_fetch low high val wait c = record c {
  min = low;
  max = high;
  fetch = val;
  max_wait_time = wait;
}

unfoldable pub set_initial_offset : ℤ → ConsumerConfig → ConsumerConfig
set_initial_offset o c = record c { initial_offset = o }

unfoldable pub native_auto_commit : ℤ → ConsumerConfig → ConsumerConfig
native_auto_commit interval c = record c { auto_commit = "native"; auto_commit_interval = interval }

unfoldable pub disable_auto_commit : ConsumerConfig → ConsumerConfig
disable_auto_commit c = record c { auto_commit = "none"; auto_commit_interval = pos 1000 }

unfoldable pub set_assignor : String → ConsumerConfig → ConsumerConfig
set_assignor a c = record c {
  assignor =
      if str_eq a "sticky" || (str_eq a "roundrobin" || str_eq a "range") then a else "range";
}

unfoldable pub get_assignor : ConsumerConfig → Option Strategy
get_assignor c =
    if str_eq c.assignor "sticky"
    then some sticky
    else if str_eq c.assignor "roundrobin"
    then some round_robin
    else if str_eq c.assignor "range"
    then some range
    else none

-- Setters of the producer.
abbrev is_codec : String → Bool
is_codec s =
    str_eq s "none"
    || (str_eq s "gzip" || (str_eq s "snappy" || (str_eq s "lz4" || str_eq s "zstd")))

unfoldable pub set_compression : String → ℤ → ProducerConfig → ProducerConfig
set_compression s level c = record c {
  compression = if is_codec s then s else "none";
  compression_level = if is_codec s then level else negsuc 999;
}

unfoldable pub get_compression : ProducerConfig → Codec
get_compression c =
    if str_eq c.compression "none"
    then codec_none
    else if str_eq c.compression "gzip"
    then codec_gzip
    else if str_eq c.compression "snappy"
    then codec_snappy
    else if str_eq c.compression "lz4"
    then codec_lz4
    else if str_eq c.compression "zstd"
    then codec_zstd
    else codec_none

unfoldable pub set_required_acks : String → ProducerConfig → ProducerConfig
set_required_acks s c = record c {
  required_acks = if str_eq s "none" || (str_eq s "local" || str_eq s "all") then s else "none";
}

unfoldable pub get_required_acks : ProducerConfig → Acks
get_required_acks c =
    if str_eq c.required_acks "none"
    then no_response
    else if str_eq c.required_acks "local"
    then wait_for_local
    else if str_eq c.required_acks "all"
    then wait_for_all
    else no_response

unfoldable pub set_flush : ℤ → ℤ → ℤ → ProducerConfig → ProducerConfig
set_flush limit high frequency c = record c {
  flush_messages = limit;
  flush_frequency = frequency;
  flush_max_messages = high;
}

unfoldable pub set_return : Bool → Bool → ProducerConfig → ProducerConfig
set_return ack error c = record c { return_ack = ack; return_error = error }
