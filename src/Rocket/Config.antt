-- ===== src/Rocket/Config.antt =====
-- The configuration of RocketMQ (rocketmq/config.go): the settings of a consumer, of a producer and
-- of both. Interceptors and callbacks stand for whether they are set; a queue selector is a number.
-- A removal that panics is `none`; see Removal.
pub mod RoundTrip
use kmq_utils.Prelude.{ℕ, Bool, false, String, Option, none, some, List, [], ◌∷◌, ◌++◌}
use kmq_utils.Prelude.Int.{ℤ, pos}
use kmq_utils.Rocket.Removal.{remove_item}

pub data Mode : Type 0 where
  broad_casting clustering : Mode

pub data Offset : Type 0 where
  from_last from_first from_timestamp : Offset

pub record ConsumerConfig : Type 0 where
  pub topics : List String
  pub mode : Mode
  pub offset : Offset
  pub timestamp : String
  pub order : Bool
  pub auto_commit : String
  pub batch_max_size : ℤ
  pub max_reconsume_times : ℤ
  pub has_handler : Bool

pub record ProducerConfig : Type 0 where
  pub topics : List String
  pub timeout : ℤ
  pub retry : ℤ
  pub queue_selector : ℕ
  pub async_send : Bool

pub record Credentials : Type 0 where
  pub access_key : String
  pub secret_key : String

pub record Config : Type 0 where
  pub ns_resolver : Bool
  pub servers : List String
  pub group_name : String
  pub client_id : String
  pub namespace : String
  pub credentials : Option Credentials
  pub consumer : ConsumerConfig
  pub producer : ProducerConfig
  pub on_error : Bool
  pub on_exit : Bool
  pub on_ready : Bool

-- NewRocketConsumerConfig. The arguments are the zero values of the library's types.
unfoldable pub new_consumer_config : Mode → Offset → ConsumerConfig
new_consumer_config mode offset = record {
  topics = [];
  mode = mode;
  offset = offset;
  timestamp = "";
  order = false;
  auto_commit = "native";
  batch_max_size = pos 0;
  max_reconsume_times = pos 0;
  has_handler = false;
}

unfoldable pub new_producer_config : ProducerConfig
new_producer_config = record {
  topics = [];
  timeout = pos 0;
  retry = pos 0;
  queue_selector = 0;
  async_send = false;
}

unfoldable pub set_consumer_topics : List String → ConsumerConfig → ConsumerConfig
set_consumer_topics ts c = record c { topics = ts }

unfoldable pub add_consumer_topic : String → ConsumerConfig → ConsumerConfig
add_consumer_topic t c = record c { topics = c.topics ++ t ∷ [] }

unfoldable pub remove_consumer_topic : String → ConsumerConfig → Option ConsumerConfig
unfolding remove_item
remove_consumer_topic t c = elim (remove_item t c.topics) [
  | none ↦ none
  | some ts ↦ some (record c { topics = ts })
]

unfoldable pub set_producer_topics : List String → ProducerConfig → ProducerConfig
set_producer_topics ts c = record c { topics = ts }

unfoldable pub add_producer_topic : String → ProducerConfig → ProducerConfig
add_producer_topic t c = record c { topics = c.topics ++ t ∷ [] }

unfoldable pub remove_producer_topic : String → ProducerConfig → Option ProducerConfig
unfolding remove_item
remove_producer_topic t c = elim (remove_item t c.topics) [
  | none ↦ none
  | some ts ↦ some (record c { topics = ts })
]

unfoldable pub set_servers : List String → Config → Config
set_servers ss c = record c { servers = ss }

unfoldable pub add_server : String → Config → Config
add_server s c = record c { servers = c.servers ++ s ∷ [] }

unfoldable pub remove_server : String → Config → Option Config
unfolding remove_item
remove_server s c = elim (remove_item s c.servers) [
  | none ↦ none
  | some ss ↦ some (record c { servers = ss })
]
