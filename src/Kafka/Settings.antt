-- ===== src/Kafka/Settings.antt =====
-- The settings of a Kafka client (kafkamq/config_sarama.go, Config), over the lists of brokers and of
-- topics. A version is a value of the library's type.
use kmq_utils.Prelude.{Bool, false, String, Option, none, some, List, [], ◌∷◌, str_eq}
use kmq_utils.Prelude.Int.{ℤ, pos}
use kmq_utils.KList.{KList}
use kmq_utils.Kafka.Topics.{Topic}
use kmq_utils.Kafka.Config.{
  NetConfig, ConsumerConfig, ProducerConfig, new_net, new_consumer, new_producer,
}

pub record Config (V : Type 0) (K : KList String) (T : KList Topic) : Type 0 where
  pub version : V
  pub client_id : String
  pub group_id : String
  pub brokers : K.L
  pub topics : T.L
  pub channel_buffer_size : ℤ
  pub net : NetConfig
  pub consumer : ConsumerConfig
  pub producer : ProducerConfig
  pub sarama_log : Bool
  pub on_error : Bool
  pub on_exit : Bool
  pub on_ready : Bool

module _ {V : Type 0} {K : KList String} {T : KList Topic} where
  -- The argument is sarama.V0_10_2_0.
  unfoldable pub new_config : V → Config V K T
  unfolding new_net new_consumer new_producer
  new_config v = record {
    version = v;
    client_id = "kafka_rpc";
    group_id = "kafka_rpc";
    brokers = K.empty;
    topics = T.empty;
    channel_buffer_size = pos 10000;
    net = new_net;
    consumer = new_consumer;
    producer = new_producer;
    sarama_log = false;
    on_error = false;
    on_exit = false;
    on_ready = false;
  }

  -- The answer of ParseKafkaVersion, and sarama.V0_10_2_0.
  unfoldable pub set_version : Option V → V → Config V K T → Config V K T
  set_version (some v) fallback c = record c { version = v }
  set_version none fallback c = record c { version = fallback }

  unfoldable pub add_brokers : List String → Config V K T → Config V K T
  add_brokers [] c = c
  add_brokers (b ∷ bs) c = add_brokers bs (record c { brokers = K.push_back b c.brokers })

  unfoldable pub remove_brokers : List String → Config V K T → Config V K T
  remove_brokers [] c = c
  remove_brokers (b ∷ bs) c =
      remove_brokers bs (record c { brokers = K.pop_if (λ item. str_eq item b) c.brokers })

  unfoldable pub add_topic : List Topic → Config V K T → Config V K T
  add_topic [] c = c
  add_topic (t ∷ ts) c = add_topic ts (record c { topics = T.push_back t c.topics })

  unfoldable pub remove_topic : List String → Config V K T → Config V K T
  remove_topic [] c = c
  remove_topic (t ∷ ts) c =
      remove_topic ts (record c { topics = T.pop_if (λ item. str_eq item.name t) c.topics })

  unfoldable pub set_client_id : String → Config V K T → Config V K T
  set_client_id id c = record c { client_id = id }

  unfoldable pub set_group_id : String → Config V K T → Config V K T
  set_group_id id c = record c { group_id = id }

  unfoldable pub set_sarama_log : Bool → Config V K T → Config V K T
  set_sarama_log b c = record c { sarama_log = b }

  unfoldable pub set_channel_buffer_size : ℤ → Config V K T → Config V K T
  set_channel_buffer_size n c = record c { channel_buffer_size = n }

  unfoldable pub set_net : NetConfig → Config V K T → Config V K T
  set_net n c = record c { net = n }

  unfoldable pub set_consumer : ConsumerConfig → Config V K T → Config V K T
  set_consumer k c = record c { consumer = k }

  unfoldable pub set_producer : ProducerConfig → Config V K T → Config V K T
  set_producer p c = record c { producer = p }

  unfoldable pub set_error_callback : Bool → Config V K T → Config V K T
  set_error_callback b c = record c { on_error = b }

  unfoldable pub set_exit_callback : Bool → Config V K T → Config V K T
  set_exit_callback b c = record c { on_exit = b }

  unfoldable pub set_ready_callback : Bool → Config V K T → Config V K T
  set_ready_callback b c = record c { on_ready = b }
