-- ===== src/Mqtt/Config.antt =====
-- The MQTT configuration (mqtt/config.go): the fields that the client reads, and the topic list.
pub mod Fields
pub mod Topics
use kmq_utils.Prelude.{
  ℕ, Bool, true, false, String, Option, none, some, List, [], ◌∷◌, str_eq, is_some,
}
use kmq_utils.Prelude.Int.{ℤ, pos}
use kmq_utils.KList.{KList}

-- A duration is a count of nanoseconds; a byte is a number.
pub record Config (K : KList String) : Type 0 where
  pub broker : String
  pub client_id : String
  pub username : String
  pub password : String
  pub keep_alive : ℤ
  pub clean_session : Bool
  pub qos : ℕ
  pub will_topic : String
  pub will_payload : String
  pub will_qos : ℕ
  pub will_retain : Bool
  pub version : ℤ
  pub timeout : ℤ
  pub topics : K.L
  pub use_tls : Bool
  pub ca_cert_path : String
  pub on_ready : Bool  -- the callback is set

module _ {K : KList String} where
  -- New().
  unfoldable pub new_config : Config K
  new_config = record {
    broker = "";
    client_id = "";
    username = "";
    password = "";
    keep_alive = pos 0;
    clean_session = false;
    qos = 0;
    will_topic = "";
    will_payload = "";
    will_qos = 0;
    will_retain = false;
    version = pos 0;
    timeout = pos 0;
    topics = K.empty;
    use_tls = false;
    ca_cert_path = "";
    on_ready = false;
  }

  unfoldable pub add_topic : String → Config K → Config K
  add_topic topic c = record c { topics = K.push_back topic c.topics }

  unfoldable pub set_topics : List String → Config K → Config K
  unfolding add_topic
  set_topics [] c = c
  set_topics (t ∷ ts) c = set_topics ts (add_topic t c)

  unfoldable pub remove_topic : String → Config K → Config K
  remove_topic topic c = record c { topics = K.pop_all_if (λ v. str_eq v topic) c.topics }

  unfoldable pub exists_topic : String → Config K → Bool
  exists_topic topic c = is_some (K.find_if (λ v. str_eq v topic) c.topics)

  unfoldable pub clear_topics : Config K → Config K
  clear_topics c = record c { topics = K.clear c.topics }

  -- Topics().
  unfoldable pub topic_slice : Config K → List String
  topic_slice c = K.to_slice c.topics
