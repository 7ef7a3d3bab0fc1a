-- ===== src/Rocket/Options.antt =====
-- The options that NewPushConsumer and NewPullConsumer of rocketmq/sub.go make of a configuration.
use kmq_utils.Prelude.{
  Bool, true, false, not, ◌&&◌, String, List, [], ◌∷◌, ◌++◌, Option, none, some, str_eq,
  if◌then◌else◌,
}
use kmq_utils.Prelude.Int.{ℤ, to_int32}
use kmq_utils.Rocket.Config.{
  Config, Credentials, Mode, Offset, from_timestamp, from_first, from_last,
}

-- The options given to rocket.NewPushConsumer and NewPullConsumer.
pub data ConsumerOption : Type 0 where
  group_name namespace instance timestamp : String → ConsumerOption
  resolver name_servers : List String → ConsumerOption
  credentials : Credentials → ConsumerOption
  max_reconsume_times batch_max_size : ℤ → ConsumerOption
  model : Mode → ConsumerOption
  order auto_commit : Bool → ConsumerOption
  from_where : Offset → ConsumerOption
  interceptors : ConsumerOption

unless_empty : {A : Type 0} → String → A → List A
unless_empty s a = if str_eq s "" then [] else a ∷ []

credentials_option : Option Credentials → List ConsumerOption
credentials_option none = []
credentials_option (some c) =
    if not (str_eq c.access_key "") && not (str_eq c.secret_key "") then credentials c ∷ [] else []

timestamp_option : Offset → String → List ConsumerOption
timestamp_option from_timestamp t = timestamp t ∷ []
timestamp_option from_first t = []
timestamp_option from_last t = []

-- The options before the offset.
base_options : Config → List ConsumerOption
unfolding to_int32 unless_empty credentials_option timestamp_option
base_options conf =
    let c = conf.consumer in
    unless_empty conf.group_name (group_name conf.group_name)
    ++ unless_empty conf.namespace (namespace conf.namespace)
    ++ unless_empty conf.client_id (instance conf.client_id)
    ++ (if conf.ns_resolver then resolver conf.servers else name_servers conf.servers)
      ∷ credentials_option conf.credentials
    ++ timestamp_option c.offset c.timestamp
    ++ max_reconsume_times (to_int32 c.max_reconsume_times)
      ∷ batch_max_size c.batch_max_size
      ∷ model c.mode
      ∷ order c.order
      ∷ []

unfoldable pub push_options : Config → List ConsumerOption
unfolding base_options
push_options conf = base_options conf ++ from_where conf.consumer.offset ∷ interceptors ∷ []

unfoldable pub pull_options : Config → List ConsumerOption
unfolding base_options
pull_options conf =
    base_options conf
    ++ from_where conf.consumer.offset
      ∷ interceptors
      ∷ auto_commit (str_eq conf.consumer.auto_commit "native")
      ∷ []

-- `for _, topic := range conf.Consumer.Topics { err = Subscribe(...); if err != nil { return } }`
unfoldable pub all_subscribe : (String → Bool) → List String → Bool
all_subscribe answer [] = true
all_subscribe answer (t ∷ ts) = if answer t then all_subscribe answer ts else false
