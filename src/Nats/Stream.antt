-- ===== src/Nats/Stream.antt =====
-- The settings of JetStream (natsmq/config.go): a stream with its limits, and its consumer. The
-- warnings that the setters print are left out. A duration is a number, in the unit of its setter.
pub mod Limits
use kmq_utils.Prelude.{
  Bool, true, false, String, Option, none, some, List, [], ◌∷◌, str_eq, if◌then◌else◌,
}
use kmq_utils.Prelude.Int.{ℤ, pos, negsuc, ltb_ℤ, leb_ℤ}
use kmq_utils.KList.{KList}

-- The policies of the library that the package names.
pub data AckPolicy : Type 0 where
  ack_none ack_all ack_explicit : AckPolicy

pub data DeliverPolicy : Type 0 where
  deliver_all deliver_last deliver_new by_start_sequence by_start_time last_per_subject :
      DeliverPolicy

pub data StorageType : Type 0 where
  file_storage memory_storage : StorageType

pub data Compression : Type 0 where
  no_compression s2_compression : Compression

pub data RetentionPolicy : Type 0 where
  limits_policy interest_policy work_queue_policy : RetentionPolicy

pub data DiscardPolicy : Type 0 where
  discard_old discard_new : DiscardPolicy

pub record ConsumerConfig : Type 0 where
  pub durable : String
  pub max_wait : ℤ
  pub auto_commit : String
  pub ack_policy : AckPolicy
  pub deliver_policy : DeliverPolicy

pub record StreamConfig (K : KList String) : Type 0 where
  pub name : String
  pub storage_type : StorageType
  pub compression : Compression
  pub retention_policy : RetentionPolicy
  pub max_consumers : ℤ
  pub max_msgs : ℤ
  pub max_bytes : ℤ
  pub max_age : ℤ
  pub max_msgs_per_subject : ℤ
  pub max_msg_size : ℤ
  pub duplicates : ℤ
  pub discard : DiscardPolicy
  pub topics : K.L
  pub consumer : Option ConsumerConfig
  pub has_handler : Bool

abbrev pub unlimited : ℤ
unlimited = negsuc 0

abbrev pub default_max_wait : ℤ
default_max_wait = pos 30000

abbrev pub default_max_consumers : ℤ
default_max_consumers = negsuc 0

abbrev pub default_max_msg_size : ℤ
default_max_msg_size = negsuc 0

abbrev pub default_duplicates : ℤ
default_duplicates = pos 120000

unfoldable pub new_consumer : String → ConsumerConfig
new_consumer name = record {
  durable = name;
  max_wait = unlimited;
  auto_commit = "";
  ack_policy = ack_none;
  deliver_policy = by_start_time;
}

unfoldable pub set_durable : String → ConsumerConfig → ConsumerConfig
set_durable name c = record c { durable = name }

unfoldable pub set_max_wait : ℤ → ConsumerConfig → ConsumerConfig
set_max_wait wait c = record c { max_wait = if leb_ℤ wait (pos 0) then default_max_wait else wait }

unfoldable pub set_auto_commit : String → ConsumerConfig → ConsumerConfig
set_auto_commit commit c = record c { auto_commit = commit }

unfoldable pub set_ack_policy : AckPolicy → ConsumerConfig → ConsumerConfig
set_ack_policy policy c = record c { ack_policy = policy }

unfoldable pub set_deliver_policy : DeliverPolicy → ConsumerConfig → ConsumerConfig
set_deliver_policy policy c = record c { deliver_policy = policy }

unfoldable pub ack_policy_from_str : String → AckPolicy
ack_policy_from_str s =
    if str_eq s "all" then ack_all else if str_eq s "explicit" then ack_explicit else ack_none

unfoldable pub deliver_policy_from_str : String → DeliverPolicy
deliver_policy_from_str s =
    if str_eq s "all"
    then deliver_all
    else if str_eq s "last"
    then deliver_last
    else if str_eq s "new"
    then deliver_new
    else if str_eq s "start_sequence"
    then by_start_sequence
    else if str_eq s "start_time"
    then by_start_time
    else if str_eq s "last_per_subject"
    then last_per_subject
    else deliver_all

unfoldable pub storage_type_from_str : String → StorageType
storage_type_from_str s = if str_eq s "file" then file_storage else memory_storage

unfoldable pub compression_from_str : String → Compression
compression_from_str s = if str_eq s "s2" then s2_compression else no_compression

unfoldable pub retention_policy_from_str : String → RetentionPolicy
retention_policy_from_str s =
    if str_eq s "limits"
    then limits_policy
    else if str_eq s "work_queue"
    then work_queue_policy
    else if str_eq s "interests"
    then interest_policy
    else limits_policy

unfoldable pub discard_from_str : String → DiscardPolicy
discard_from_str s =
    if str_eq s "old" then discard_old else if str_eq s "new" then discard_new else discard_old

-- A number below zero stands for no limit.
abbrev pub limit : ℤ → ℤ
limit n = if ltb_ℤ n (pos 0) then unlimited else n

module _ {K : KList String} where
  -- The compression is the zero value of its type.
  unfoldable pub new_stream : Compression → String → StreamConfig K
  new_stream zero name = record {
    name = name;
    storage_type = memory_storage;
    compression = zero;
    retention_policy = limits_policy;
    max_consumers = default_max_consumers;
    max_msgs = unlimited;
    max_bytes = unlimited;
    max_age = unlimited;
    max_msgs_per_subject = unlimited;
    max_msg_size = default_max_msg_size;
    duplicates = default_duplicates;
    discard = discard_old;
    topics = K.empty;
    consumer = none;
    has_handler = false;
  }

  unfoldable pub set_storage_type : StorageType → StreamConfig K → StreamConfig K
  set_storage_type storage c = record c { storage_type = storage }

  unfoldable pub set_compression : Compression → StreamConfig K → StreamConfig K
  set_compression compression c = record c { compression = compression }

  unfoldable pub set_retention_policy : RetentionPolicy → StreamConfig K → StreamConfig K
  set_retention_policy policy c = record c { retention_policy = policy }

  unfoldable pub set_retention_limits : ℤ → ℤ → ℤ → ℤ → StreamConfig K → StreamConfig K
  set_retention_limits max_msgs max_bytes max_age per_subject c = record c {
    retention_policy = limits_policy;
    max_msgs = limit max_msgs;
    max_bytes = limit max_bytes;
    max_age = limit max_age;
    max_msgs_per_subject = limit per_subject;
  }

  unfoldable pub set_max_consumers : ℤ → StreamConfig K → StreamConfig K
  set_max_consumers max c = record c {
    max_consumers = if ltb_ℤ max (negsuc 0) then default_max_consumers else max;
  }

  unfoldable pub set_max_msg_size : ℤ → StreamConfig K → StreamConfig K
  set_max_msg_size size c = record c {
    max_msg_size = if ltb_ℤ size (negsuc 0) then default_max_msg_size else size;
  }

  unfoldable pub set_duplicates : ℤ → StreamConfig K → StreamConfig K
  set_duplicates dup c = record c {
    duplicates = if ltb_ℤ dup (pos 0) then default_duplicates else dup;
  }

  unfoldable pub set_discard : DiscardPolicy → StreamConfig K → StreamConfig K
  set_discard discard c = record c { discard = discard }

  unfoldable pub add_topic : List String → StreamConfig K → StreamConfig K
  add_topic [] c = c
  add_topic (t ∷ ts) c =
      add_topic ts (if str_eq t "" then c else record c { topics = K.push_back t c.topics })

  unfoldable pub set_consumer : Option ConsumerConfig → StreamConfig K → StreamConfig K
  set_consumer consumer c = record c { consumer = consumer }

  unfoldable pub set_main_handler : Bool → StreamConfig K → StreamConfig K
  set_main_handler handler c = record c { has_handler = handler }
