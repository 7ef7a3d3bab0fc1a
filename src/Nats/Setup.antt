-- ===== src/Nats/Setup.antt =====
-- What Start of the JetStream client asks of the server (natsmq/nats_jetstream.go, doConnect,
-- upsertJetstream, upsertConsumer and the loop of syncSubscriptions), with the answers of the library
-- and of the file system in a `World`.
use kmq_utils.Prelude.{
  ℕ, ◌⊎◌, inl, inr, Bool, not, ◌&&◌, String, Option, none, some, List, [], ◌∷◌, str_eq, str_append,
  is_empty, if◌then◌else◌,
}
use kmq_utils.Prelude.Int.{ℤ, pos, leb_ℤ}
use kmq_utils.KList.{KList}
use kmq_utils.Nats.Config.{ConnConfig}
use kmq_utils.Nats.Connect.{Options, options, add_sub}
use kmq_utils.Nats.Stream.{StreamConfig, ConsumerConfig, AckPolicy, DeliverPolicy, by_start_time}

pub data StartError : Type 0 where
  key_pair_error connect_error context_error stream_error : StartError
  info_error consumer_error subscribe_error : StartError

pub data AddAnswer : Type 0 where
  added name_in_use add_failed : AddAnswer

pub data InfoAnswer : Type 0 where
  info_found info_missing info_failed : InfoAnswer

-- What is asked of AddConsumer.
pub record ConsumerRequest : Type 0 where
  pub durable : String
  pub name : String
  pub filter_subjects : List String
  pub ack_policy : AckPolicy
  pub deliver_policy : DeliverPolicy
  pub deliver_subject : String
  pub deliver_group : String
  pub max_ack_pending : ℕ
  pub start_time : Option ℤ  -- in nanoseconds

pub record World (K : KList String) : Type 0 where
  pub key_pair : String → String → Bool
  pub connects : Options → Bool
  pub is_connected : Bool
  pub js_context : Bool
  pub add_stream : StreamConfig K → AddAnswer
  pub update_stream : StreamConfig K → Bool
  pub consumer_info : String → String → InfoAnswer
  pub add_consumer : String → ConsumerRequest → Bool
  pub subscribes : Option String → String → Bool  -- by queue group and topic

-- What doConnect comes to: nothing opened, a connection opened before an error, or a connection with
-- what it knows of the stream.
pub data Connection (K : KList String) : Type 0 where
  refused : StartError → Connection K
  half : Options → StartError → Connection K
  full : Options → Option (StreamConfig K) → Connection K

-- Why syncSubscriptions did not end well: an error, or the call of a method on a nil consumer.
pub data SyncFailure : Type 0 where
  sync_error : StartError → SyncFailure
  sync_panic : SyncFailure

pub record Synced : Type 0 where
  pub failure : Option SyncFailure
  pub subs : List String
  pub made : Option ConsumerRequest

-- The queue group of the subscriptions.
unfoldable pub group_of : Option ConsumerConfig → Option String
group_of none = none
group_of (some k) = if str_eq k.durable "" then none else some k.durable

-- The loop over the topics. The text of the error asks for the consumer's name.
unfoldable pub subscribe_all :
    (String → Bool)
    → Option ConsumerConfig
    → List String
    → List String
    → Option SyncFailure × List String
unfolding add_sub
subscribe_all answer k [] subs = (none, subs)
subscribe_all answer k (t ∷ ts) subs =
    let rest = subscribe_all answer k ts (add_sub t subs) in
    (if answer t
      then rest
      else (elim k [ none ↦ some sync_panic | some c ↦ some (sync_error subscribe_error) ], subs))

module _ {K : KList String} where
  -- The stream is added, or updated where it is there. An error of the update is passed over, and then
  -- nothing is known of the stream.
  unfoldable pub upsert_stream : World K → StreamConfig K → StartError ⊎ Option (StreamConfig K)
  upsert_stream w c = elim (w.add_stream c) [
    | added ↦ inr (some c)
    | name_in_use ↦ inr (if w.update_stream c then some c else none)
    | add_failed ↦ inl stream_error
  ]

  after_stream : Options → StartError ⊎ Option (StreamConfig K) → Connection K
  after_stream o (inl e) = half o e
  after_stream o (inr st) = full o st

  unfoldable pub do_connect : World K → ConnConfig K → StreamConfig K → Connection K
  unfolding options upsert_stream after_stream
  do_connect w n c =
      if n.use_tls && not (w.key_pair n.tls_client_cert n.key_path)
      then refused key_pair_error
      else if not (w.connects (options n))
      then refused connect_error
      else if not w.js_context
      then half (options n) context_error
      else after_stream (options n) (upsert_stream w c)

  -- The request for a consumer: a time of the last message, unless negative, overrides the policy.
  unfoldable pub consumer_request : ℤ → StreamConfig K → ConsumerConfig → ConsumerRequest
  consumer_request timestamp c k = record {
    durable = k.durable;
    name = k.durable;
    filter_subjects = K.to_slice c.topics;
    ack_policy = k.ack_policy;
    deliver_policy = if leb_ℤ (pos 0) timestamp then by_start_time else k.deliver_policy;
    deliver_subject = str_append "_INBOX." k.durable;
    deliver_group = k.durable;
    max_ack_pending = 1000;
    start_time = if leb_ℤ (pos 0) timestamp then some timestamp else none;
  }

  -- What is added to the server, or an error. A consumer that is there stays as it is.
  unfoldable pub upsert_consumer :
      World K → ℤ → StreamConfig K → ConsumerConfig → StartError ⊎ Option ConsumerRequest
  unfolding consumer_request
  upsert_consumer w timestamp c k = elim (w.consumer_info c.name k.durable) [
    | info_found ↦ inr none
    | info_failed ↦ inl info_error
    | info_missing ↦
        (if w.add_consumer c.name (consumer_request timestamp c k)
          then inr (some (consumer_request timestamp c k))
          else inl consumer_error)
  ]

  -- syncSubscriptions behind the consumer.
  subscribe_made :
      World K → StreamConfig K → List String → StartError ⊎ Option ConsumerRequest → Synced
  unfolding subscribe_all group_of
  subscribe_made w c subs (inl e) = record {
    failure = some (sync_error e);
    subs = subs;
    made = none;
  }
  subscribe_made w c subs (inr made) =
      let (failure, left) =
        subscribe_all (w.subscribes (group_of c.consumer)) c.consumer (K.to_slice c.topics) subs in
      record { failure = failure; subs = left; made = made }

  made_for :
      World K → ℤ → StreamConfig K → Option ConsumerConfig → StartError ⊎ Option ConsumerRequest
  unfolding upsert_consumer
  made_for w timestamp c none = inr none
  made_for w timestamp c (some k) = upsert_consumer w timestamp c k

  unfoldable pub sync_subscriptions : World K → ℤ → StreamConfig K → List String → Synced
  unfolding subscribe_made made_for
  sync_subscriptions w timestamp c subs =
      if is_empty (K.to_slice c.topics)
      then record { failure = none; subs = subs; made = none }
      else subscribe_made w c subs (made_for w timestamp c c.consumer)
