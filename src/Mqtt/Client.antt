-- ===== src/Mqtt/Client.antt =====
-- The MQTT client (mqtt/mqtt_client.go): `Start` connects, the callbacks of the library report the
-- link, `Publish` puts a message into the queue, a goroutine sends, `Close` drains. An event is one
-- move of a party, with the answers of the library and of the file system as its arguments; every
-- schedule of events is an interleaving.
-- The goroutine reads the context, sends and reads the flags again: an attempt is one event, and
-- the test behind a failed attempt is the next one, so the flags may change between.
-- The library calls its handlers for a client only, and none behind a Disconnect. Start, with the
-- Connect in which it waits, is one event: a party moves before it or behind it.
-- Not modelled: the log lines, what a received message is, and the handler.
pub mod Conserved
pub mod Drained
pub mod Lifecycle
use kmq_utils.Prelude.{
  ℕ, ◌+◌, ◌⊎◌, inl, inr, Bool, true, false, not, ◌&&◌, ◌||◌, String, Option, none, some, List, [],
  ◌∷◌, ◌++◌, str_append, str_eq, is_empty, is_none, if◌then◌else◌,
}
use kmq_utils.Prelude.Int.{ℤ, to_word}
use kmq_utils.RingBuffer.{RingBuffer}
use kmq_utils.KList.{KList}
use kmq_utils.Pump
use kmq_utils.Pump.{
  Pump, Verdict, delivered, failed, Check, retry, give_up, offer, seal, begin, work, has_returned,
}
use kmq_utils.Mqtt.Config
use kmq_utils.Mqtt.Config.{topic_slice}

pub record MqttMessage : Type 0 where
  pub topic : String
  pub duplicate : Bool
  pub qos : ℕ
  pub retained : Bool
  pub payload : String

pub data NewError : Type 0 where
  ca_missing queue_error : NewError

pub data StartError : Type 0 where
  ca_unreadable ca_unparsable no_ca : StartError

pub record Will : Type 0 where
  pub topic : String
  pub payload : String
  pub qos : ℕ
  pub retained : Bool

-- The options given to paho.NewClient that depend on the configuration.
pub record Options : Type 0 where
  pub broker_url : String
  pub client_id : String
  pub username : String
  pub password : String
  pub version : ℕ
  pub keep_alive : ℤ
  pub clean_session : Bool
  pub will : Option Will
  pub timeout : ℤ
  pub root_cas : Option String  -- the certificates, with TLS

-- What the file system and the certificate parser answer.
pub record World : Type 0 where
  pub file_exists : String → Bool
  pub read_file : String → Option String
  pub parses : String → Bool

pub record MqttClient (B : RingBuffer MqttMessage) (K : KList String) : Type 0 where
  pub conf : Config.Config K
  pub client : Option Options  -- the paho client, by its options
  pub linked : Bool  -- not disconnected by Close
  pub connected : Bool
  pub draining : Bool
  pub started : Bool
  pub ready_done : Bool  -- readyOnce
  pub ready_calls : ℕ
  pub ctx_done : Bool
  pub filters : List (String × ℕ)  -- the last argument of SubscribeMultiple
  pub unsubscribed : List String
  pub queue_size : ℕ
  pub pump : Pump B (Unit {0})

pub data Answer : Type 0 where
  ok refused : Answer

pub data Event : Type 0 where
  start : World → Event
  connect : Event  -- OnConnectHandler
  lost : Event  -- OnConnectionLost
  publish : MqttMessage → Event
  publish_message : String → String → Event
  send : Answer → Event  -- a step of the sending goroutine
  close : Event
  disconnect : Bool → Event  -- Close behind its select; the argument says that 20 seconds passed
  cancel : Event  -- the application cancels the context

-- topicFilters[topic] = qos, over an association list.
unfoldable pub add_filter : String → ℕ → List (String × ℕ) → List (String × ℕ)
add_filter t q [] = (t, q) ∷ []
add_filter t q ((u, r) ∷ fs) = if str_eq u t then (u, q) ∷ fs else (u, r) ∷ add_filter t q fs

unfoldable pub topic_filters : List String → ℕ → List (String × ℕ) → List (String × ℕ)
unfolding add_filter
topic_filters [] q fs = fs
topic_filters (t ∷ ts) q fs = topic_filters ts q (add_filter t q fs)

module _ {K : KList String} where
  -- The will is set only with topics and a will topic, at the QoS of the messages.
  unfoldable pub will_of : Config.Config K → Option Will
  unfolding topic_slice
  will_of c =
      if not (is_empty (topic_slice c)) && not (str_eq c.will_topic "")
      then some (record {
        topic = c.will_topic;
        payload = c.will_payload;
        qos = c.qos;
        retained = c.will_retain;
      })
      else none

  -- The certificates of the TLS configuration.
  unfoldable pub load_cas : World → Config.Config K → StartError ⊎ Option String
  load_cas w c =
      if not c.use_tls
      then inr none
      else if str_eq c.ca_cert_path ""
      then inl no_ca
      else elim (w.read_file c.ca_cert_path) [
        | none ↦ inl ca_unreadable
        | some cert ↦ (if w.parses cert then inr (some cert) else inl ca_unparsable)
      ]

  unfoldable pub options : Config.Config K → Option String → Options
  unfolding will_of to_word
  options c cas = record {
    broker_url = str_append (if c.use_tls then "ssl://" else "tcp://") c.broker;
    client_id = c.client_id;
    username = c.username;
    password = c.password;
    version = to_word 18446744073709551616 c.version;
    keep_alive = c.keep_alive;
    clean_session = c.clean_session;
    will = will_of c;
    timeout = c.timeout;
    root_cas = cas;
  }

module _ {B : RingBuffer MqttMessage} {K : KList String} where
  fresh : B.Buf → ℕ → Config.Config K → MqttClient B K
  unfolding Pump.new
  fresh q size conf = record {
    conf = conf;
    client = none;
    linked = true;
    connected = false;
    draining = false;
    started = false;
    ready_done = false;
    ready_calls = 0;
    ctx_done = false;
    filters = [];
    unsubscribed = [];
    queue_size = size;
    pump = Pump.new q;
  }

  -- NewMqttClient; the queue is the answer of NewLockedRingBuffer.
  unfoldable pub new_client : World → Option B.Buf → ℕ → Config.Config K → NewError ⊎ MqttClient B K
  unfolding fresh
  new_client w q size conf =
      if conf.use_tls && not (w.file_exists conf.ca_cert_path)
      then inl ca_missing
      else elim q [ none ↦ inl queue_error | some b ↦ inr (fresh b size conf) ]

  -- Start behind the options: NewClient, Connect, whose error is only logged, startDrainPipe.
  launch : StartError ⊎ Option String → MqttClient B K → Option StartError × MqttClient B K
  unfolding options begin
  launch (inl e) s = (some e, s)
  launch (inr cas) s = (none, record s { client = some (options s.conf cas); pump = begin s.pump })

  -- Start, and the error that it returns.
  unfoldable pub start_up : World → MqttClient B K → Option StartError × MqttClient B K
  unfolding launch load_cas
  start_up w s =
      if s.started then (none, s) else launch (load_cas w s.conf) (record s { started = true })

  sync_subscriptions : MqttClient B K → MqttClient B K
  unfolding topic_filters topic_slice
  sync_subscriptions s =
      if is_empty (topic_slice s.conf)
      then s
      else record s { filters = topic_filters (topic_slice s.conf) s.conf.qos [] }

  -- OnConnectHandler.
  unfoldable pub on_connect : MqttClient B K → MqttClient B K
  unfolding sync_subscriptions
  on_connect s =
      let t = sync_subscriptions (record s { connected = true }) in
      if t.ready_done then t else record t {
        ready_done = true;
        ready_calls = if t.conf.on_ready then t.ready_calls + 1 else t.ready_calls;
      }

  unfoldable pub on_connection_lost : MqttClient B K → MqttClient B K
  on_connection_lost s = record s { connected = false }

  -- Publish, and its answer.
  unfoldable pub publish_msg : MqttMessage → MqttClient B K → Bool × MqttClient B K
  unfolding offer
  publish_msg m s =
      if s.draining || is_none s.client
      then (false, s)
      else (let (done, p) = offer m s.pump in (done, record s { pump = p }))

  unfoldable pub publish_text : String → String → MqttClient B K → Bool × MqttClient B K
  unfolding publish_msg
  publish_text topic message s =
      publish_msg
        (record {
          topic = topic;
          duplicate = false;
          qos = s.conf.qos;
          retained = true;
          payload = message;
        })
        s

  -- An attempt: nothing is sent while the link is down, and nothing goes out after Disconnect.
  unfoldable pub try_send : MqttClient B K → Answer → Verdict (Unit {0})
  try_send s ok = if s.connected && s.linked then delivered else failed tt
  try_send s refused = failed tt

  -- After a failed attempt.
  unfoldable pub after_failure : MqttClient B K → Unit {0} → Check
  after_failure s e = if (s.ctx_done || s.draining) && not s.connected then give_up else retry

  unfoldable pub send_step : MqttClient B K → Answer → MqttClient B K
  unfolding try_send after_failure work
  send_step s a = record s { pump = work s.queue_size (try_send s a) (after_failure s) s.pump }

  -- Close up to its select.
  unfoldable pub close_up : MqttClient B K → MqttClient B K
  unfolding seal topic_slice
  close_up s = if s.draining then s else record s {
    draining = true;
    unsubscribed =
        if not (is_empty (topic_slice s.conf)) && (s.connected && not (is_none s.client))
        then topic_slice s.conf
        else s.unsubscribed;
    pump = seal s.pump;
  }

  -- Close behind its select. Disconnect ends the link and calls no handler.
  unfoldable pub disconnect_link : MqttClient B K → Bool → MqttClient B K
  disconnect_link s timeout =
      if s.draining && (has_returned s.pump.phase || timeout)
      then record s { linked = false; ctx_done = true }
      else s

  unfoldable pub step : MqttClient B K → Event → MqttClient B K
  unfolding start_up on_connect on_connection_lost publish_msg publish_text send_step close_up
      disconnect_link
  step s (start w) = (start_up w s).1
  step s connect = if is_none s.client || not s.linked then s else on_connect s
  step s lost = if is_none s.client || not s.linked then s else on_connection_lost s
  step s (publish m) = (publish_msg m s).1
  step s (publish_message topic message) = (publish_text topic message s).1
  step s (send a) = send_step s a
  step s close = close_up s
  step s (disconnect timeout) = disconnect_link s timeout
  step s cancel = record s { ctx_done = true }

  unfoldable pub run : MqttClient B K → List Event → MqttClient B K
  unfolding step
  run s [] = s
  run s (e ∷ es) = run (step s e) es
