-- ===== src/Tests/Mqtt.antt =====
-- Runs of the MQTT client.
use kmq_utils.Prelude.{
  ◌≡◌, refl, ◌⊎◌, inr, true, false, String, List, [], ◌∷◌, ◌++◌, none, some, arith, replicate,
}
use kmq_utils.Prelude.Int.{pos}
use kmq_utils.RingBuffer.{RingBuffer, bounded, bounded-Laws}
use kmq_utils.KList.{KList, plain}
use kmq_utils.Pump.{idle, sending, checking, stopped, pending}
use kmq_utils.Pump.Drops.{is_trying}
use kmq_utils.Mqtt.Config
use kmq_utils.Mqtt.Config.{
  add_topic, remove_topic, clear_topics, exists_topic, set_topics, topic_slice,
}
use kmq_utils.Mqtt.Client
use kmq_utils.Mqtt.Client.{
  MqttMessage, MqttClient, World, StartError, Options, start, connect, lost, publish, send, close,
  disconnect, ok, refused,
}
use kmq_utils.Mqtt.Client.Conserved.{Inv, Ended, mqtt_accounts}
use kmq_utils.Mqtt.Client.Drained.{mqtt_close_drains}
use kmq_utils.Mqtt.Client.Lifecycle.{failed_start_sticks, drops_only_offline, timeout_leaks}

abbrev queue : RingBuffer MqttMessage
queue = bounded 4

abbrev topics : KList String
topics = plain

abbrev conf : Config.Config topics
conf = record {
  broker = "localhost:1883";
  client_id = "c";
  username = "u";
  password = "p";
  keep_alive = pos 60;
  clean_session = true;
  qos = 1;
  will_topic = "w";
  will_payload = "bye";
  will_qos = 2;
  will_retain = false;
  version = pos 4;
  timeout = pos 5;
  topics = "t" ∷ "s" ∷ "t" ∷ [];
  use_tls = false;
  ca_cert_path = "";
  on_ready = true;
}

abbrev world : World
world = record { file_exists = λ p. true; read_file = λ p. none; parses = λ c. false }

abbrev message : MqttMessage
message = record { topic = "t"; duplicate = false; qos = 1; retained = true; payload = "1" }

abbrev made : MqttClient queue topics
made = record {
  conf = conf;
  client = none;
  linked = true;
  connected = false;
  draining = false;
  started = false;
  ready_done = false;
  ready_calls = 0;
  ctx_done = false;
  filters = [];
  unsubscribed = [];
  queue_size = 2;
  pump = record {
    queue = record { items = []; closed = false };
    phase = idle;
    accepted = [];
    sent = [];
  };
}

made_new : Client.new_client world (some (record { items = []; closed = false })) 2 conf ≡ inr made
unfolding Client.new_client
made_new = refl

abbrev offline : List Client.Event
offline = start world ∷ connect ∷ publish message ∷ send ok ∷ lost ∷ send ok ∷ close ∷ send ok ∷ []

offline_drops :
    ((Client.run made offline).pump.phase ≡ stopped (message ∷ []))
    × ((Client.run made offline).filters ≡ ("t", 1) ∷ ("s", 1) ∷ [])
unfolding Client.run
offline_drops = (refl, refl)

mqtt_accounts_example :
    let t = Client.run made offline in
    (t.pump.accepted ≡ t.pump.sent ++ pending t.pump)
    × ((dropped : List MqttMessage)
        → t.pump.phase ≡ stopped dropped
        → ((pending t.pump ≡ []) × (queue.is_closed t.pump.queue ≡ true)) ⊎ Ended t)
mqtt_accounts_example =
    mqtt_accounts {B = queue} {K = topics} (bounded-Laws 4) world
      (record { items = []; closed = false }) 2 conf made offline made_new refl (omega arith)

abbrev busy : MqttClient queue topics
busy = record made {
  connected = true;
  started = true;
  pump = record {
    queue = record { items = message ∷ []; closed = false };
    phase = sending message [];
    accepted = message ∷ message ∷ [];
    sent = [];
  };
}

busy-Inv : Inv busy
busy-Inv = record {
  conserved = record { account = refl };
  justified = record { reason = λ l e. cc };
  room = omega arith;
}

mqtt_close_drains_example :
    let t = Client.run busy (close ∷ replicate 4 (send ok)) in
    (t.pump.phase ≡ stopped []) × (t.pump.sent ≡ message ∷ message ∷ [])
mqtt_close_drains_example =
    mqtt_close_drains {B = queue} {K = topics} (bounded-Laws 4) busy 4 busy-Inv refl refl refl tt
      (omega arith)

timeout_leaks_example :
    is_trying
      (Client.run
        (record busy { draining = true })
        (disconnect true ∷ send ok ∷ lost ∷ [])).pump.phase
    ≡ true
timeout_leaks_example =
    timeout_leaks {B = queue} {K = topics} (record busy { draining = true }) (send ok ∷ lost ∷ [])
      refl refl refl

abbrev secured : MqttClient queue topics
secured = record made { conf = record conf { use_tls = true; ca_cert_path = "ca.pem" } }

secured_fails : (Client.start_up world secured).0 ≡ some StartError.ca_unreadable
unfolding Client.start_up
secured_fails = refl

failed_start_sticks_example :
    let t = (Client.start_up world secured).1 in
    (Client.start_up world t ≡ (none, t))
    × ((m : MqttMessage) → Client.publish_msg m t ≡ (false, t))
failed_start_sticks_example =
    failed_start_sticks {B = queue} {K = topics} world world secured StartError.ca_unreadable refl
      secured_fails

abbrev failing : MqttClient queue topics
failing = record busy {
  connected = false;
  draining = true;
  pump = record {
    queue = record { items = []; closed = true };
    phase = checking message [] tt;
    accepted = message ∷ [];
    sent = [];
  };
}

failing_drops : (Client.send_step failing ok).pump.phase ≡ stopped (message ∷ [])
unfolding Client.send_step
failing_drops = refl

drops_only_offline_example :
    (failing.pump.phase ≡ stopped (message ∷ []))
    ⊎ ((false ≡ false) × ((false ≡ true) ⊎ (true ≡ true)))
drops_only_offline_example =
    drops_only_offline {B = queue} {K = topics} failing ok message [] failing_drops
