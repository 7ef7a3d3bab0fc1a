-- ===== src/Tests/JetStream.antt =====
-- Runs of the JetStream client of NATS and its configuration.
use kmq_utils.Prelude.{
  ◌+◌, ◌≡◌, refl, ◌⊎◌, inr, true, false, String, List, [], ◌∷◌, ◌++◌, some, none, arith, map,
}
use kmq_utils.Prelude.Int.{pos, negsuc}
use kmq_utils.RingBuffer.{RingBuffer, Items, bounded, bounded-Laws}
use kmq_utils.KList.{KList, plain, plain-Laws}
use kmq_utils.Pump.{idle, pending, stopped}
use kmq_utils.Nats.Config
use kmq_utils.Nats.Stream
use kmq_utils.Nats.Stream.{
  StreamConfig, ConsumerConfig, by_start_time, ack_explicit, file_storage, no_compression,
  s2_compression, limits_policy, discard_old,
}
use kmq_utils.Nats.Stream.Limits
use kmq_utils.Nats.Stream.Limits.{IsBounded, stream-IsBounded}
use kmq_utils.Nats.Setup
use kmq_utils.Nats.Setup.{
  World, added, add_failed, info_missing, stream_error, ConsumerRequest, half,
}
use kmq_utils.Nats.Connect
use kmq_utils.Nats.Core
use kmq_utils.Nats.Core.{NatsMessage, CoreClient, ok}
use kmq_utils.Nats.Core.Sending.{to_core}
use kmq_utils.Nats.Sender
use kmq_utils.Nats.Sender.{Move, moves, begun}
use kmq_utils.Nats.JetStream
use kmq_utils.Nats.JetStream.{JetStreamClient, Event, ready, failing}
use kmq_utils.Nats.JetStream.Conserved.{js_accounts}
use kmq_utils.Nats.JetStream.Sending.{to_jet_stream, clients_agree}
use kmq_utils.Nats.JetStream.Starting.{failed_start_leaves}

abbrev topics : KList String
topics = plain

abbrev conn : Config.ConnConfig topics
conn = record {
  servers = "nats://localhost:4222" ∷ [];
  user = "";
  password = "secret";
  allow_reconnect = false;
  max_reconnect = pos 0;
  reconnect_wait = pos 0;
  reconnect_buf_size = negsuc 0;
  connect_timeout = pos 0;
  use_tls = false;
  ca_cert_path = "";
  tls_client_cert = "";
  key_path = "";
  insecure_skip_verify = true;
  min_tls_ver = pos 769;
  name = "n";
  ping_interval = pos 120000;
  max_pings_out = pos 3;
}

abbrev consumer : ConsumerConfig
consumer = record {
  durable = "d";
  max_wait = pos 30000;
  auto_commit = "native";
  ack_policy = ack_explicit;
  deliver_policy = by_start_time;
}

abbrev stream : StreamConfig topics
stream = record {
  name = "s";
  storage_type = file_storage;
  compression = no_compression;
  retention_policy = limits_policy;
  max_consumers = negsuc 0;
  max_msgs = negsuc 0;
  max_bytes = negsuc 0;
  max_age = negsuc 0;
  max_msgs_per_subject = negsuc 0;
  max_msg_size = negsuc 0;
  duplicates = pos 120000;
  discard = discard_old;
  topics = "t" ∷ [];
  consumer = some consumer;
  has_handler = true;
}

abbrev conf : Config.Config topics
conf = record {
  nats = conn;
  core_nats = none;
  jet_stream = some stream;
  on_error = true;
  on_exit = false;
  on_ready = true;
}

abbrev core_conf : Config.Config topics
core_conf = record conf {
  core_nats =
      some
        (record { topics = "t" ∷ []; queue_group = ""; max_pending = pos 0; has_handler = true });
  jet_stream = none;
}

abbrev queue : RingBuffer NatsMessage
queue = bounded 4

abbrev empty : Items NatsMessage
empty = record { items = []; closed = false }

abbrev first : NatsMessage
first = record { topic = "t"; reply = ""; header = []; payload = "1" }

abbrev world : World topics
world = record {
  key_pair = λ cert key. true;
  connects = λ options. true;
  is_connected = true;
  js_context = true;
  add_stream = λ c. added;
  update_stream = λ c. true;
  consumer_info = λ s d. info_missing;
  add_consumer = λ s r. true;
  subscribes = λ group topic. true;
}

-- The server refuses the stream.
abbrev no_stream : World topics
no_stream = record world { add_stream = λ c. add_failed }

abbrev core_world : Connect.World
core_world = record {
  key_pair = λ cert key. true;
  connects = λ options. true;
  is_connected = true;
  subscribes = λ group limit topic. Connect.subscribed;
}

abbrev made : JetStreamClient queue topics
made = record {
  conf = conf;
  settings = stream;
  conn = none;
  linked = false;
  open_conns = 0;
  stream = none;
  subs = [];
  drained_subs = [];
  made = [];
  connected = false;
  draining = false;
  started = false;
  ready_done = false;
  ready_calls = 0;
  error_calls = 0;
  ctx_done = false;
  timestamp = pos 7;
  handled = [];
  acked = [];
  queue_size = 2;
  pump = record { queue = empty; phase = idle; accepted = []; sent = [] };
}

made_new : JetStream.new_client {B = queue} (some empty) 2 (pos 7) conf ≡ inr made
unfolding JetStream.new_client
made_new = refl

abbrev core_made : CoreClient queue topics
core_made = record {
  conf = core_conf;
  conn = none;
  linked = true;
  connected = false;
  draining = false;
  started = false;
  ready_done = false;
  ready_calls = 0;
  error_calls = 0;
  ctx_done = false;
  subs = [];
  drained_subs = [];
  queue_size = 2;
  pump = record { queue = empty; phase = idle; accepted = []; sent = [] };
}

core_made_new : Core.new_client {B = queue} (some empty) 2 core_conf ≡ inr core_made
unfolding Core.new_client
core_made_new = refl

-- A Start behind one that failed: the consumer resumes at the time, and a message comes and goes.
abbrev resumed : List (Event topics)
resumed =
    JetStream.start no_stream
    ∷ JetStream.start world
    ∷ JetStream.deliver first (some (pos 9))
    ∷ JetStream.publish first
    ∷ JetStream.send ok
    ∷ JetStream.send ok
    ∷ []

resumed_asks :
    (JetStream.run made resumed).made
    ≡ record {
      durable = "d";
      name = "d";
      filter_subjects = "t" ∷ [];
      ack_policy = ack_explicit;
      deliver_policy = by_start_time;
      deliver_subject = "_INBOX.d";
      deliver_group = "d";
      max_ack_pending = 1000;
      start_time = some (pos 7);
    }
      ∷ []
unfolding JetStream.run
resumed_asks = refl

resumed_acks :
    ((JetStream.run made resumed).acked ≡ first ∷ [])
    × ((JetStream.run made resumed).pump.sent ≡ first ∷ [])
unfolding JetStream.run
resumed_acks = (refl, refl)

js_accounts_example :
    let t = JetStream.run made resumed in
    (t.pump.accepted ≡ t.pump.sent ++ pending t.pump)
    × ((dropped : List NatsMessage)
        → t.pump.phase ≡ stopped dropped
        → ((pending t.pump ≡ []) × (queue.is_closed t.pump.queue ≡ true))
          ⊎ ((t.ctx_done ≡ true) ⊎ (t.draining ≡ true)))
js_accounts_example =
    js_accounts {B = queue} {K = topics} (bounded-Laws 4) empty 2 (pos 7) conf made resumed made_new
      refl (omega arith)

failed_start : (JetStream.start_up no_stream made).0 ≡ failing stream_error
unfolding JetStream.start_up
failed_start = refl

failed_start_leaves_example :
    let t = (JetStream.start_up no_stream made).1 in
    (t.started ≡ false) × (t.open_conns ≡ 0 + 1) × (t.pump ≡ made.pump)
unfolding Setup.do_connect
failed_start_leaves_example =
    failed_start_leaves {B = queue} {K = topics} no_stream made stream_error failed_start

js_started : (JetStream.start_up world made).0 ≡ ready
unfolding JetStream.start_up
js_started = refl

core_started : (Core.start_up core_world core_made).0 ≡ none
unfolding Core.start_up
core_started = refl

abbrev some_moves : List Move
some_moves =
    Sender.publish first
    ∷ Sender.lost
    ∷ Sender.send ok
    ∷ Sender.send ok
    ∷ Sender.connect
    ∷ Sender.publish_message "u" "2"
    ∷ Sender.close
    ∷ Sender.send ok
    ∷ Sender.disconnect true
    ∷ Sender.send ok
    ∷ []

clients_agree_example :
    (Core.run (Core.start_up core_world core_made).1 (map to_core some_moves)).pump
    ≡ (JetStream.run (JetStream.start_up world made).1 (map to_jet_stream some_moves)).pump
clients_agree_example =
    clients_agree {B = queue} {K = topics} core_world world empty 2 (pos 7) core_conf conf core_made
      made some_moves core_made_new made_new core_started js_started refl

abbrev stream_calls : List Limits.StreamCall
stream_calls =
    Limits.max_consumers (negsuc 6)
    ∷ Limits.topics ("a" ∷ "" ∷ "b" ∷ [])
    ∷ Limits.duplicates (negsuc 1)
    ∷ Limits.retention_limits (pos 1) (negsuc 9) (pos 5) (pos 0)
    ∷ []

stream-IsBounded_example :
    IsBounded (Limits.calls (Stream.new_stream {K = topics} s2_compression "s") stream_calls)
stream-IsBounded_example = stream-IsBounded {K = topics} plain-Laws s2_compression "s" stream_calls
