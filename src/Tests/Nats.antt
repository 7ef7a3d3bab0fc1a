-- ===== src/Tests/Nats.antt =====
-- Runs of the NATS core client and its configuration.
use kmq_utils.Prelude.{
  ◌≡◌, refl, inr, true, false, String, List, [], ◌∷◌, some, none, arith, replicate,
}
use kmq_utils.Prelude.Int.{pos, negsuc}
use kmq_utils.RingBuffer.{RingBuffer, Items, bounded, bounded-Laws}
use kmq_utils.KList.{KList, plain, plain-Laws}
use kmq_utils.Pump.{idle, stopped, sending, checking}
use kmq_utils.Pump.Quits.{is_stopped}
use kmq_utils.Nats.Config
use kmq_utils.Nats.Config.Valid.{ConnCall, IsValid, servers, tls, ping, calls, settings-IsValid}
use kmq_utils.Nats.Core
use kmq_utils.Nats.Connect
use kmq_utils.Nats.Connect.{World, connect_error, subscribed}
use kmq_utils.Nats.Core.{
  NatsMessage, CoreClient, Event, start, publish, send, close, lost, ok, other_error,
}
use kmq_utils.Nats.Core.Conserved.{Inv}
use kmq_utils.Nats.Core.Drained.{nats_close_drains}
use kmq_utils.Nats.Core.Starting.{failed_start_retries, cancelled_ends}

abbrev topics : KList String
topics = plain

abbrev conn : Config.ConnConfig topics
conn = record {
  servers = "nats://localhost:4222" ∷ [];
  user = "";
  password = "secret";
  allow_reconnect = false;
  max_reconnect = pos 0;
  reconnect_wait = pos 0;
  reconnect_buf_size = negsuc 0;
  connect_timeout = pos 0;
  use_tls = false;
  ca_cert_path = "";
  tls_client_cert = "";
  key_path = "";
  insecure_skip_verify = true;
  min_tls_ver = pos 769;
  name = "n";
  ping_interval = pos 120000;
  max_pings_out = pos 3;
}

abbrev conf : Config.Config topics
conf = record {
  nats = conn;
  core_nats =
      some
        (record { topics = "t" ∷ []; queue_group = ""; max_pending = pos 0; has_handler = true });
  jet_stream = none;
  on_error = true;
  on_exit = false;
  on_ready = true;
}

-- A password alone is a token.
token_auth : Connect.auth_of conn ≡ Connect.token "secret"
unfolding Connect.auth_of
token_auth = refl

abbrev some_calls : List ConnCall
some_calls =
    servers ("nats://a" ∷ "http://b" ∷ "tls://c" ∷ [])
    ∷ tls "ca" "cert" "key" false (pos 768)
    ∷ ping (negsuc 4) (pos 0)
    ∷ []

set_calls :
    (calls {K = topics} (Config.new_conn "n") some_calls).servers ≡ "nats://a" ∷ "tls://c" ∷ []
unfolding calls Config.new_conn
set_calls = refl

settings-IsValid_example : IsValid (calls {K = topics} (Config.new_conn "n") some_calls)
settings-IsValid_example = settings-IsValid {K = topics} plain-Laws "n" some_calls

abbrev queue : RingBuffer NatsMessage
queue = bounded 4

abbrev empty : Items NatsMessage
empty = record { items = []; closed = false }

abbrev first : NatsMessage
first = record { topic = "t"; reply = ""; header = []; payload = "1" }

abbrev second : NatsMessage
second = record { topic = "t"; reply = ""; header = []; payload = "2" }

abbrev world : World
world = record {
  key_pair = λ cert key. true;
  connects = λ options. true;
  is_connected = true;
  subscribes = λ group limit topic. subscribed;
}

abbrev no_server : World
no_server = record world { connects = λ options. false }

abbrev made : CoreClient queue topics
made = record {
  conf = conf;
  conn = none;
  linked = true;
  connected = false;
  draining = false;
  started = false;
  ready_done = false;
  ready_calls = 0;
  error_calls = 0;
  ctx_done = false;
  subs = [];
  drained_subs = [];
  queue_size = 2;
  pump = record { queue = empty; phase = idle; accepted = []; sent = [] };
}

made_new : Core.new_client {B = queue} (some empty) 2 conf ≡ inr made
unfolding Core.new_client
made_new = refl

-- The link is lost while the client drains: the messages are dropped.
abbrev broken : List Event
broken =
    start no_server
    ∷ start world
    ∷ publish first
    ∷ publish second
    ∷ send ok
    ∷ close
    ∷ lost
    ∷ send ok
    ∷ send ok
    ∷ []

broken_drops : (Core.run made broken).pump.phase ≡ stopped (first ∷ second ∷ [])
unfolding Core.run
broken_drops = refl

abbrev loaded : CoreClient queue topics
loaded = record made {
  conn = some (Connect.options conn);
  connected = true;
  started = true;
  pump = record {
    queue = record empty { items = second ∷ [] };
    phase = sending first [];
    accepted = first ∷ second ∷ [];
    sent = [];
  };
}

loaded-Inv : Inv loaded
loaded-Inv = record {
  conserved = record { account = refl };
  justified = record { reason = λ lost e. cc };
  room = omega arith;
}

nats_close_drains_example :
    let t = Core.run loaded (close ∷ replicate 4 (send ok)) in
    (t.pump.phase ≡ stopped []) × (t.pump.sent ≡ first ∷ second ∷ [])
nats_close_drains_example =
    nats_close_drains {B = queue} {K = topics} (bounded-Laws 4) loaded 4 loaded-Inv refl refl refl
      refl tt (omega arith)

refused_start : (Core.start_up no_server made).0 ≡ some connect_error
unfolding Core.start_up
refused_start = refl

failed_start_retries_example :
    let t = (Core.start_up no_server made).1 in
    (t ≡ record made { error_calls = t.error_calls })
    × ((Core.start_up world t).0 ≡ (Core.start_up world made).0)
    × ((Core.publish_msg first t).0 ≡ false)
failed_start_retries_example =
    failed_start_retries {B = queue} {K = topics} no_server world made connect_error first refl
      refused_start

abbrev cut : CoreClient queue topics
cut = record loaded {
  ctx_done = true;
  pump = record loaded.pump {
    queue = record empty { items = second ∷ []; closed = true };
    phase = checking first [] tt;
  };
}

cancelled_ends_example :
    is_stopped (Core.run cut (send ok ∷ send other_error ∷ [])).pump.phase ≡ true
cancelled_ends_example = cancelled_ends {B = queue} {K = topics} cut ok other_error refl refl refl
