-- ===== src/Tests/Rocket.antt =====
-- Runs of the RocketMQ producer and of its configuration.
use kmq_utils.Prelude.{
  ◌≡◌, ◌≢◌, String, str_eq, refl, ap, Bool, ◌⊎◌, inr, true, false, ℕ, zero, suc, List, [], ◌∷◌,
  ◌++◌, Option, some, none, arith, replicate,
}
use kmq_utils.Prelude.Int.{pos}
use kmq_utils.RingBuffer.{RingBuffer, Items, bounded, bounded-Laws}
use kmq_utils.Pump.{idle, stopped, sending, pending}
use kmq_utils.Rocket.Config
use kmq_utils.Rocket.Config.RoundTrip.{added_removed}
use kmq_utils.Rocket.Config.{from_last, clustering}
use kmq_utils.Rocket.Producer
use kmq_utils.Rocket.Producer.{RocketMessage, Producer, publish, start, enter, send, close}
use kmq_utils.Rocket.Producer.Conserved.{Inv, rocket_accounts}
use kmq_utils.Rocket.Producer.Drained.{rocket_close_drains, sync_only}
use kmq_utils.Rocket.Removal.{remove_item, get_elem?}
use kmq_utils.Rocket.Removal.Panics.{remove_item_panics}
use kmq_utils.Rocket.Removal.Single.{CleanFrom, remove_item_once}

removed_once : remove_item "b" ("a" ∷ "b" ∷ "c" ∷ []) ≡ some ("a" ∷ "c" ∷ [])
unfolding remove_item
removed_once = refl

-- Of two neighbours one stays.
removed_twice : remove_item "b" ("b" ∷ "b" ∷ "c" ∷ []) ≡ some ("b" ∷ "c" ∷ [])
unfolding remove_item
removed_twice = refl

abbrev letters : List String
letters = "a" ∷ "b" ∷ []

abbrev is_entry : String → Option String → Bool
is_entry t none = false
is_entry t (some u) = str_eq u t

apart : false ≡ true → ⊥
apart e = cc

only_second : (j : ℕ) → j ≢ 1 → get_elem? letters j ≢ some "b"
only_second zero h e = apart (ap (is_entry "b") e)
only_second (suc zero) h e = absurd (h refl)
only_second (suc (suc j)) h e = apart (ap (is_entry "b") e)

remove_item_once_example : remove_item "b" letters ≡ some ("a" ∷ [])
remove_item_once_example = remove_item_once "b" letters 1 refl only_second

no_other : CleanFrom "c" 0 letters
no_other zero h e = apart (ap (is_entry "c") e)
no_other (suc zero) h e = apart (ap (is_entry "c") e)
no_other (suc (suc j)) h e = apart (ap (is_entry "c") e)

remove_item_panics_example : remove_item "b" ("b" ∷ "a" ∷ "b" ∷ []) ≡ none
remove_item_panics_example =
    remove_item_panics "b" ("b" ∷ "a" ∷ "b" ∷ []) 0 2 refl (omega arith) refl refl

abbrev pub conf : Config.Config
conf = record {
  ns_resolver = false;
  servers = "localhost:9876" ∷ [];
  group_name = "g";
  client_id = "";
  namespace = "";
  credentials = none;
  consumer = record {
    topics = "t" ∷ [];
    mode = clustering;
    offset = from_last;
    timestamp = "";
    order = false;
    auto_commit = "none";
    batch_max_size = pos 1;
    max_reconsume_times = pos 1;
    has_handler = true;
  };
  producer = record {
    topics = [];
    timeout = pos 3;
    retry = pos 2;
    queue_selector = 0;
    async_send = true;
  };
  on_error = true;
  on_exit = true;
  on_ready = true;
}

no_x_topic : CleanFrom "x" 0 ("t" ∷ [])
no_x_topic zero h e = apart (ap (is_entry "x") e)
no_x_topic (suc j) h e = apart (ap (is_entry "x") e)

no_x_server : CleanFrom "x" 0 conf.servers
no_x_server zero h e = apart (ap (is_entry "x") e)
no_x_server (suc j) h e = apart (ap (is_entry "x") e)

no_entry : CleanFrom "x" 0 []
no_entry j h e = apart (ap (is_entry "x") e)

added_removed_example :
    (Config.remove_consumer_topic "x" (Config.add_consumer_topic "x" conf.consumer)
      ≡ some conf.consumer)
    × (Config.remove_producer_topic "x" (Config.add_producer_topic "x" conf.producer)
        ≡ some conf.producer)
    × (Config.remove_server "x" (Config.add_server "x" conf) ≡ some conf)
added_removed_example =
    added_removed "x" conf.consumer conf.producer conf no_x_topic no_entry no_x_server

abbrev queue : RingBuffer RocketMessage
queue = bounded 4

abbrev empty : Items RocketMessage
empty = record { items = []; closed = false }

abbrev first : RocketMessage
first = record { topic = "t"; message = "1"; properties = none }

abbrev second : RocketMessage
second = record { topic = "t"; message = "2"; properties = none }

abbrev made : Producer queue
made = record {
  conf = conf;
  started = false;
  draining = false;
  ctx_done = false;
  shut_down = false;
  exited = false;
  ready_calls = 0;
  error_calls = 0;
  exit_calls = 0;
  queue_size = 2;
  pump = record { queue = empty; phase = idle; accepted = []; sent = [] };
}

made_new :
    Producer.new_producer {B = queue} (λ servers. true) (some empty) (λ options. true) 2 conf
    ≡ inr made
unfolding Producer.new_producer
made_new = refl

-- The library refuses everything while the producer drains: the first message is dropped.
abbrev broken : List Producer.Event
broken =
    start
    ∷ enter
    ∷ publish first
    ∷ publish second
    ∷ send (λ r. true)
    ∷ close
    ∷ send (λ r. false)
    ∷ send (λ r. false)
    ∷ []

broken_drops : (Producer.run made broken).pump.phase ≡ stopped (first ∷ second ∷ [])
unfolding Producer.run
broken_drops = refl

rocket_accounts_example :
    let t = Producer.run made broken in
    (t.pump.accepted ≡ t.pump.sent ++ pending t.pump)
    × ((dropped : List RocketMessage)
        → t.pump.phase ≡ stopped dropped
        → ((pending t.pump ≡ []) × (queue.is_closed t.pump.queue ≡ true))
          ⊎ ((t.ctx_done ≡ true) ⊎ (t.draining ≡ true)))
rocket_accounts_example =
    rocket_accounts {B = queue} (bounded-Laws 4) (λ servers. true) empty (λ options. true) 2 conf
      made broken made_new refl (omega arith)

abbrev loaded : Producer queue
loaded = record made {
  started = true;
  pump = record {
    queue = record empty { items = second ∷ [] };
    phase = sending first [];
    accepted = first ∷ second ∷ [];
    sent = [];
  };
}

loaded-Inv : Inv loaded
loaded-Inv = record {
  conserved = record { account = refl };
  justified = record { reason = λ lost e. cc };
  room = omega arith;
}

rocket_close_drains_example :
    let t = Producer.run loaded (close ∷ replicate 4 (send sync_only)) in
    (t.pump.phase ≡ stopped []) × (t.pump.sent ≡ first ∷ second ∷ []) × (t.error_calls ≡ 0)
rocket_close_drains_example =
    rocket_close_drains {B = queue} (bounded-Laws 4) loaded 4 loaded-Inv refl tt (omega arith)
