-- ===== src/Tests/Redis.antt =====
-- Runs of the clients of Redis.
use kmq_utils.Prelude.{
  ◌<◌, ◌≡◌, refl, ◌⊎◌, inr, true, false, Bool, String, List, [], ◌∷◌, ◌++◌, some, none, arith, map,
}
use kmq_utils.Prelude.Int.{pos}
use kmq_utils.RingBuffer.{RingBuffer, Items, bounded, bounded-Laws}
use kmq_utils.Redis.Config.{RedisConfig}
use kmq_utils.Redis.Publisher
use kmq_utils.Redis.Publisher.{
  RedisMessage, RedisPub, Event, publish, enter, start, turn, close, trying, returned,
}
use kmq_utils.Redis.Publisher.Accounts.{in_hand, retries, run-Inv, new_pub-Inv, redis_accounts, Inv}
use kmq_utils.Redis.Publisher.Drains.{redis_close_ends}
use kmq_utils.Redis.Subscriber
use kmq_utils.Redis.Subscriber.{RedisSub}
use kmq_utils.Redis.Subscriber.Received.{quiet_end_sticks}
use kmq_utils.Redis.Toolkit
use kmq_utils.Redis.Toolkit.{Library, RedisToolkit}
use kmq_utils.Redis.Toolkit.Modes
use kmq_utils.Redis.Toolkit.Modes.{replies, mode_replies, mode_of, toolkit_refines_mode}

abbrev conf : RedisConfig
conf = record {
  addrs = "a" ∷ [];
  password = "p";
  db = pos 0;
  retry = pos 5;
  topics = "t" ∷ [];
  on_error = true;
  on_exit = false;
  on_ready = true;
  has_handler = true;
}

abbrev queue : RingBuffer RedisMessage
queue = bounded 3

abbrev empty : Items RedisMessage
empty = record { items = []; closed = false }

abbrev first : RedisMessage
first = record { topic = "t"; message = "1" }

abbrev second : RedisMessage
second = record { topic = "t"; message = "2" }

abbrev made : RedisPub queue
made = record {
  conf = conf;
  handler = true;
  stopped = false;
  draining = false;
  connected = false;
  buffer_size = 3;
  stage = Publisher.idle;
  queue = empty;
  ctx_done = false;
  ready_calls = 0;
  error_calls = 0;
  entering = [];
  accepted = [];
  settled = [];
  dropped = [];
}

made_new : Publisher.new_pub {B = queue} (some empty) 3 conf ≡ inr made
unfolding Publisher.new_pub
made_new = refl

-- The first message is in an attempt that fails, the second in the queue.
abbrev loading : List Event
loading =
    start
    ∷ publish first
    ∷ enter 0
    ∷ turn true
    ∷ turn true
    ∷ turn true
    ∷ publish second
    ∷ enter 0
    ∷ turn false
    ∷ turn true
    ∷ []

redis_accounts_example :
    let t = Publisher.run made loading in
    (t.accepted ≡ t.settled ++ (in_hand t.stage ++ queue.contents t.queue))
    × (retries t.stage < 3)
    × ((t.draining ≡ true) ⊎ (t.dropped ≡ []))
redis_accounts_example =
    redis_accounts {B = queue} (bounded-Laws 3) empty 3 conf made loading made_new refl

abbrev loaded : RedisPub queue
loaded = Publisher.run made loading

loaded_tries : (loaded.stage ≡ trying (first ∷ []) 0) × (loaded.error_calls ≡ 1)
unfolding Publisher.run
loaded_tries = (refl, refl)

loaded-Inv : Inv loaded
loaded-Inv =
    run-Inv {B = queue} (bounded-Laws 3) made loading
      (new_pub-Inv {B = queue} (bounded-Laws 3) empty 3 conf made made_new refl)

-- The first message is given up, the second one is sent.
abbrev answers : List Bool
answers =
    false ∷ false ∷ false ∷ false ∷ false ∷ false ∷ false ∷ true ∷ true ∷ true ∷ true ∷ true ∷ true
    ∷ true ∷ true ∷ []

redis_close_ends_example :
    let t = Publisher.run loaded (close ∷ map turn answers) in
    (t.stage ≡ returned) × (t.settled ≡ loaded.accepted)
unfolding Publisher.run Publisher.is_publishing
redis_close_ends_example =
    redis_close_ends {B = queue} (bounded-Laws 3) answers loaded loaded-Inv refl (omega arith)
      (omega arith)

drops_first : (Publisher.run loaded (close ∷ map turn answers)).dropped ≡ first ∷ []
unfolding Publisher.run
drops_first = refl

abbrev library : Library
library = record {
  Single = String;
  Cluster = List String;
  Error = String;
  empty_addrs = "empty addrs";
  wrap_error = "wrap error";
  new_single = λ a p d. a;
  new_cluster = λ as_list p d. as_list;
  ping = λ c. true;
  ping_cluster = λ c. true;
  ping_e = λ c. none;
  ping_e_cluster = λ c. none;
  publish = λ c t m. none;
  publish_cluster = λ c t m. none;
  publish_array = λ c ms. [];
  publish_array_cluster = λ c ms. [];
  publish_array_with_ctx = λ c ms. [];
  publish_array_with_ctx_cluster = λ c ms. [];
}

abbrev toolkit : RedisToolkit library
toolkit = record {
  handler = record {
    client = some "a";
    cluster_client = none;
    stopped = [];
    stopped_clusters = [];
  };
  conf = conf;
}

toolkit_new : Toolkit.new_toolkit {K = library} conf ≡ some toolkit
unfolding Toolkit.new_toolkit
toolkit_new = refl

abbrev some_calls : List Modes.Call
some_calls =
    Modes.ping_e
    ∷ Modes.publish_array (first ∷ [])
    ∷ Modes.stop
    ∷ Modes.ping
    ∷ Modes.stop
    ∷ Modes.ping_e
    ∷ []

toolkit_refines_mode_example :
    replies toolkit some_calls
    ≡ mode_replies {K = library} (mode_of ("a" ∷ []) "p" (pos 0)) some_calls
toolkit_refines_mode_example =
    toolkit_refines_mode {K = library} conf toolkit some_calls toolkit_new

abbrev sub : RedisSub
sub = record {
  conf = conf;
  handler = true;
  stopped = false;
  draining = false;
  connected = false;
  stage = Subscriber.idle;
  ctx_done = false;
  closed = false;
  ready_calls = 0;
  error_calls = 0;
  asked = [];
  received = [];
  handled = [];
}

sub_new : Subscriber.new_sub conf ≡ inr sub
unfolding Subscriber.new_sub
sub_new = refl

abbrev session : List Subscriber.Event
session =
    Subscriber.start
    ∷ Subscriber.turn true
    ∷ Subscriber.turn true
    ∷ Subscriber.receive (Subscriber.text "t" (pos 1) "m")
    ∷ Subscriber.receive (Subscriber.unknown "t" (pos 2))
    ∷ Subscriber.receive Subscriber.failure
    ∷ []

session_handles :
    (Subscriber.run sub session).handled
    ≡ record { topic = "t"; recv_time = pos 1; message = "m" } ∷ []
unfolding Subscriber.run
session_handles = refl

abbrev listening : RedisSub
listening = record sub { stage = Subscriber.subscribed; connected = true }

quiet_end_sticks_example :
    Subscriber.run listening (Subscriber.subscription_ends ∷ map Subscriber.turn (true ∷ true ∷ []))
    ≡ record listening { stage = Subscriber.looping }
quiet_end_sticks_example = quiet_end_sticks listening (true ∷ true ∷ []) refl refl refl
