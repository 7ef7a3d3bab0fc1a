-- ===== src/Tests/Rabbit.antt =====
-- Runs of the RabbitMQ clients.
use kmq_utils.Prelude.{
  if◌then◌else◌, str_eq, ◌≡◌, refl, ◌⊎◌, inr, true, false, List, [], ◌∷◌, ◌++◌, some, arith,
  replicate,
}
use kmq_utils.RingBuffer.{RingBuffer, Items, bounded, bounded-Laws}
use kmq_utils.Pump.{idle, stopped, sending, pending}
use kmq_utils.Rabbit.Producer
use kmq_utils.Rabbit.Producer.{
  RabbitMessage, Producer, publish, start, unblock, send, close, ok, refused,
}
use kmq_utils.Rabbit.Producer.Conserved.{Inv, rabbit_accounts}
use kmq_utils.Rabbit.Producer.Drained.{rabbit_close_drains}
use kmq_utils.Rabbit.Consumer
use kmq_utils.Rabbit.Consumer.{Consumer, subscribe, deliver, finish, run_returns, leave, release}
use kmq_utils.Rabbit.Consumer.Shutdown.{told, told_as, times, wanted, OnlyRunning, run_shutdown}

abbrev queue : RingBuffer RabbitMessage
queue = bounded 4

abbrev empty : Items RabbitMessage
empty = record { items = []; closed = false }

abbrev conf : Producer.Config
conf = record {
  user = "u";
  password = "p";
  addrs = "localhost:5672" ∷ [];
  vhost = "/";
  exchange = "e";
  work_type = "direct";
  return_ack = false;
  on_ready = true;
}

abbrev first : RabbitMessage
first = record { exchange = "e"; router = "r" ∷ []; body = "1" }

abbrev second : RabbitMessage
second = record { exchange = "e"; router = "r" ∷ []; body = "2" }

abbrev made : Producer queue
made = record {
  conf = conf;
  started = false;
  draining = false;
  ctx_done = false;
  open_link = true;
  ready_calls = 0;
  queue_size = 2;
  pump = record { queue = empty; phase = idle; accepted = []; sent = [] };
}

made_new :
    Producer.new_producer {B = queue}
      (some empty)
      (λ address. str_eq address "amqp://u:p@localhost:5672/")
      (λ options. true)
      2
      conf
    ≡ inr made
unfolding Producer.new_producer
made_new = refl

-- The link breaks while the producer drains: the first message is dropped, though it was accepted.
abbrev broken : List Producer.Event
broken =
    start
    ∷ publish first
    ∷ publish second
    ∷ send ok
    ∷ close
    ∷ unblock
    ∷ send refused
    ∷ send refused
    ∷ []

broken_drops : (Producer.run made broken).pump.phase ≡ stopped (first ∷ second ∷ [])
unfolding Producer.run
broken_drops = refl

rabbit_accounts_example :
    let t = Producer.run made broken in
    (t.pump.accepted ≡ t.pump.sent ++ pending t.pump)
    × ((lost : List RabbitMessage)
        → t.pump.phase ≡ stopped lost
        → ((pending t.pump ≡ []) × (queue.is_closed t.pump.queue ≡ true)) ⊎ (t.draining ≡ true))
rabbit_accounts_example =
    rabbit_accounts {B = queue} (bounded-Laws 4) empty
      (λ address. str_eq address "amqp://u:p@localhost:5672/") (λ options. true) 2 conf made broken
      made_new refl (omega arith)

abbrev loaded : Producer queue
loaded = record made {
  started = true;
  pump = record {
    queue = record empty { items = second ∷ [] };
    phase = sending first [];
    accepted = first ∷ second ∷ [];
    sent = [];
  };
}

loaded-Inv : Inv loaded
loaded-Inv = record {
  conserved = record { account = refl };
  justified = record { reason = λ lost e. cc };
  room = omega arith;
}

rabbit_close_drains_example :
    let t = Producer.run loaded (close ∷ unblock ∷ replicate 4 (send ok)) in
    (t.pump.phase ≡ stopped []) × (t.pump.sent ≡ first ∷ second ∷ [])
rabbit_close_drains_example =
    rabbit_close_drains {B = queue} (bounded-Laws 4) loaded 4 loaded-Inv refl refl refl tt
      (omega arith)

abbrev consumer_conf : Consumer.Config
consumer_conf = record {
  user = "u";
  password = "p";
  addrs = "localhost:5672" ∷ [];
  vhost = "/";
  queue_name = "q";
  router_key = "r";
  exchange = "e";
  work_type = "direct";
  auto_commit = "none";
  has_handler = true;
  on_ready = true;
  on_exit = true;
}

abbrev consumer : Consumer
consumer = record {
  conf = consumer_conf;
  is_closed = false;
  conn_open = true;
  subscribed = false;
  running = false;
  busy = [];
  arrived = [];
  handled = [];
  answers = [];
  ready_calls = 1;
  exit_calls = 0;
}

consumer_new :
    Consumer.new_consumer (λ address. true) (λ name options. true) consumer_conf ≡ inr consumer
unfolding Consumer.new_consumer
consumer_new = refl

abbrev shutting : List Consumer.Event
shutting =
    subscribe
    ∷ deliver 1
    ∷ Consumer.close
    ∷ deliver 2
    ∷ finish 1
    ∷ run_returns
    ∷ leave
    ∷ release
    ∷ []

shut_down : (Consumer.run consumer shutting).conn_open ≡ false
unfolding Consumer.run
shut_down = refl

running_only : OnlyRunning consumer shutting
unfolding Consumer.run
running_only = (refl, (refl, tt))

told_all :
    (Consumer.run consumer shutting).answers
    ≡ (2, Consumer.nack_requeue) ∷ (1, Consumer.manual) ∷ []
unfolding Consumer.run
told_all = refl

run_shutdown_example :
    let t = Consumer.run consumer shutting in
    (t.is_closed ≡ true)
    × (t.busy ≡ [])
    × (told 1 t.answers ≡ times 1 t.arrived)
    × (times 1 t.handled ≡ (if t.conf.has_handler then told_as (wanted t.conf) 1 t.answers else 0))
run_shutdown_example =
    run_shutdown (λ address. true) (λ name options. true) consumer_conf consumer shutting 1
      consumer_new running_only shut_down
