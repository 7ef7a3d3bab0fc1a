-- ===== src/Rabbit/Consumer.antt =====
-- The RabbitMQ consumer (rabbitmq/sub.go): deliveries run at once in goroutines of the library, which
-- `Close` waits for. An event is a move of a party; a delivery takes two, its start, which reads
-- `isClosed`, and its end, which answers the broker.
-- Not modelled: the log lines, and a second SyncSubscribe at once.
pub mod Shutdown
use kmq_utils.Prelude.{
  ℕ, zero, suc, ◌+◌, ◌-◌, Bool, true, false, not, ◌&&◌, ◌||◌, String, List, [], ◌∷◌, ◌++◌, str_eq,
  is_empty, head_or, str_append, if◌then◌else◌, ◌==◌, ◌⊎◌, inl, inr,
}

abbrev pub auto_commit_native : String
auto_commit_native = "native"

pub data Action : Type 0 where
  ack nack_requeue manual : Action

-- The fields of the configuration that decide what the consumer does.
pub record Config : Type 0 where
  pub user : String
  pub password : String
  pub addrs : List String
  pub vhost : String
  pub queue_name : String
  pub router_key : String
  pub exchange : String
  pub work_type : String
  pub auto_commit : String
  pub has_handler : Bool
  pub on_ready : Bool
  pub on_exit : Bool

pub data NewError : Type 0 where
  empty_addrs conn_error consumer_error : NewError

pub data ConsumerOption : Type 0 where
  logger exchange_durable exchange_declare queue_durable : ConsumerOption
  routing_key exchange_name exchange_kind binding : String → ConsumerOption
  auto_ack : Bool → ConsumerOption

-- The address given to NewConn. `addrs` is not empty there.
unfoldable pub url : Config → String
url conf = str_append "amqp://" (
    str_append conf.user (
      str_append ":" (
        str_append conf.password (str_append "@" (str_append (head_or "" conf.addrs) conf.vhost)))))

unfoldable pub consumer_options : Config → List ConsumerOption
consumer_options conf =
    routing_key conf.router_key
    ∷ exchange_name conf.exchange
    ∷ logger
    ∷ auto_ack (str_eq conf.auto_commit auto_commit_native)
    ∷ exchange_kind conf.work_type
    ∷ exchange_durable
    ∷ exchange_declare
    ∷ queue_durable
    ∷ binding conf.router_key
    ∷ []

-- `arrived`, `handled` and `answers` record which deliveries came, which of them reached the
-- handler, and what the library was told; `manual` leaves the answer to the
-- broker to the application.
pub record Consumer : Type 0 where
  pub conf : Config
  pub is_closed : Bool
  pub conn_open : Bool
  pub subscribed : Bool  -- SyncSubscribe runs: wg counts it
  pub running : Bool  -- inside consumer.Run
  pub busy : List ℕ  -- the deliveries in the handler, which subWg counts
  pub arrived : List ℕ
  pub handled : List ℕ
  pub answers : List (ℕ × Action)  -- what the function given to Run returned
  pub ready_calls : ℕ
  pub exit_calls : ℕ

pub data Event : Type 0 where
  subscribe : Event
  deliver : ℕ → Event  -- a delivery arrives, and its function starts
  finish : ℕ → Event  -- the function of a delivery that reached the handler returns
  run_returns : Event  -- consumer.Run returns: after consumer.Close, or with an error
  leave : Event  -- SyncSubscribe behind subWg.Wait()
  close : Event
  release : Event  -- Close behind wg.Wait()

fresh : Config → Consumer
fresh conf = record {
  conf = conf;
  is_closed = false;
  conn_open = true;
  subscribed = false;
  running = false;
  busy = [];
  arrived = [];
  handled = [];
  answers = [];
  ready_calls = if conf.on_ready then 1 else 0;
  exit_calls = 0;
}

-- NewConsumer; the first two arguments answer for NewConn and for NewConsumer of the library.
unfoldable pub new_consumer :
    (String → Bool) → (String → List ConsumerOption → Bool) → Config → NewError ⊎ Consumer
unfolding fresh url consumer_options
new_consumer conn made conf =
    if is_empty conf.addrs
    then inl empty_addrs
    else if not (conn (url conf))
    then inl conn_error
    else if not (made conf.queue_name (consumer_options conf))
    then inl consumer_error
    else inr (fresh conf)

-- SyncSubscribe, up to Run. One subscription at a time.
unfoldable pub start_run : Consumer → Consumer
start_run c = if c.subscribed then c else record c { subscribed = true; running = true }

-- The answer to a delivery that the handler has seen.
unfoldable pub action_of : Config → Action
action_of conf = if str_eq conf.auto_commit auto_commit_native then ack else manual

-- The function given to Run, up to the handler.
unfoldable pub on_delivery : ℕ → Consumer → Consumer
on_delivery d c =
    if c.is_closed
    then record c { arrived = c.arrived ++ d ∷ []; answers = c.answers ++ (d, nack_requeue) ∷ [] }
    else record c {
      arrived = c.arrived ++ d ∷ [];
      busy = c.busy ++ d ∷ [];
      handled = if c.conf.has_handler then c.handled ++ d ∷ [] else c.handled;
    }

abbrev pub member : ℕ → List ℕ → Bool
member d [] = false
member d (x ∷ xs) = d == x || member d xs

abbrev pub erase : ℕ → List ℕ → List ℕ
erase d [] = []
erase d (x ∷ xs) = if d == x then xs else x ∷ erase d xs

-- The function given to Run, behind the handler.
unfoldable pub end_delivery : ℕ → Consumer → Consumer
unfolding action_of
end_delivery d c =
    if member d c.busy
    then record c { busy = erase d c.busy; answers = c.answers ++ (d, action_of c.conf) ∷ [] }
    else c

unfoldable pub end_run : Consumer → Consumer
end_run c = record c { running = false }

-- SyncSubscribe behind subWg.Wait().
unfoldable pub leave_subscribe : Consumer → Consumer
leave_subscribe c =
    if c.subscribed && (not c.running && is_empty c.busy)
    then record c {
      subscribed = false;
      exit_calls = if c.conf.on_exit then c.exit_calls + 1 else c.exit_calls;
    }
    else c

-- Close up to wg.Wait(). Closing the consumer makes Run return, an event of its own.
unfoldable pub close_up : Consumer → Consumer
close_up c = record c { is_closed = true }

unfoldable pub release_conn : Consumer → Consumer
release_conn c = if c.is_closed && not c.subscribed then record c { conn_open = false } else c

unfoldable pub step : Consumer → Event → Consumer
unfolding start_run on_delivery end_delivery end_run leave_subscribe close_up release_conn
step c subscribe = start_run c
step c (deliver d) = on_delivery d c
step c (finish d) = end_delivery d c
step c run_returns = end_run c
step c leave = leave_subscribe c
step c close = close_up c
step c release = release_conn c

unfoldable pub run : Consumer → List Event → Consumer
unfolding step
run c [] = c
run c (e ∷ es) = run (step c e) es
