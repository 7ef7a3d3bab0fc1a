-- ===== src/Redis/Subscriber.antt =====
-- The subscriber of Redis (redismq/sub.go): the goroutine of `SyncSubscribe` connects and subscribes,
-- the library calls back with messages and errors, `Close` stops the client and waits. An event is one
-- move of a party; every schedule of events is an interleaving. The library calls back during a
-- subscription only. Not modelled: the log lines, the pauses, and what the handler does.
pub mod Received
use kmq_utils.Prelude.{
  ℕ, ◌+◌, ◌⊎◌, inl, inr, Bool, true, false, not, ◌&&◌, ◌||◌, String, List, [], ◌∷◌, ◌++◌, is_empty,
  if◌then◌else◌,
}
use kmq_utils.Prelude.Int.{ℤ}
use kmq_utils.Redis.Config.{RedisConfig}

pub record Message : Type 0 where
  pub topic : String
  pub recv_time : ℤ
  pub message : String

-- A call back: an error, a payload that is a string, or another payload.
pub data Call : Type 0 where
  failure : Call
  text : String → ℤ → String → Call
  unknown : String → ℤ → Call

pub data Stage : Type 0 where
  idle looping pinging subscribed returned : Stage

pub record RedisSub : Type 0 where
  pub conf : RedisConfig
  pub handler : Bool  -- redisHandler is not nil
  pub stopped : Bool  -- Close stopped the handler
  pub draining : Bool
  pub connected : Bool
  pub stage : Stage
  pub ctx_done : Bool
  pub closed : Bool  -- Close has returned
  pub ready_calls : ℕ
  pub error_calls : ℕ
  pub asked : List (List String)  -- the topics of each subscription
  pub received : List Call
  pub handled : List Message

pub data Event : Type 0 where
  start : Event
  turn : Bool → Event  -- a step of the goroutine; the answer of a ping
  receive : Call → Event
  subscription_ends : Event
  close : Event
  release : Event  -- Close behind wg.Wait

unfoldable pub new_sub : RedisConfig → Unit {0} ⊎ RedisSub
new_sub conf =
    if is_empty conf.addrs
    then inl tt
    else inr (record {
      conf = conf;
      handler = true;
      stopped = false;
      draining = false;
      connected = false;
      stage = idle;
      ctx_done = false;
      closed = false;
      ready_calls = 0;
      error_calls = 0;
      asked = [];
      received = [];
      handled = [];
    })

-- dbConnect behind the making of a handler, and then startSubscription.
connect_step : Bool → RedisSub → RedisSub
connect_step true s = record s {
  handler = true;
  connected = true;
  ready_calls = if s.conf.on_ready then s.ready_calls + 1 else s.ready_calls;
  stage = subscribed;
  asked = s.asked ++ s.conf.topics ∷ [];
}
connect_step false s = record s { handler = false; connected = false; stage = looping }

-- reconnectLoop.
turn_as : Stage → Bool → RedisSub → RedisSub
unfolding connect_step
turn_as looping a s =
    if s.draining
    then record s { stage = returned }
    else if s.connected
    then s
    else record s { stage = pinging }
turn_as pinging a s = connect_step a s
turn_as _ a s = s

-- The function given to SyncPSubscribeReceive.
on_call : Call → RedisSub → RedisSub
on_call failure s = record s {
  connected = false;
  error_calls = if s.conf.on_error then s.error_calls + 1 else s.error_calls;
  received = s.received ++ failure ∷ [];
}
on_call (text topic time m) s = record s {
  received = s.received ++ text topic time m ∷ [];
  handled =
      if s.conf.has_handler
      then s.handled ++ record { topic = topic; recv_time = time; message = m } ∷ []
      else s.handled;
}
on_call (unknown topic time) s = record s { received = s.received ++ unknown topic time ∷ [] }

receive_as : Stage → Call → RedisSub → RedisSub
unfolding on_call
receive_as subscribed c s = on_call c s
receive_as _ c s = s

end_as : Stage → RedisSub → RedisSub
end_as subscribed s = record s { stage = looping }
end_as _ s = s

start_as : Stage → RedisSub → RedisSub
start_as idle s = record s { stage = looping }
start_as _ s = s

is_subscribed : Stage → Bool
is_subscribed subscribed = true
is_subscribed _ = false

-- Close up to its wait.
unfoldable pub close_up : RedisSub → RedisSub
close_up s = record s {
  draining = true;
  connected = false;
  stopped = s.handler || s.stopped;
  ctx_done = true;
}

unfoldable pub step : RedisSub → Event → RedisSub
unfolding turn_as receive_as end_as start_as is_subscribed close_up
step s start = start_as s.stage s
step s (turn a) = turn_as s.stage a s
step s (receive c) = receive_as s.stage c s
step s subscription_ends = end_as s.stage s
step s close = close_up s
step s release = if s.draining && not (is_subscribed s.stage) then record s { closed = true } else s

unfoldable pub run : RedisSub → List Event → RedisSub
unfolding step
run s [] = s
run s (e ∷ es) = run (step s e) es
