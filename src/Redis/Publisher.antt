-- ===== src/Redis/Publisher.antt =====
-- The publisher of Redis (redismq/pub.go): `Publish` puts messages into the queue, the goroutine of
-- `Start` connects, publishes batches, and connects again where an error marked the connection as
-- lost, `Close` waits until it has left startPublish. An event is one move of a party; every schedule
-- of events is an interleaving. Each read of `draining` is an event of its own where Close may come
-- between two reads. A ping and a publication are answered by whether they came back without an error.
-- Not modelled: the log lines and the pauses.
pub mod Accounts
pub mod Drains
use kmq_utils.Prelude.{
  pick, ℕ, suc, ◌+◌, ◌/◌, ◌⊎◌, inl, inr, Bool, true, false, not, ◌&&◌, ◌||◌, max, leb, String,
  Option, none, some, List, [], ◌∷◌, ◌++◌, is_empty, if◌then◌else◌,
}
use kmq_utils.RingBuffer.{RingBuffer}
use kmq_utils.Redis.Config.{RedisConfig}

pub record RedisMessage : Type 0 where
  pub topic : String
  pub message : String

pub data NewError : Type 0 where
  empty_addrs queue_error : NewError

-- Where the goroutine of Start is: not started, at the head of reconnectLoop, behind its test of
-- `draining`, at the head of startPublish, in an attempt to publish a batch, behind one that failed,
-- returned. A batch comes with drainRetries.
pub data Stage : Type 0 where
  idle looping pinging reading returned : Stage
  trying failing : List RedisMessage → ℕ → Stage

pub record RedisPub (B : RingBuffer RedisMessage) : Type 0 where
  pub conf : RedisConfig
  pub handler : Bool  -- redisHandler is not nil
  pub stopped : Bool  -- Close stopped the handler
  pub draining : Bool
  pub connected : Bool
  pub buffer_size : ℕ
  pub stage : Stage
  pub queue : B.Buf
  pub ctx_done : Bool
  pub ready_calls : ℕ
  pub error_calls : ℕ
  pub entering : List RedisMessage  -- in Publish behind its read of `draining`
  pub accepted : List RedisMessage
  pub settled : List RedisMessage  -- batches that PublishArray is done with, in order
  pub dropped : List RedisMessage  -- those of them that it gave up

pub data Event : Type 0 where
  publish : RedisMessage → Event
  publish_message : String → String → Event
  enter : ℕ → Event  -- one of the calls of Publish puts its message in
  start : Event
  turn : Bool → Event  -- a step of the goroutine; the answer of a ping or of a publication
  close : Event
  release : Event  -- Close behind wg.Wait

-- DefaultBatchSize, maxDrainRetries.
abbrev default_batch_size : ℕ
default_batch_size = 32

abbrev max_drain_retries : ℕ
max_drain_retries = 3

-- The goroutine is in startPublish, which wg counts.
unfoldable pub is_publishing : Stage → Bool
is_publishing reading = true
is_publishing (trying ms k) = true
is_publishing (failing ms k) = true
is_publishing _ = false

module _ {B : RingBuffer RedisMessage} where
  fresh : B.Buf → ℕ → RedisConfig → RedisPub B
  fresh q size conf = record {
    conf = conf;
    handler = true;
    stopped = false;
    draining = false;
    connected = false;
    buffer_size = size;
    stage = idle;
    queue = q;
    ctx_done = false;
    ready_calls = 0;
    error_calls = 0;
    entering = [];
    accepted = [];
    settled = [];
    dropped = [];
  }

  -- NewRedisPub; the queue is the answer of NewLockedRingBuffer.
  unfoldable pub new_pub : Option B.Buf → ℕ → RedisConfig → NewError ⊎ RedisPub B
  unfolding fresh
  new_pub none size conf = inl (if is_empty conf.addrs then empty_addrs else queue_error)
  new_pub (some q) size conf =
      if is_empty conf.addrs then inl empty_addrs else inr (fresh q size conf)

  -- Enqueue, and the answer of Publish.
  put : RedisMessage → Bool × B.Buf → RedisPub B → Bool × RedisPub B
  put m (true, q) s = (true, record s { queue = q; accepted = s.accepted ++ m ∷ [] })
  put m (false, q) s = (false, record s { queue = q })

  -- Publish up to its read of `draining`; where that is set, it answers false.
  unfoldable pub publish_msg : RedisMessage → RedisPub B → Option Bool × RedisPub B
  publish_msg m s =
      if s.draining then (some false, s) else (none, record s { entering = s.entering ++ m ∷ [] })

  enter_as : Option (RedisMessage × List RedisMessage) → RedisPub B → Option Bool × RedisPub B
  unfolding put
  enter_as none s = (none, s)
  enter_as (some (m, others)) s =
      let (ok, t) = put m (B.enqueue m s.queue) (record s { entering = others }) in (some ok, t)

  unfoldable pub enter_publish : ℕ → RedisPub B → Option Bool × RedisPub B
  unfolding enter_as
  enter_publish n s = enter_as (pick n s.entering) s

  -- A batch for PublishArray.
  begin_batch : Stage → List RedisMessage × B.Buf → RedisPub B → RedisPub B
  begin_batch empty ([], q) s = record s { queue = q; stage = empty }
  begin_batch empty (m ∷ ms, q) s = record s { queue = q; stage = trying (m ∷ ms) 0 }

  -- The loop of startPublish. The rest is drained while closing.
  read_step : RedisPub B → RedisPub B
  unfolding begin_batch
  read_step s =
      if s.draining
      then begin_batch looping (B.dequeue_to s.buffer_size s.queue) s
      else if not s.connected
      then record s { stage = looping }
      else begin_batch (if B.is_closed s.queue then looping else reading)
          (B.dequeue_to (max (s.buffer_size / 4) default_batch_size) s.queue) s

  -- PublishArrayWithCtx or PublishArray of the toolkit, and onError.
  try_step : List RedisMessage → ℕ → Bool → RedisPub B → RedisPub B
  try_step ms k true s = record s { stage = reading; settled = s.settled ++ ms }
  try_step ms k false s = if s.draining then record s { stage = failing ms k } else record s {
    stage = failing ms k;
    connected = false;
    error_calls = if s.conf.on_error then s.error_calls + 1 else s.error_calls;
  }

  -- Behind a failed attempt.
  again_step : List RedisMessage → ℕ → RedisPub B → RedisPub B
  again_step ms k s =
      if s.draining
      then (if leb max_drain_retries (suc k)
          then record s { stage = reading; settled = s.settled ++ ms; dropped = s.dropped ++ ms }
          else record s { stage = trying ms (suc k) })
      else record s { stage = trying ms k }

  -- dbConnect behind the making of a handler.
  connect_step : Bool → RedisPub B → RedisPub B
  connect_step true s = record s {
    handler = true;
    connected = true;
    ready_calls = if s.conf.on_ready then s.ready_calls + 1 else s.ready_calls;
    stage = reading;
  }
  connect_step false s = record s { handler = false; connected = false; stage = looping }

  turn_as : Stage → Bool → RedisPub B → RedisPub B
  unfolding read_step try_step again_step connect_step
  turn_as idle a s = s
  turn_as looping a s =
      if s.draining
      then record s { stage = returned }
      else if s.connected
      then s
      else record s { stage = pinging }
  turn_as pinging a s = connect_step a s
  turn_as reading a s = read_step s
  turn_as (trying ms k) a s = try_step ms k a s
  turn_as (failing ms k) a s = again_step ms k s
  turn_as returned a s = s

  -- Start.
  start_as : Stage → RedisPub B → RedisPub B
  start_as idle s = record s { stage = looping }
  start_as _ s = s

  -- Close behind wg.Wait.
  unfoldable pub release_pub : RedisPub B → RedisPub B
  unfolding is_publishing
  release_pub s =
      if s.draining && not (is_publishing s.stage)
      then record s { queue = B.close s.queue; stopped = s.handler || s.stopped; ctx_done = true }
      else s

  unfoldable pub step : RedisPub B → Event → RedisPub B
  unfolding publish_msg enter_publish turn_as start_as release_pub
  step s (publish m) = (publish_msg m s).1
  step s (publish_message topic message) =
      (publish_msg (record { topic = topic; message = message }) s).1
  step s (enter n) = (enter_publish n s).1
  step s start = start_as s.stage s
  step s (turn a) = turn_as s.stage a s
  step s close = record s { draining = true; connected = false }
  step s release = release_pub s

  unfoldable pub run : RedisPub B → List Event → RedisPub B
  unfolding step
  run s [] = s
  run s (e ∷ es) = run (step s e) es
