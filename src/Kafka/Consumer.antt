-- ===== src/Kafka/Consumer.antt =====
-- The Kafka consumer (kafkamq/sub.go): the library calls the group handler, whose claims put messages
-- into the queue and mark them, `SyncSubscribe` runs a worker that takes them to the handler, and
-- `Close` ends both. An event is one move of a party; every schedule of events is an interleaving.
-- A claim is one call of ConsumeClaim, known by a number. Its turns of the inner loop are two events:
-- the test of the contexts and the attempt to put the message in; marking is a third.
-- Not modelled: the log lines, what the handler does, and a second call of SyncSubscribe.
pub mod Claims
pub mod Keeps
pub mod Late
pub mod Setup
pub mod Shutdown
use kmq_utils.Prelude.{
  ℕ, ◌+◌, ◌==◌, ◌⊎◌, inl, inr, Bool, true, false, not, ◌&&◌, ◌||◌, String, Option, none, some, List,
  [], ◌∷◌, ◌++◌, is_empty, if◌then◌else◌,
}
use kmq_utils.Prelude.Int.{ℤ, suc_ℤ}
use kmq_utils.RingBuffer.{RingBuffer}
use kmq_utils.Kafka.Topics.{Topic, Brokers, query_topics}
use kmq_utils.Kafka.Producer.{KafkaMessage}
use kmq_utils.Kafka.Session.{
  Stand, waiting, spinning, cleared, entered, over, Claim, new_claim, receive_one, look_one,
  mark_one, resets_for,
}

-- The goroutine that hands messages to the handler, with the rest of its batch; `empty_handed` is
-- behind a TryDequeueTo that got nothing and before the test of the context.
pub data Worker : Type 0 where
  absent stopped empty_handed : Worker
  holding : List KafkaMessage → Worker

-- SyncSubscribe: not called, waiting for the context, behind tmpCtx.Cancel, behind group.Close,
-- behind queue.Close, returned.
pub data Phase : Type 0 where
  fresh blocked pausing closed_group closed_queue exited : Phase

pub record Callbacks : Type 0 where
  pub on_ready : Bool
  pub on_exit : Bool

pub record ConsumerGroup (B : RingBuffer KafkaMessage) : Type 0 where
  pub conf : Callbacks
  pub topics : List Topic
  pub queue : B.Buf
  pub buffer_size : ℕ
  pub ctx_done : Bool
  pub tmp_done : Bool
  pub consuming : Bool  -- the goroutine that calls Consume
  pub paused : Bool
  pub open_group : Bool
  pub setup_done : Bool  -- once
  pub resets : List (String × (ℤ × ℤ))  -- ResetOffset, by topic, partition and offset
  pub claims : ℕ → Claim
  pub phase : Phase
  pub worker : Worker
  pub accepted : List KafkaMessage
  pub handled : List KafkaMessage  -- given to consumerHandler, which calls the handler if there is one
  pub ready_calls : ℕ
  pub exit_calls : ℕ
  pub acked : List (String × (ℤ × ℤ))  -- MarkOffset by KafkaMessage.Ack
  pub closing : Bool  -- Close was called
  pub removed : Bool  -- Close has returned

pub data NewError : Type 0 where
  kerberos_error client_error group_error queue_error : NewError

pub data Event : Type 0 where
  subscribe : Event
  setup : List (String × List ℤ) → Event  -- Setup, with the claims of the session
  receive : ℕ → KafkaMessage → Event  -- a claim reads from its channel
  look : ℕ → Bool → Event  -- the test of the contexts; whether the session's is done
  enter : ℕ → Event  -- TryEnqueue
  mark : ℕ → Event
  consume_returns : Event
  work : Event  -- a step of the worker
  wake : Event  -- SyncSubscribe finds its context done
  close_group : Event
  close_queue : Event
  leave : Event  -- SyncSubscribe behind workerWg.Wait
  close : Event
  release : Event  -- Close behind wg.Wait
  ack : KafkaMessage → Event  -- KafkaMessage.Ack of a message with a session
  cancel : Event  -- the application cancels the context

started_worker : Worker → Worker
started_worker absent = holding []
started_worker w = w

has_stopped : Worker → Bool
has_stopped stopped = true
has_stopped _ = false

-- wg.Wait returns where SyncSubscribe is not running.
is_running : Phase → Bool
is_running fresh = false
is_running exited = false
is_running _ = true

module _ {B : RingBuffer KafkaMessage} where
  made : B.Buf → ℕ → List Topic → Callbacks → ConsumerGroup B
  made q size topics conf = record {
    conf = conf;
    topics = topics;
    queue = q;
    buffer_size = size;
    ctx_done = false;
    tmp_done = false;
    consuming = false;
    paused = false;
    open_group = true;
    setup_done = false;
    resets = [];
    claims = λ id. new_claim;
    phase = fresh;
    worker = absent;
    accepted = [];
    handled = [];
    ready_calls = 0;
    exit_calls = 0;
    acked = [];
    closing = false;
    removed = false;
  }

  -- NewConsumerGroup. The first arguments answer for applyConsumerKerberosEnv, NewClient and
  -- NewConsumerGroupFromClient, the queue is the answer of NewLockedRingBuffer.
  unfoldable pub new_group :
      Bool
      → Option Brokers
      → Bool
      → Option B.Buf
      → ℕ
      → List Topic
      → Callbacks
      → NewError ⊎ ConsumerGroup B
  unfolding made query_topics
  new_group kerberos none library q size topics conf =
      inl (if kerberos then client_error else kerberos_error)
  new_group kerberos (some b) library none size topics conf =
      inl (if not kerberos then kerberos_error else if library then queue_error else group_error)
  new_group kerberos (some b) library (some q) size topics conf =
      if not kerberos
      then inl kerberos_error
      else if not library
      then inl group_error
      else inr (made q size (query_topics b topics) conf)

  -- SyncSubscribe up to its wait.
  subscribe_as : Phase → ConsumerGroup B → ConsumerGroup B
  unfolding started_worker
  subscribe_as fresh s = record s {
    phase = blocked;
    consuming = true;
    worker = started_worker s.worker;
    ready_calls = if s.conf.on_ready then s.ready_calls + 1 else s.ready_calls;
  }
  subscribe_as _ s = s

  -- Setup.
  unfoldable pub set_up : List (String × List ℤ) → ConsumerGroup B → ConsumerGroup B
  unfolding resets_for
  set_up claimed s =
      if s.consuming && not s.setup_done
      then record s { setup_done = true; resets = s.resets ++ resets_for s.topics claimed }
      else s

  put_claim : ℕ → Claim → ConsumerGroup B → ConsumerGroup B
  put_claim id c s = record s { claims = λ n. if n == id then c else s.claims n }

  -- TryEnqueue, and the claim behind it. A queue that is full or closed is tried again.
  entered_or : KafkaMessage → ℕ → Claim → Bool × B.Buf → ConsumerGroup B → ConsumerGroup B
  unfolding put_claim
  entered_or m id c (true, q) s =
      put_claim id (record c { stand = entered m; taken = c.taken ++ m ∷ [] })
        (record s { queue = q; accepted = s.accepted ++ m ∷ [] })
  entered_or m id c (false, q) s =
      put_claim id (record c { stand = spinning m }) (record s { queue = q })

  enter_as : Stand → ℕ → ConsumerGroup B → ConsumerGroup B
  unfolding entered_or
  enter_as (cleared m) id s = entered_or m id (s.claims id) (B.enqueue m s.queue) s
  enter_as _ id s = s

  unfoldable pub enter_one : ℕ → ConsumerGroup B → ConsumerGroup B
  unfolding enter_as
  enter_one id s = enter_as (s.claims id).stand id s

  -- The worker: the rest of its batch, or another TryDequeueTo, which ends it where the queue is over,
  -- or the test of the context.
  work_as : Worker → ConsumerGroup B → ConsumerGroup B
  work_as absent s = s
  work_as stopped s = s
  work_as (holding (m ∷ ms)) s = record s { worker = holding ms; handled = s.handled ++ m ∷ [] }
  work_as (holding []) s =
      let (ms, q) = B.dequeue_to s.buffer_size s.queue in
      record s {
        queue = q;
        worker =
            if is_empty ms
            then (if B.is_closed s.queue then stopped else empty_handed)
            else holding ms;
      }
  work_as empty_handed s = record s { worker = if s.ctx_done then stopped else holding [] }

  unfoldable pub work_step : ConsumerGroup B → ConsumerGroup B
  unfolding work_as
  work_step s = work_as s.worker s

  -- SyncSubscribe behind its wait: PauseAll and tmpCtx.Cancel.
  wake_as : Phase → ConsumerGroup B → ConsumerGroup B
  wake_as blocked s =
      if s.ctx_done then record s { phase = pausing; paused = true; tmp_done = true } else s
  wake_as _ s = s

  close_group_as : Phase → ConsumerGroup B → ConsumerGroup B
  close_group_as pausing s = record s { phase = closed_group; open_group = false }
  close_group_as _ s = s

  close_queue_as : Phase → ConsumerGroup B → ConsumerGroup B
  close_queue_as closed_group s = record s { phase = closed_queue; queue = B.close s.queue }
  close_queue_as _ s = s

  leave_as : Phase → ConsumerGroup B → ConsumerGroup B
  unfolding has_stopped
  leave_as closed_queue s =
      if has_stopped s.worker
      then record s {
        phase = exited;
        exit_calls = if s.conf.on_exit then s.exit_calls + 1 else s.exit_calls;
      }
      else s
  leave_as _ s = s

  unfoldable pub release_up : ConsumerGroup B → ConsumerGroup B
  unfolding is_running
  release_up s = if s.closing && not (is_running s.phase) then record s { removed = true } else s

  unfoldable pub step : ConsumerGroup B → Event → ConsumerGroup B
  unfolding subscribe_as set_up put_claim receive_one look_one enter_one mark_one work_step wake_as
      close_group_as close_queue_as leave_as release_up
  step s subscribe = subscribe_as s.phase s
  step s (setup claimed) = set_up claimed s
  step s (receive id m) = put_claim id (receive_one m (s.claims id)) s
  step s (look id session) = put_claim id (look_one (session || s.ctx_done) (s.claims id)) s
  step s (enter id) = enter_one id s
  step s (mark id) = put_claim id (mark_one (s.claims id)) s
  step s consume_returns = if s.ctx_done || s.tmp_done then record s { consuming = false } else s
  step s work = work_step s
  step s wake = wake_as s.phase s
  step s close_group = close_group_as s.phase s
  step s close_queue = close_queue_as s.phase s
  step s leave = leave_as s.phase s
  step s close = record s { closing = true; ctx_done = true }
  step s release = release_up s
  step s (ack m) = record s { acked = s.acked ++ (m.topic, (m.partition, suc_ℤ m.offset)) ∷ [] }
  step s cancel = record s { ctx_done = true }

  unfoldable pub run : ConsumerGroup B → List Event → ConsumerGroup B
  unfolding step
  run s [] = s
  run s (e ∷ es) = run (step s e) es
