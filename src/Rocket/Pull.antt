-- ===== src/Rocket/Pull.antt =====
-- The pull consumer of RocketMQ (rocketmq/sub.go, PullConsumer): a goroutine per topic pulls and fills
-- the queue, SyncSubscribe gives the messages to the handler, Close ends both, `Ack` stores an offset.
-- An event is one move of a party, with the library's answers as its arguments. A goroutine reads the
-- flag before each message of its batch and puts the message in after it, two events; which goroutine
-- moves is named by the number of its batch. The steps of `Close` are an event each.
-- Not modelled: the log lines, the sleeps, what the handler does, and a second SyncSubscribe.
pub mod Closing
pub mod Late
pub mod Leak
use kmq_utils.Prelude.{
  pick, replace, ℕ, zero, suc, ◌+◌, ◌⊎◌, inl, inr, Bool, true, false, not, ◌&&◌, ◌||◌, String, List,
  [], ◌∷◌, ◌++◌, Option, none, some, map, is_empty, if◌then◌else◌,
}
use kmq_utils.RingBuffer.{RingBuffer}
use kmq_utils.Rocket.Config.{Config}
use kmq_utils.Rocket.Options.{ConsumerOption, pull_options, all_subscribe}
use kmq_utils.Rocket.Inbox
use kmq_utils.Rocket.Inbox.{Message, Inbox, put_in, take_one, drain, shut}

pub data NewError : Type 0 where
  servers_error library_error queue_error subscribe_error : NewError

pub data PullStatus : Type 0 where
  found no_new_msg no_msg_matched broker_timeout offset_illegal : PullStatus
  unknown : ℕ → PullStatus

-- The answer of the library's Pull.
pub data Response : Type 0 where
  failure : Response
  response : PullStatus → List Message → Response

-- `pull`: what it returns, an error being `none`.
unfoldable pub pull : Response → Option (List Message)
pull failure = none
pull (response found ms) = some ms
pull (response no_new_msg ms) = some []
pull (response no_msg_matched ms) = some []
pull (response broker_timeout ms) = some []
pull (response offset_illegal ms) = some []
pull (response (unknown n) ms) = none

-- Where SyncSubscribe stands.
pub data Stage : Type 0 where
  unstarted polling leaving returned : Stage

-- Where Close stands: not called, behind its flag, ctx.Cancel, Unsubscribe, queue.Close, Shutdown, and
-- its end.
pub data Closer : Type 0 where
  uncalled flagged cancelled unsubscribed queue_closed down ended : Closer

pub record PullConsumer (B : RingBuffer Message) : Type 0 where
  pub conf : Config
  pub draining : Bool
  pub ctx_done : Bool
  pub loops_done : Bool  -- the context of the pulling goroutines
  pub subscribed : List String
  pub stage : Stage
  pub inbox : Inbox B
  -- What is left of the batches of the goroutines, and whether the flag was read for the next message.
  pub pulled : List (Bool × List Message)
  pub closer : Closer
  pub offsets : List (ℕ × ℕ)  -- what Ack stored: queue and offset, the latest first
  pub shut_down : Bool
  pub ready_calls : ℕ
  pub exit_calls : ℕ

-- What the library answers to UpdateOffset and PersistOffset.
pub data Stored : Type 0 where
  both update_failed persist_failed : Stored

pub data Event : Type 0 where
  pull_once : Response → Event
  look : ℕ → Event  -- a goroutine reads the flag for its next message, or is done with its batch
  store : ℕ → Event  -- a goroutine puts the message in
  subscribe : Event
  poll : Bool → Event  -- a round of the loop; the argument says that Start has failed
  finish : Event  -- SyncSubscribe behind its loop
  ack : Message → Stored → Event
  close : Event
  go_on : Event  -- the next step of Close
  cancel : Event  -- the application cancels its context, and with it the others

-- How often SyncSubscribe is called.
abbrev pub subscriptions : List Event → ℕ
subscriptions [] = 0
subscriptions (subscribe ∷ es) = suc (subscriptions es)
subscriptions (e ∷ es) = subscriptions es

-- One SyncSubscribe is modelled: another call starts no second loop here.
begin : Stage → Stage
begin unstarted = polling
begin st = st

has_returned : Stage → Bool
has_returned unstarted = true
has_returned returned = true
has_returned _ = false

module _ {B : RingBuffer Message} where
  fresh : B.Buf → Config → PullConsumer B
  unfolding Inbox.new
  fresh q conf = record {
    conf = conf;
    draining = false;
    ctx_done = false;
    loops_done = false;
    subscribed = conf.consumer.topics;
    stage = unstarted;
    inbox = Inbox.new q;
    pulled = [];
    closer = uncalled;
    offsets = [];
    shut_down = false;
    ready_calls = if conf.on_ready then 1 else 0;
    exit_calls = 0;
  }

  -- NewPullConsumer. The arguments before `conf` answer for NewNamesrvAddr, rocket.NewPullConsumer,
  -- NewLockedRingBuffer and Subscribe.
  unfoldable pub new_consumer :
      (List String → Bool)
      → (List ConsumerOption → Bool)
      → Option B.Buf
      → (String → Bool)
      → Config
      → NewError ⊎ PullConsumer B
  unfolding fresh pull_options all_subscribe
  new_consumer addresses library q answer conf =
      if not conf.ns_resolver && not (addresses conf.servers)
      then inl servers_error
      else if not (library (pull_options conf))
      then inl library_error
      else elim q [
        | none ↦ inl queue_error
        | some b ↦
            (if all_subscribe answer conf.consumer.topics
              then inr (fresh b conf)
              else inl subscribe_error)
      ]

  -- A round of a pulling goroutine, up to its batch.
  unfoldable pub on_pull : Response → PullConsumer B → PullConsumer B
  unfolding pull
  on_pull r s =
      if s.loops_done
      then s
      else elim (pull r) [ none ↦ s | some ms ↦ record s { pulled = s.pulled ++ (false, ms) ∷ [] } ]

  -- The head of the range over the batch. The rest of the batch is dropped while draining.
  look_as :
      Option ((Bool × List Message) × List (Bool × List Message))
      → ℕ
      → PullConsumer B
      → PullConsumer B
  look_as none n s = s
  look_as (some ((true, ms), others)) n s = s
  look_as (some ((false, []), others)) n s = record s { pulled = others }
  look_as (some ((false, m ∷ ms), others)) n s = record s {
    pulled = if s.draining then others else replace n (true, m ∷ ms) s.pulled;
  }

  unfoldable pub on_look : ℕ → PullConsumer B → PullConsumer B
  unfolding look_as
  on_look n s = look_as (pick n s.pulled) n s

  -- Enqueue, of a message for which the flag was read.
  store_as :
      Option ((Bool × List Message) × List (Bool × List Message))
      → ℕ
      → PullConsumer B
      → PullConsumer B
  unfolding put_in
  store_as (some ((true, m ∷ ms), others)) n s = record s {
    pulled = replace n (false, ms) s.pulled;
    inbox = put_in m s.inbox;
  }
  store_as _ n s = s

  unfoldable pub on_store : ℕ → PullConsumer B → PullConsumer B
  unfolding store_as
  on_store n s = store_as (pick n s.pulled) n s

  -- A round of the loop in SyncSubscribe, which goes on with a closed queue.
  unfoldable pub poll_once : Bool → PullConsumer B → PullConsumer B
  unfolding take_one
  poll_once start_failed s = elim s.stage [
    | unstarted ↦ s
    | leaving ↦ s
    | returned ↦ s
    | polling ↦
        (if s.ctx_done || start_failed
          then record s { stage = leaving }
          else record s { inbox = take_one s.inbox })
  ]

  -- SyncSubscribe behind its loop.
  unfoldable pub leave : PullConsumer B → PullConsumer B
  unfolding drain
  leave s = elim s.stage [
    | unstarted ↦ s
    | polling ↦ s
    | returned ↦ s
    | leaving ↦ record s {
      inbox = drain s.inbox;
      stage = returned;
      exit_calls = if s.conf.on_exit then s.exit_calls + 1 else s.exit_calls;
    }
  ]

  -- Message.Ack, for a message of this consumer, and the error that it returns.
  unfoldable pub ack_message : Message → Stored → PullConsumer B → Bool × PullConsumer B
  ack_message m both s = (true, record s { offsets = (m.queue_id, m.queue_offset) ∷ s.offsets })
  ack_message m update_failed s = (false, s)
  ack_message m persist_failed s =
      (false, record s { offsets = (m.queue_id, m.queue_offset) ∷ s.offsets })

  -- Close, up to its flag.
  unfoldable pub close_up : PullConsumer B → PullConsumer B
  close_up s = if s.draining then s else record s { draining = true; closer = flagged }

  -- The next step of Close.
  close_as : Closer → PullConsumer B → PullConsumer B
  unfolding shut has_returned
  close_as uncalled s = s
  close_as flagged s = record s { closer = cancelled; ctx_done = true }
  close_as cancelled s = record s { closer = unsubscribed; subscribed = [] }
  close_as unsubscribed s = record s { closer = queue_closed; inbox = shut s.inbox }
  close_as queue_closed s = record s { closer = down; shut_down = true }
  close_as down s = if has_returned s.stage then record s { closer = ended; ctx_done = true } else s
  close_as ended s = s

  unfoldable pub close_next : PullConsumer B → PullConsumer B
  unfolding close_as
  close_next s = close_as s.closer s

  unfoldable pub step : PullConsumer B → Event → PullConsumer B
  unfolding on_pull on_look on_store begin poll_once leave ack_message close_up close_next
  step s (pull_once r) = on_pull r s
  step s (look n) = on_look n s
  step s (store n) = on_store n s
  step s subscribe = record s { stage = begin s.stage }
  step s (poll start_failed) = poll_once start_failed s
  step s finish = leave s
  step s (ack m answer) = (ack_message m answer s).1
  step s close = close_up s
  step s go_on = close_next s
  step s cancel = record s { ctx_done = true; loops_done = true }

  unfoldable pub run : PullConsumer B → List Event → PullConsumer B
  unfolding step
  run s [] = s
  run s (e ∷ es) = run (step s e) es
