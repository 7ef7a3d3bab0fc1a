-- ===== src/Rocket/Push.antt =====
-- The push consumer of RocketMQ (rocketmq/sub.go, PushConsumer): the library calls back with
-- messages, which go into the queue; SyncSubscribe gives them to the handler; Close ends both. An
-- event is one move of a party. A callback reads the flag first and fills the queue after it, so
-- other events may come between; the one behind the read is named by the number of its batch, and
-- puts in one message at a time.
-- Not modelled: the log lines, what the handler does, and a second SyncSubscribe.
pub mod Closing
pub mod Late
use kmq_utils.Prelude.{
  pick, replace, ℕ, zero, suc, ◌+◌, ◌⊎◌, inl, inr, Bool, true, false, not, ◌&&◌, ◌||◌, String, List,
  [], ◌∷◌, ◌++◌, Option, none, some, str_eq, if◌then◌else◌,
}
use kmq_utils.Prelude.Int.{ℤ}
use kmq_utils.RingBuffer.{RingBuffer}
use kmq_utils.Rocket.Config.{
  Config, Credentials, Mode, Offset, from_timestamp, from_first, from_last,
}
use kmq_utils.Rocket.Options.{ConsumerOption, push_options, all_subscribe}
use kmq_utils.Rocket.Inbox
use kmq_utils.Rocket.Inbox.{Message, Inbox, put_in, take_one, is_over, drain, shut}

pub data NewError : Type 0 where
  servers_error library_error queue_error subscribe_error : NewError

-- Where SyncSubscribe stands.
pub data Stage : Type 0 where
  unstarted polling leaving returned : Stage

pub data ConsumeResult : Type 0 where
  consume_success consume_retry_later : ConsumeResult

pub record PushConsumer (B : RingBuffer Message) : Type 0 where
  pub conf : Config
  pub draining : Bool
  pub ctx_done : Bool
  pub subscribed : List String
  pub stage : Stage
  pub inbox : Inbox B
  pub arriving : List (List Message × List Message)  -- in callbacks: the batch, what is left of it
  pub results : List (List Message × ConsumeResult)  -- what the callbacks answered
  pub shut_down : Bool
  pub ready_calls : ℕ
  pub exit_calls : ℕ

pub data Event : Type 0 where
  arrive : List Message → Event  -- a callback reads the flag
  store : ℕ → Event  -- a callback behind it puts a message in, or returns
  subscribe : Event
  poll : Bool → Event  -- a round of the loop; the argument says that Start has failed
  finish : Event  -- SyncSubscribe behind its loop
  close : Event
  release : Event  -- Close behind wg.Wait()
  cancel : Event  -- the application cancels the context

-- How often SyncSubscribe is called.
abbrev pub subscriptions : List Event → ℕ
subscriptions [] = 0
subscriptions (subscribe ∷ es) = suc (subscriptions es)
subscriptions (e ∷ es) = subscriptions es

-- One SyncSubscribe is modelled: another call starts no second loop here.
begin : Stage → Stage
begin unstarted = polling
begin st = st

has_returned : Stage → Bool
has_returned unstarted = true
has_returned returned = true
has_returned _ = false

module _ {B : RingBuffer Message} where
  fresh : B.Buf → Config → PushConsumer B
  unfolding Inbox.new
  fresh q conf = record {
    conf = conf;
    draining = false;
    ctx_done = false;
    subscribed = conf.consumer.topics;
    stage = unstarted;
    inbox = Inbox.new q;
    arriving = [];
    results = [];
    shut_down = false;
    ready_calls = if conf.on_ready then 1 else 0;
    exit_calls = 0;
  }

  -- NewPushConsumer. The arguments before `conf` answer for NewNamesrvAddr, rocket.NewPushConsumer,
  -- NewLockedRingBuffer and Subscribe.
  unfoldable pub new_consumer :
      (List String → Bool)
      → (List ConsumerOption → Bool)
      → Option B.Buf
      → (String → Bool)
      → Config
      → NewError ⊎ PushConsumer B
  unfolding fresh push_options all_subscribe
  new_consumer addresses library q answer conf =
      if not conf.ns_resolver && not (addresses conf.servers)
      then inl servers_error
      else if not (library (push_options conf))
      then inl library_error
      else elim q [
        | none ↦ inl queue_error
        | some b ↦
            (if all_subscribe answer conf.consumer.topics
              then inr (fresh b conf)
              else inl subscribe_error)
      ]

  unfoldable pub on_arrive : List Message → PushConsumer B → PushConsumer B
  on_arrive ms s =
      if s.draining
      then record s { results = s.results ++ (ms, consume_retry_later) ∷ [] }
      else record s { arriving = s.arriving ++ (ms, ms) ∷ [] }

  -- A turn of the range over the batch, or the answer behind it.
  store_as :
      Option ((List Message × List Message) × List (List Message × List Message))
      → ℕ
      → PushConsumer B
      → PushConsumer B
  unfolding put_in
  store_as none n s = s
  store_as (some ((all, []), others)) n s = record s {
    arriving = others;
    results = s.results ++ (all, consume_success) ∷ [];
  }
  store_as (some ((all, m ∷ ms), others)) n s = record s {
    arriving = replace n (all, ms) s.arriving;
    inbox = put_in m s.inbox;
  }

  unfoldable pub on_store : ℕ → PushConsumer B → PushConsumer B
  unfolding store_as
  on_store n s = store_as (pick n s.arriving) n s

  -- A round of the loop in SyncSubscribe.
  unfoldable pub poll_once : Bool → PushConsumer B → PushConsumer B
  unfolding take_one
  poll_once start_failed s = elim s.stage [
    | unstarted ↦ s
    | leaving ↦ s
    | returned ↦ s
    | polling ↦
        (if s.ctx_done || start_failed
          then record s { stage = leaving }
          else if is_over s.inbox
          then record s { stage = leaving }
          else record s { inbox = take_one s.inbox })
  ]

  -- SyncSubscribe behind its loop: the topics are given up, the rest is drained, and OnExit.
  unfoldable pub leave : PushConsumer B → PushConsumer B
  unfolding drain
  leave s = elim s.stage [
    | unstarted ↦ s
    | polling ↦ s
    | returned ↦ s
    | leaving ↦ record s {
      subscribed = [];
      inbox = drain s.inbox;
      stage = returned;
      exit_calls = if s.conf.on_exit then s.exit_calls + 1 else s.exit_calls;
    }
  ]

  -- Close up to wg.Wait().
  unfoldable pub close_up : PushConsumer B → PushConsumer B
  unfolding shut
  close_up s =
      if s.draining
      then s
      else record s { draining = true; subscribed = []; inbox = shut s.inbox; shut_down = true }

  unfoldable pub release_ctx : PushConsumer B → PushConsumer B
  unfolding has_returned
  release_ctx s = if s.draining && has_returned s.stage then record s { ctx_done = true } else s

  unfoldable pub step : PushConsumer B → Event → PushConsumer B
  unfolding on_arrive on_store begin poll_once leave close_up release_ctx
  step s (arrive ms) = on_arrive ms s
  step s (store n) = on_store n s
  step s subscribe = record s { stage = begin s.stage }
  step s (poll start_failed) = poll_once start_failed s
  step s finish = leave s
  step s close = close_up s
  step s release = release_ctx s
  step s cancel = record s { ctx_done = true }

  unfoldable pub run : PushConsumer B → List Event → PushConsumer B
  unfolding step
  run s [] = s
  run s (e ∷ es) = run (step s e) es
