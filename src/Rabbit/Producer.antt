-- ===== src/Rabbit/Producer.antt =====
-- The RabbitMQ producer (rabbitmq/pub.go): `Publish` puts a message into the queue, a goroutine of
-- `Start` sends, `Close` drains. An event is one move of a party: the application's calls and its end of
-- the context, the
-- goroutine of `Start` that waits for the context, the sending goroutine with the answer of the
-- broker, and the 20 seconds of `Close`. Every schedule of events is an interleaving.
-- Not modelled: the log lines, among them all that the return and confirm handlers do.
pub mod Conserved
pub mod Drained
use kmq_utils.Prelude.{
  ℕ, ◌+◌, ◌⊎◌, inl, inr, Bool, true, false, not, ◌&&◌, ◌||◌, String, List, [], ◌∷◌, Option, none,
  some, is_empty, head_or, str_append, if◌then◌else◌,
}
use kmq_utils.RingBuffer.{RingBuffer}
use kmq_utils.Pump
use kmq_utils.Pump.{
  Pump, Phase, idle, stopped, Verdict, delivered, failed, Check, retry, give_up, offer, seal, begin,
  work,
}

pub record RabbitMessage : Type 0 where
  pub exchange : String
  pub router : List String
  pub body : String

-- The fields of the configuration that decide what the producer does.
pub record Config : Type 0 where
  pub user : String
  pub password : String
  pub addrs : List String
  pub vhost : String
  pub exchange : String
  pub work_type : String
  pub return_ack : Bool
  pub on_ready : Bool  -- the callback is set

pub data NewError : Type 0 where
  queue_error empty_addrs conn_error publisher_error : NewError

pub data PublisherOption : Type 0 where
  logger exchange_durable exchange_declare confirm : PublisherOption
  exchange_name exchange_kind : String → PublisherOption

-- The address given to NewConn. `addrs` is not empty there.
unfoldable pub url : Config → String
url conf = str_append "amqp://" (
    str_append conf.user (
      str_append ":" (
        str_append conf.password (str_append "@" (str_append (head_or "" conf.addrs) conf.vhost)))))

unfoldable pub publisher_options : Config → List PublisherOption
publisher_options conf =
    logger
    ∷ exchange_name conf.exchange
    ∷ exchange_kind conf.work_type
    ∷ exchange_durable
    ∷ exchange_declare
    ∷ (if conf.return_ack then confirm ∷ [] else [])

pub record Producer (B : RingBuffer RabbitMessage) : Type 0 where
  pub conf : Config
  pub started : Bool
  pub draining : Bool
  pub ctx_done : Bool
  pub open_link : Bool  -- publisher and connection are not closed yet
  pub ready_calls : ℕ  -- how often OnReady was called
  pub queue_size : ℕ
  pub pump : Pump B (Unit {0})

-- The answer of the broker to an attempt within its five seconds.
pub data Answer : Type 0 where
  ok refused : Answer

pub data Event : Type 0 where
  publish : RabbitMessage → Event
  publish_message : String → String → String → Event
  start : Event
  unblock : Event  -- `Start` goes on behind `<-ctx.Done()`
  send : Answer → Event  -- a step of the sending goroutine
  close : Event
  cancel : Event  -- the application cancels the parent of the context
  release : Bool → Event  -- the end of `Close`: the goroutine is done, or 20 seconds passed

module _ {B : RingBuffer RabbitMessage} where
  fresh : B.Buf → ℕ → Config → Producer B
  unfolding Pump.new
  fresh q size conf = record {
    conf = conf;
    started = false;
    draining = false;
    ctx_done = false;
    open_link = true;
    ready_calls = 0;
    queue_size = size;
    pump = Pump.new q;
  }

  -- NewProducer. The arguments before `size` answer for NewLockedRingBuffer, NewConn and
  -- NewPublisher.
  unfoldable pub new_producer :
      Option B.Buf
      → (String → Bool)
      → (List PublisherOption → Bool)
      → ℕ
      → Config
      → NewError ⊎ Producer B
  unfolding fresh url publisher_options
  new_producer none conn publisher size conf = inl queue_error
  new_producer (some q) conn publisher size conf =
      if is_empty conf.addrs
      then inl empty_addrs
      else if not (conn (url conf))
      then inl conn_error
      else if not (publisher (publisher_options conf))
      then inl publisher_error
      else inr (fresh q size conf)

  -- Publish, and its answer.
  unfoldable pub publish_msg : RabbitMessage → Producer B → Bool × Producer B
  unfolding offer
  publish_msg m s = let (done, p) = offer m s.pump in (done, record s { pump = p })

  unfoldable pub start_up : Producer B → Producer B
  unfolding begin
  start_up s = if s.started then s else record s {
    started = true;
    pump = begin s.pump;
    ready_calls = if s.conf.on_ready then s.ready_calls + 1 else s.ready_calls;
  }

  -- Behind `<-that.ctx.Context().Done()` of Start.
  unfoldable pub unblock_start : Producer B → Producer B
  unfolding seal
  unblock_start s = if s.started && s.ctx_done then record s { pump = seal s.pump } else s

  -- Close, up to its wait.
  unfoldable pub close_up : Producer B → Producer B
  close_up s = if s.draining then s else record s { draining = true; ctx_done = true }

  -- publish: an attempt fails once the publisher is closed.
  unfoldable pub try_send : Producer B → Answer → Verdict (Unit {0})
  try_send s ok = if s.open_link then delivered else failed tt
  try_send s refused = failed tt

  -- After a failed attempt.
  unfoldable pub after_failure : Producer B → Unit {0} → Check
  after_failure s e = if s.draining then give_up else retry

  unfoldable pub send_step : Producer B → Answer → Producer B
  unfolding try_send after_failure work
  send_step s a = record s { pump = work s.queue_size (try_send s a) (after_failure s) s.pump }

  -- The end of Close, behind its select.
  unfoldable pub release_link : Producer B → Bool → Producer B
  release_link s timeout =
      if s.draining && (Pump.has_returned s.pump.phase || timeout)
      then record s { open_link = false }
      else s

  unfoldable pub step : Producer B → Event → Producer B
  unfolding publish_msg start_up unblock_start close_up send_step release_link
  step s (publish m) = (publish_msg m s).1
  step s (publish_message exchange router message) =
      (publish_msg (record { exchange = exchange; router = router ∷ []; body = message }) s).1
  step s start = start_up s
  step s unblock = unblock_start s
  step s (send a) = send_step s a
  step s close = close_up s
  step s (release timeout) = release_link s timeout
  step s cancel = record s { ctx_done = true }

  unfoldable pub run : Producer B → List Event → Producer B
  unfolding step
  run s [] = s
  run s (e ∷ es) = run (step s e) es
