-- ===== src/Kafka/Producer.antt =====
-- The Kafka producer (kafkamq/pub.go): `Publish` puts messages into the queue, a goroutine of `Start`
-- hands them to the input channel of the library, another one reads the library's reports, `Close`
-- drains and then closes the library's producer. An event is one move of a party; every schedule of
-- events is an interleaving. A goroutine that is blocked on a channel is a step that does not come.
-- A message goes out once the input channel took it.
-- Not modelled: the log lines, the options of the library, and a second call of Start on one
-- producer, which would run a second pair of goroutines.
pub mod Conserved
pub mod Drained
use kmq_utils.Prelude.{
  ℕ, zero, suc, ◌+◌, ◌⊎◌, inl, inr, Bool, true, false, not, ◌&&◌, ◌||◌, ltb, String, Option, none,
  some, List, [], ◌∷◌, if◌then◌else◌,
}
use kmq_utils.Prelude.Int.{ℤ, pos}
use kmq_utils.RingBuffer.{RingBuffer}
use kmq_utils.Pump
use kmq_utils.Pump.{Pump, delivered, retry, offer, seal, begin, work, has_returned}
use kmq_utils.Pump.Quits.{is_begun, is_stopped}

pub record KafkaMessage : Type 0 where
  pub topic : String
  pub partition : ℤ
  pub offset : ℤ
  pub headers : List (String × String)
  pub key : String
  pub value : String

pub record Config : Type 0 where
  pub on_error : Bool
  pub on_ready : Bool
  pub on_exit : Bool

pub data NewError : Type 0 where
  kerberos_error library_error queue_error : NewError

pub record AsyncProducer (B : RingBuffer KafkaMessage) : Type 0 where
  pub conf : Config
  pub ctx_done : Bool
  pub started : Bool
  pub exited : Bool  -- Start has returned
  pub reports_done : Bool  -- the goroutine of the reports has returned
  pub closing : Bool  -- Close was called
  pub open_producer : Bool  -- the library's producer
  pub ready_calls : ℕ
  pub exit_calls : ℕ
  pub error_calls : ℕ
  pub queue_size : ℕ
  pub pump : Pump B (Unit {0})

pub data Report : Type 0 where
  success failure ended : Report

pub data Event : Type 0 where
  publish : KafkaMessage → Event
  publish_array : List KafkaMessage → Event
  publish_data : ℤ → String → String → String → List (String × String) → Event
  start : Event
  send : Event  -- a step of the sending goroutine
  report : Report → Event  -- a step of the goroutine of the reports; `ended` is a closed channel
  stop_reports : Event  -- that goroutine finds its context done
  leave : Event  -- Start goes on behind its waits
  close : Event
  release : Event  -- Close behind wg.Wait()
  cancel : Event  -- the application cancels the context

module _ {B : RingBuffer KafkaMessage} where
  fresh : B.Buf → ℕ → Config → AsyncProducer B
  unfolding Pump.new
  fresh q size conf = record {
    conf = conf;
    ctx_done = false;
    started = false;
    exited = false;
    reports_done = false;
    closing = false;
    open_producer = true;
    ready_calls = 0;
    exit_calls = 0;
    error_calls = 0;
    queue_size = size;
    pump = Pump.new q;
  }

  -- NewAsyncProducer. The arguments before `size` answer for applyProducerKerberosEnv,
  -- sarama.NewAsyncProducer and NewLockedRingBuffer.
  unfoldable pub new_producer : Bool → Bool → Option B.Buf → ℕ → Config → NewError ⊎ AsyncProducer B
  unfolding fresh
  new_producer kerberos library q size conf =
      if not kerberos
      then inl kerberos_error
      else if not library
      then inl library_error
      else elim q [ none ↦ inl queue_error | some b ↦ inr (fresh b size conf) ]

  -- Publish, and its answer.
  unfoldable pub publish_msg : KafkaMessage → AsyncProducer B → Bool × AsyncProducer B
  unfolding offer
  publish_msg m s = let (done, p) = offer m s.pump in (done, record s { pump = p })

  -- EnqueueBatch: in order, up to the first that is refused, and how many went in.
  offer_all : List KafkaMessage → Pump B (Unit {0}) → ℕ × Pump B (Unit {0})
  unfolding offer
  offer_all [] p = (0, p)
  offer_all (m ∷ ms) p =
      let (n, rest) = offer_all ms (offer m p).1 in
      (if (offer m p).0 then (suc n, rest) else (0, (offer m p).1))

  unfoldable pub publish_all : List KafkaMessage → AsyncProducer B → Bool × AsyncProducer B
  unfolding offer_all
  publish_all ms s = let (n, p) = offer_all ms s.pump in (ltb 0 n, record s { pump = p })

  -- Start up to its wait for the context.
  unfoldable pub start_up : AsyncProducer B → AsyncProducer B
  unfolding begin
  start_up s = if s.started then s else record s {
    started = true;
    ready_calls = if s.conf.on_ready then s.ready_calls + 1 else s.ready_calls;
    pump = begin s.pump;
  }

  -- The sending goroutine; the channel takes every message.
  unfoldable pub send_step : AsyncProducer B → AsyncProducer B
  unfolding work
  send_step s = record s { pump = work s.queue_size delivered (λ e. retry) s.pump }

  unfoldable pub on_report : Report → AsyncProducer B → AsyncProducer B
  on_report success s = s
  on_report failure s =
      if s.started && (not s.reports_done && s.conf.on_error)
      then record s { error_calls = s.error_calls + 1 }
      else s
  on_report ended s = if s.started then record s { reports_done = true } else s

  -- The context of the reports is done once the sending goroutine has returned.
  unfoldable pub end_reports : AsyncProducer B → AsyncProducer B
  end_reports s = if is_stopped s.pump.phase then record s { reports_done = true } else s

  -- Start behind `<-ctx.Done()` and the wait for its goroutines.
  unfoldable pub leave_start : AsyncProducer B → AsyncProducer B
  leave_start s =
      if s.ctx_done && (is_stopped s.pump.phase && (s.reports_done && not s.exited))
      then record s {
        exited = true;
        exit_calls = if s.conf.on_exit then s.exit_calls + 1 else s.exit_calls;
      }
      else s

  -- Close up to its wait.
  unfoldable pub close_up : AsyncProducer B → AsyncProducer B
  unfolding seal
  close_up s = record s { closing = true; ctx_done = true; pump = seal s.pump }

  -- Close behind wg.Wait(), which returns at once where Start was not called.
  unfoldable pub release_producer : AsyncProducer B → AsyncProducer B
  release_producer s =
      if s.closing && (s.exited || not s.started) then record s { open_producer = false } else s

  unfoldable pub step : AsyncProducer B → Event → AsyncProducer B
  unfolding publish_msg publish_all start_up send_step on_report end_reports leave_start close_up
      release_producer
  step s (publish m) = (publish_msg m s).1
  step s (publish_array ms) = (publish_all ms s).1
  step s (publish_data partition topic key value headers) =
      (publish_msg
        (record {
          topic = topic;
          partition = partition;
          offset = pos 0;
          headers = headers;
          key = key;
          value = value;
        })
        s).1
  step s start = start_up s
  step s send = send_step s
  step s (report r) = on_report r s
  step s stop_reports = end_reports s
  step s leave = leave_start s
  step s close = close_up s
  step s release = release_producer s
  step s cancel = record s { ctx_done = true }

  unfoldable pub run : AsyncProducer B → List Event → AsyncProducer B
  unfolding step
  run s [] = s
  run s (e ∷ es) = run (step s e) es
