-- ===== src/Kafka/Producer/Conserved.antt =====
-- No schedule of events loses, repeats or reorders a message of the Kafka producer, and Start returns
-- with nothing left.
use kmq_utils.Prelude.{
  ℕ, ◌<◌, ◌≡◌, refl, sym, ◌∙◌, ap, inl, inr, Bool, true, List, [], ◌∷◌, ◌++◌, append-nil, some,
  arith,
}
use kmq_utils.RingBuffer.{RingBuffer, Laws}
use kmq_utils.Pump.{Pump, delivered, retry, offer, begin, pending}
use kmq_utils.Pump.Conserved.{
  Conserved, new-Conserved, begin-Conserved, offer-Conserved, seal-Conserved, work-Conserved,
}
use kmq_utils.Pump.Justified.{
  Justified, new-Justified, begin-Justified, offer-Justified, seal-Justified, work-Justified,
}
use kmq_utils.Pump.Quits.{is_stopped, work-stopped, begin-stopped, stopped_cases}
use kmq_utils.Kafka.Producer.{
  KafkaMessage, Config, AsyncProducer, Report, success, failure, ended, Event, publish,
  publish_array, publish_data, start, send, report, stop_reports, leave, close, release, cancel,
  new_producer, publish_msg, offer_all, publish_all, start_up, send_step, on_report, end_reports,
  leave_start, close_up, release_producer, step, run,
}

-- The goroutine never gives up a message.
pub record PumpInv {B : RingBuffer KafkaMessage} (p : Pump B (Unit {0})) : Type 0 where
  pub conserved : Conserved p
  pub justified : Justified ⊥ p

pub record Inv {B : RingBuffer KafkaMessage} (s : AsyncProducer B) : Type 0 where
  pub pump_ok : PumpInv s.pump
  pub room : 0 < s.queue_size
  pub gone : s.exited ≡ true → is_stopped s.pump.phase ≡ true

module _ {B : RingBuffer KafkaMessage} (L : Laws B) where
  offer-PumpInv : (m : KafkaMessage) (p : Pump B (Unit {0})) → PumpInv p → PumpInv (offer m p).1
  offer-PumpInv m p v = record {
    conserved = offer-Conserved L m p v.conserved;
    justified = offer-Justified L m p v.justified;
  }

  offer_phase : (m : KafkaMessage) (p : Pump B (Unit {0})) → (offer m p).1.phase ≡ p.phase
  unfolding offer
  offer_phase m p = refl

  offer_all-PumpInv :
      (ms : List KafkaMessage) (p : Pump B (Unit {0}))
      → PumpInv p
      → PumpInv (offer_all ms p).1 × ((offer_all ms p).1.phase ≡ p.phase)
  unfolding offer_all
  offer_all-PumpInv [] p v = (v, refl)
  offer_all-PumpInv (m ∷ ms) p v =
      let one = offer-PumpInv m p v in
      let more = offer_all-PumpInv ms (offer m p).1 one in
      ground (arith, one, more, offer_phase m p)

  publish_msg-Inv : (m : KafkaMessage) (s : AsyncProducer B) → Inv s → Inv (publish_msg m s).1
  unfolding publish_msg
  publish_msg-Inv m s v = record {
    pump_ok = offer-PumpInv m s.pump v.pump_ok;
    room = v.room;
    gone = λ e. ap is_stopped (offer_phase m s.pump) ∙ v.gone e;
  }

  publish_all-Inv :
      (ms : List KafkaMessage) (s : AsyncProducer B) → Inv s → Inv (publish_all ms s).1
  unfolding publish_all
  publish_all-Inv ms s v =
      let more = offer_all-PumpInv ms s.pump v.pump_ok in
      record { pump_ok = more.0; room = v.room; gone = λ e. ap is_stopped more.1 ∙ v.gone e }

  begin-PumpInv : (p : Pump B (Unit {0})) → PumpInv p → PumpInv (begin p)
  begin-PumpInv p v = record {
    conserved = begin-Conserved p v.conserved;
    justified = begin-Justified p v.justified;
  }

  start_up-Inv : (s : AsyncProducer B) → Inv s → Inv (start_up s)
  unfolding start_up
  start_up-Inv s v =
      ground
        (arith, v.room, v.gone, v.pump_ok, begin-PumpInv s.pump v.pump_ok, begin-stopped s.pump)

  send_step-Inv : (s : AsyncProducer B) → Inv s → Inv (send_step s)
  unfolding send_step
  send_step-Inv s v = record {
    pump_ok = record {
      conserved = work-Conserved L s.queue_size delivered (λ e. retry) s.pump v.pump_ok.conserved;
      justified =
          work-Justified L s.queue_size delivered (λ e. retry) s.pump v.room (λ e. cc) (λ x e. cc)
            v.pump_ok.justified;
    };
    room = v.room;
    gone = λ e. work-stopped s.queue_size delivered (λ x. retry) s.pump (v.gone e);
  }

  close_up-Inv : (s : AsyncProducer B) → Inv s → Inv (close_up s)
  unfolding close_up
  close_up-Inv s v = record {
    pump_ok = record {
      conserved = seal-Conserved L s.pump v.pump_ok.conserved;
      justified = seal-Justified L s.pump v.pump_ok.justified;
    };
    room = v.room;
    gone = v.gone;
  }

  on_report-Inv : (r : Report) (s : AsyncProducer B) → Inv s → Inv (on_report r s)
  unfolding on_report
  on_report-Inv success s v = v
  on_report-Inv failure s v = ground (arith, v.pump_ok, v.room, v.gone)
  on_report-Inv ended s v = ground (arith, v.pump_ok, v.room, v.gone)

  pub step-Inv : (s : AsyncProducer B) (e : Event) → Inv s → Inv (step s e)
  unfolding step end_reports leave_start release_producer
  step-Inv s (publish m) v = publish_msg-Inv m s v
  step-Inv s (publish_array ms) v = publish_all-Inv ms s v
  step-Inv s (publish_data partition topic key value headers) v = publish_msg-Inv _ s v
  step-Inv s start v = start_up-Inv s v
  step-Inv s send v = send_step-Inv s v
  step-Inv s (report r) v = on_report-Inv r s v
  step-Inv s stop_reports v = ground (arith, v.pump_ok, v.room, v.gone)
  step-Inv s leave v = ground (arith, v.pump_ok, v.room, v.gone)
  step-Inv s close v = close_up-Inv s v
  step-Inv s release v = ground (arith, v.pump_ok, v.room, v.gone)
  step-Inv s cancel v = record { pump_ok = v.pump_ok; room = v.room; gone = v.gone }

  pub run-Inv : (s : AsyncProducer B) (es : List Event) → Inv s → Inv (run s es)
  unfolding run
  run-Inv s [] v = v
  run-Inv s (e ∷ es) v = run-Inv (step s e) es (step-Inv s e v)

  pub new_producer-Inv :
      (kerberos library : Bool) (q : B.Buf) (size : ℕ) (conf : Config) {s : AsyncProducer B}
      → new_producer kerberos library (some q) size conf ≡ inr s
      → B.contents q ≡ []
      → 0 < size
      → Inv s
  unfolding new_producer
  new_producer-Inv kerberos library q size conf h e room = ground (
    arith,
    new-Conserved {B = B} {E = Unit {0}} q e,
    new-Justified {B = B} {E = Unit {0}} {P = ⊥} q,
  )

  drained : (s : AsyncProducer B) → Inv s → s.exited ≡ true → pending s.pump ≡ []
  drained s v e =
      let (lost, st) = stopped_cases s.pump.phase (v.gone e) in
      elim (v.pump_ok.justified.reason lost st) [ inl d ↦ d.0 | inr never ↦ elim never [ ] ]

  -- Whatever the application, the library and the goroutines do, in any order, from a new producer:
  -- the messages that Publish and its variants took are those that went out followed by those in hand
  -- or in the queue, in the order of acceptance.
  pub kafka_accounts :
      (kerberos library : Bool) (q : B.Buf) (size : ℕ) (conf : Config) (s : AsyncProducer B)
      (es : List Event)
      → new_producer kerberos library (some q) size conf ≡ inr s
      → B.contents q ≡ []
      → 0 < size
      → let t = run s es in t.pump.accepted ≡ t.pump.sent ++ pending t.pump
  kafka_accounts kerberos library q size conf s es h e room =
      (run-Inv s es
        (new_producer-Inv kerberos library q size conf h e room)).pump_ok.conserved.account

  -- In any schedule from a new producer, once Start has returned every message that was ever taken has
  -- gone out, in the order of acceptance, and this holds from then on.
  pub kafka_exit_drained :
      (kerberos library : Bool) (q : B.Buf) (size : ℕ) (conf : Config) (s : AsyncProducer B)
      (es : List Event)
      → new_producer kerberos library (some q) size conf ≡ inr s
      → B.contents q ≡ []
      → 0 < size
      → (run s es).exited ≡ true
      → (run s es).pump.sent ≡ (run s es).pump.accepted
  kafka_exit_drained kerberos library q size conf s es h e room out =
      let v = run-Inv s es (new_producer-Inv kerberos library q size conf h e room) in
      let left = drained (run s es) v out in
      sym (
        v.pump_ok.conserved.account
        ∙ ap (◌++◌ (run s es).pump.sent) left
        ∙ append-nil (run s es).pump.sent)
