-- ===== src/Rocket/Producer/Conserved.antt =====
-- No schedule of events loses, repeats or reorders a message of the RocketMQ producer.
use kmq_utils.Prelude.{
  ℕ, String, ◌<◌, ◌≡◌, refl, ◌⊎◌, inl, inr, Bool, true, false, List, [], ◌∷◌, ◌++◌, some, arith,
}
use kmq_utils.RingBuffer.{RingBuffer, Laws}
use kmq_utils.Pump.{stopped, quit, give_up, pending}
use kmq_utils.Pump.Conserved.{
  Conserved, new-Conserved, begin-Conserved, offer-Conserved, seal-Conserved, work-Conserved,
}
use kmq_utils.Pump.Justified.{
  Justified, Justified-mono, new-Justified, begin-Justified, offer-Justified, seal-Justified,
  work-Justified,
}
use kmq_utils.Rocket.Config.{Config}
use kmq_utils.Rocket.Producer.{
  RocketMessage, ProducerOption, Producer, Route, Event, publish, publish_message, publish_data,
  start, enter, send, report, exit, close, release, cancel, new_producer, publish_msg, start_up,
  enter_loop, try_send, after_failure, send_step, exit_loop, close_up, release_link, step, run,
}

-- The application or Close ended the producer.
abbrev pub Ended : {B : RingBuffer RocketMessage} → Producer B → Type 0
Ended s = (s.ctx_done ≡ true) ⊎ (s.draining ≡ true)

pub record Inv {B : RingBuffer RocketMessage} (s : Producer B) : Type 0 where
  pub conserved : Conserved s.pump
  pub justified : Justified (Ended s) s.pump
  pub room : 0 < s.queue_size

module _ {B : RingBuffer RocketMessage} (L : Laws B) where
  publish_msg-Inv : (m : RocketMessage) (s : Producer B) → Inv s → Inv (publish_msg m s).1
  unfolding publish_msg
  publish_msg-Inv m s v = record {
    conserved = offer-Conserved L m s.pump v.conserved;
    justified = offer-Justified L m s.pump v.justified;
    room = v.room;
  }

  start_up-Inv : (s : Producer B) → Inv s → Inv (start_up s)
  unfolding start_up
  start_up-Inv s v = ground (arith, v.conserved, v.justified, v.room)

  enter_loop-Inv : (s : Producer B) → Inv s → Inv (enter_loop s)
  unfolding enter_loop
  enter_loop-Inv s v =
      ground (arith, v, begin-Conserved s.pump v.conserved, begin-Justified s.pump v.justified)

  exit_loop-Inv : (s : Producer B) → Inv s → Inv (exit_loop s)
  unfolding exit_loop
  exit_loop-Inv s v = ground (arith, v.conserved, v.justified, v.room)

  close_up-Inv : (s : Producer B) → Inv s → Inv (close_up s)
  unfolding close_up
  close_up-Inv s v = ground (
    arith,
    v.conserved,
    v.justified,
    v.room,
    seal-Conserved L s.pump v.conserved,
    Justified-mono {P = Ended s} {Q = (s.ctx_done ≡ true) ⊎ (true ≡ true)} (λ _. inr refl)
        (seal-Justified L s.pump v.justified),
  )

  release_link-Inv : (s : Producer B) (b : Bool) → Inv s → Inv (release_link s b)
  unfolding release_link
  release_link-Inv s b v = ground (
    arith,
    v.conserved,
    v.justified,
    v.room,
    Justified-mono {P = Ended s} {Q = (true ≡ true) ⊎ (s.draining ≡ true)} (λ _. inl refl)
        v.justified,
  )

  never_quits : (s : Producer B) (a : Route → Bool) → try_send s a ≡ quit → Ended s
  unfolding try_send
  never_quits s a e = ground arith

  gives_up-Ended : (s : Producer B) (x : Unit {0}) → after_failure s x ≡ give_up → Ended s
  unfolding after_failure
  gives_up-Ended s x e = ground arith

  send_step-Inv : (s : Producer B) (a : Route → Bool) → Inv s → Inv (send_step s a)
  unfolding send_step
  send_step-Inv s a v = record {
    conserved = work-Conserved L s.queue_size (try_send s a) (after_failure s) s.pump v.conserved;
    justified =
        work-Justified L s.queue_size (try_send s a) (after_failure s) s.pump v.room
          (never_quits s a) (gives_up-Ended s) v.justified;
    room = v.room;
  }

  pub step-Inv : (s : Producer B) (e : Event) → Inv s → Inv (step s e)
  unfolding step
  step-Inv s (publish m) v = publish_msg-Inv m s v
  step-Inv s (publish_message topic message) v = publish_msg-Inv _ s v
  step-Inv s (publish_data topic message props) v = publish_msg-Inv _ s v
  step-Inv s start v = start_up-Inv s v
  step-Inv s enter v = enter_loop-Inv s v
  step-Inv s (send a) v = send_step-Inv s a v
  step-Inv s report v = record { conserved = v.conserved; justified = v.justified; room = v.room }
  step-Inv s exit v = exit_loop-Inv s v
  step-Inv s close v = close_up-Inv s v
  step-Inv s (release timeout) v = release_link-Inv s timeout v
  step-Inv s cancel v = record {
    conserved = v.conserved;
    justified = Justified-mono {P = Ended s} (λ _. inl refl) v.justified;
    room = v.room;
  }

  pub run-Inv : (s : Producer B) (es : List Event) → Inv s → Inv (run s es)
  unfolding run
  run-Inv s [] v = v
  run-Inv s (e ∷ es) v = run-Inv (step s e) es (step-Inv s e v)

  pub new_producer-Inv :
      (addresses : List String → Bool) (q : B.Buf) (library : List ProducerOption → Bool) (size : ℕ)
      (conf : Config) {s : Producer B}
      → new_producer addresses (some q) library size conf ≡ inr s
      → B.contents q ≡ []
      → 0 < size
      → Inv s
  unfolding new_producer
  new_producer-Inv addresses q library size conf h e room = ground (
    arith,
    new-Conserved {B = B} {E = Unit {0}} q e,
    new-Justified {B = B} {E = Unit {0}} {P = (false ≡ true) ⊎ (false ≡ true)} q,
  )

  -- Whatever the application, the library and the goroutines do, in any order, from a new producer:
  -- the messages that Publish took are those that went out followed by those in hand or in the
  -- queue, in the order of acceptance; and where the loop of Start has returned, then nothing is
  -- left and the queue is closed, or the context was cancelled or Close was called.
  pub rocket_accounts :
      (addresses : List String → Bool) (q : B.Buf) (library : List ProducerOption → Bool) (size : ℕ)
      (conf : Config) (s : Producer B) (es : List Event)
      → new_producer addresses (some q) library size conf ≡ inr s
      → B.contents q ≡ []
      → 0 < size
      → let t = run s es in
        (t.pump.accepted ≡ t.pump.sent ++ pending t.pump)
        × ((dropped : List RocketMessage)
            → t.pump.phase ≡ stopped dropped
            → ((pending t.pump ≡ []) × (B.is_closed t.pump.queue ≡ true)) ⊎ Ended t)
  rocket_accounts addresses q library size conf s es h e room =
      let v = run-Inv s es (new_producer-Inv addresses q library size conf h e room) in
      (v.conserved.account, v.justified.reason)
