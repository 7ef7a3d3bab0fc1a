-- ===== src/Rabbit/Producer/Conserved.antt =====
-- No schedule of events loses, repeats or reorders a message of the RabbitMQ producer.
use kmq_utils.Prelude.{
  ℕ, String, ◌<◌, ◌≡◌, refl, ◌⊎◌, inr, Bool, true, false, List, [], ◌∷◌, ◌++◌, some, arith,
}
use kmq_utils.RingBuffer.{RingBuffer, Laws}
use kmq_utils.Pump.{stopped, quit, give_up, pending}
use kmq_utils.Pump.Conserved.{
  Conserved, new-Conserved, begin-Conserved, offer-Conserved, seal-Conserved, work-Conserved,
}
use kmq_utils.Pump.Justified.{
  Justified, Justified-mono, new-Justified, begin-Justified, offer-Justified, seal-Justified,
  work-Justified,
}
use kmq_utils.Rabbit.Producer.{
  RabbitMessage, PublisherOption, Config, Producer, Answer, ok, refused, Event, publish,
  publish_message, start, unblock, send, close, release, cancel, new_producer, publish_msg,
  start_up, unblock_start, close_up, try_send, after_failure, send_step, release_link, step, run,
}

pub record Inv {B : RingBuffer RabbitMessage} (s : Producer B) : Type 0 where
  pub conserved : Conserved s.pump
  pub justified : Justified (s.draining ≡ true) s.pump
  pub room : 0 < s.queue_size

module _ {B : RingBuffer RabbitMessage} (L : Laws B) where
  publish_msg-Inv : (m : RabbitMessage) (s : Producer B) → Inv s → Inv (publish_msg m s).1
  unfolding publish_msg
  publish_msg-Inv m s v = record {
    conserved = offer-Conserved L m s.pump v.conserved;
    justified = offer-Justified L m s.pump v.justified;
    room = v.room;
  }

  start_up-Inv : (s : Producer B) → Inv s → Inv (start_up s)
  unfolding start_up
  start_up-Inv s v =
      ground (arith, begin-Conserved s.pump v.conserved, begin-Justified s.pump v.justified)

  unblock_start-Inv : (s : Producer B) → Inv s → Inv (unblock_start s)
  unfolding unblock_start
  unblock_start-Inv s v =
      ground (arith, seal-Conserved L s.pump v.conserved, seal-Justified L s.pump v.justified)

  close_up-Inv : (s : Producer B) → Inv s → Inv (close_up s)
  unfolding close_up
  close_up-Inv s v =
      ground (arith, v.conserved, v.room, Justified-mono {Q = true ≡ true} (λ _. refl) v.justified)

  never_quits : (s : Producer B) (a : Answer) → try_send s a ≡ quit → s.draining ≡ true
  unfolding try_send
  never_quits s ok e = ground arith
  never_quits s refused e = cc

  gives_up_draining :
      (s : Producer B) (x : Unit {0}) → after_failure s x ≡ give_up → s.draining ≡ true
  unfolding after_failure
  gives_up_draining s x e = ground arith

  send_step-Inv : (s : Producer B) (a : Answer) → Inv s → Inv (send_step s a)
  unfolding send_step
  send_step-Inv s a v = record {
    conserved = work-Conserved L s.queue_size (try_send s a) (after_failure s) s.pump v.conserved;
    justified =
        work-Justified L s.queue_size (try_send s a) (after_failure s) s.pump v.room
          (never_quits s a) (gives_up_draining s) v.justified;
    room = v.room;
  }

  release_link-Inv : (s : Producer B) (b : Bool) → Inv s → Inv (release_link s b)
  unfolding release_link
  release_link-Inv s b v = ground (arith, v.conserved, v.justified)

  pub step-Inv : (s : Producer B) (e : Event) → Inv s → Inv (step s e)
  unfolding step
  step-Inv s (publish m) v = publish_msg-Inv m s v
  step-Inv s (publish_message exchange router message) v = publish_msg-Inv _ s v
  step-Inv s start v = start_up-Inv s v
  step-Inv s unblock v = unblock_start-Inv s v
  step-Inv s (send a) v = send_step-Inv s a v
  step-Inv s close v = close_up-Inv s v
  step-Inv s (release timeout) v = release_link-Inv s timeout v
  step-Inv s cancel v = record { conserved = v.conserved; justified = v.justified; room = v.room }

  pub run-Inv : (s : Producer B) (es : List Event) → Inv s → Inv (run s es)
  unfolding run
  run-Inv s [] v = v
  run-Inv s (e ∷ es) v = run-Inv (step s e) es (step-Inv s e v)

  pub new_producer-Inv :
      (q : B.Buf) (conn : String → Bool) (publisher : List PublisherOption → Bool) (size : ℕ)
      (conf : Config) {s : Producer B}
      → new_producer (some q) conn publisher size conf ≡ inr s
      → B.contents q ≡ []
      → 0 < size
      → Inv s
  unfolding new_producer
  new_producer-Inv q conn publisher size conf h e room = ground (
    arith,
    new-Conserved {B = B} {E = Unit {0}} q e,
    new-Justified {B = B} {E = Unit {0}} {P = false ≡ true} q,
  )

  -- Whatever the application, the broker and the goroutines do, in any order, from a new producer:
  -- the messages that Publish took are those that went out followed by those that are in hand or
  -- in the queue, in the order of acceptance; and where the sending goroutine has returned, then
  -- nothing is left and the queue is closed, or Close was called.
  pub rabbit_accounts :
      (q : B.Buf) (conn : String → Bool) (publisher : List PublisherOption → Bool) (size : ℕ)
      (conf : Config) (s : Producer B) (es : List Event)
      → new_producer (some q) conn publisher size conf ≡ inr s
      → B.contents q ≡ []
      → 0 < size
      → let t = run s es in
        (t.pump.accepted ≡ t.pump.sent ++ pending t.pump)
        × ((lost : List RabbitMessage)
            → t.pump.phase ≡ stopped lost
            → ((pending t.pump ≡ []) × (B.is_closed t.pump.queue ≡ true)) ⊎ (t.draining ≡ true))
  rabbit_accounts q conn publisher size conf s es h e room =
      let v = run-Inv s es (new_producer-Inv q conn publisher size conf h e room) in
      (v.conserved.account, v.justified.reason)
