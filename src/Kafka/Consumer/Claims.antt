-- ===== src/Kafka/Consumer/Claims.antt =====
-- No schedule of events loses, repeats or reorders a message between the claims of the Kafka consumer
-- and its handler, and a claim marks what the queue took (kafkamq/sub.go).
use mathlib.Core.Path.{subst}
use kmq_utils.Prelude.{
  ℕ, ◌≡◌, refl, sym, ap, ◌∙◌, ◌==◌, inl, inr, Bool, Bool-cases, true, false, String, some, List, [],
  ◌∷◌, ◌++◌, ◌||◌, append_assoc, arith, is_empty, if◌then◌else◌,
}
use kmq_utils.Prelude.Int.{ℤ}
use kmq_utils.RingBuffer.{RingBuffer, Laws}
use kmq_utils.Kafka.Topics.{Topic, Brokers, query_topics}
use kmq_utils.Kafka.Producer.{KafkaMessage}
use kmq_utils.Kafka.Session.{
  Stand, waiting, spinning, cleared, entered, over, Claim, receive_one, look_one, mark_one,
}
use kmq_utils.Kafka.Session.Fits.{
  IsFitting, Fits-as, receive_one-IsFitting, look_one-IsFitting, mark_one-IsFitting,
}
use kmq_utils.Kafka.Consumer.{
  Worker, absent, stopped, empty_handed, holding, Phase, fresh, blocked, pausing, closed_group,
  closed_queue, Callbacks, ConsumerGroup, Event, subscribe, setup, receive, look, enter, mark,
  consume_returns, work, wake, close_group, close_queue, leave, close, release, ack, cancel,
  new_group, made, subscribe_as, set_up, started_worker, put_claim, entered_or, enter_as, enter_one,
  work_as, work_step, wake_as, close_group_as, close_queue_as, leave_as, release_up, step, run,
}

-- What the worker has in hand.
abbrev pub in_hand : Worker → List KafkaMessage
in_hand absent = []
in_hand stopped = []
in_hand empty_handed = []
in_hand (holding ms) = ms

pub record Inv {B : RingBuffer KafkaMessage} (s : ConsumerGroup B) : Type 0 where
  pub account : s.accepted ≡ s.handled ++ (in_hand s.worker ++ B.contents s.queue)
  pub fitting : (id : ℕ) → IsFitting (s.claims id)

-- A batch that is empty may stop the worker.
in_hand-batch :
    (ms : List KafkaMessage) (b : Bool)
    → in_hand (if is_empty ms then (if b then stopped else empty_handed) else holding ms) ≡ ms
in_hand-batch [] true = refl
in_hand-batch [] false = refl
in_hand-batch (m ∷ ms) b = refl

in_hand-tested : (b : Bool) → in_hand (if b then stopped else holding []) ≡ []
in_hand-tested true = refl
in_hand-tested false = refl

module _ {B : RingBuffer KafkaMessage} (L : Laws B) where
  held :
      (w : Worker) (s : ConsumerGroup B)
      → s.worker ≡ w
      → Inv s
      → s.accepted ≡ s.handled ++ (in_hand w ++ B.contents s.queue)
  held w s e v = v.account ∙ ap (λ x. s.handled ++ (in_hand x ++ B.contents s.queue)) e

  put_claim-Inv :
      (id : ℕ) (c : Claim) (s : ConsumerGroup B) → IsFitting c → Inv s → Inv (put_claim id c s)
  unfolding put_claim
  put_claim-Inv id c s f v = record {
    account = v.account;
    fitting = λ n. elim (Bool-cases (n == id)) [ inl e ↦ rw e f | inr e ↦ rw e (v.fitting n) ];
  }

  entered_or-Inv :
      (m : KafkaMessage) (id : ℕ) (s : ConsumerGroup B) (r : Bool × B.Buf)
      → B.enqueue m s.queue ≡ r
      → (s.claims id).stand ≡ cleared m
      → Inv s
      → Inv (entered_or m id (s.claims id) r s)
  unfolding entered_or
  entered_or-Inv m id s (true, q) h e v =
      let c = s.claims id in
      let f = Fits-as c.stand (cleared m) c.received c.taken c.marked e (v.fitting id) in
      put_claim-Inv id (record c { stand = entered m; taken = c.taken ++ m ∷ [] })
        (record s { queue = q; accepted = s.accepted ++ m ∷ [] }) (f.0, ap (λ xs. xs ++ m ∷ []) f.1)
        (record {
          account =
              ap (λ xs. xs ++ m ∷ []) v.account
              ∙ append_assoc s.handled (in_hand s.worker ++ B.contents s.queue) (m ∷ [])
              ∙ ap (λ xs. s.handled ++ xs)
                  (append_assoc (in_hand s.worker) (B.contents s.queue) (m ∷ []))
              ∙ ap (λ xs. s.handled ++ (in_hand s.worker ++ xs))
                  (sym (L.accepted m s.queue (ap (λ x. x.0) h)) ∙ ap (λ x. B.contents x.1) h);
          fitting = v.fitting;
        })
  entered_or-Inv m id s (false, q) h e v =
      let c = s.claims id in
      let f = Fits-as c.stand (cleared m) c.received c.taken c.marked e (v.fitting id) in
      put_claim-Inv id (record c { stand = spinning m }) (record s { queue = q }) f
        (record {
          account =
              v.account
              ∙ ap (λ b. s.handled ++ (in_hand s.worker ++ B.contents b))
                  (sym (L.refused m s.queue (ap (λ x. x.0) h)) ∙ ap (λ x. x.1) h);
          fitting = v.fitting;
        })

  enter_as-Inv :
      (t : Stand) (id : ℕ) (s : ConsumerGroup B)
      → (s.claims id).stand ≡ t
      → Inv s
      → Inv (enter_as t id s)
  unfolding enter_as
  enter_as-Inv waiting id s e v = v
  enter_as-Inv (spinning m) id s e v = v
  enter_as-Inv (cleared m) id s e v = entered_or-Inv m id s (B.enqueue m s.queue) refl e v
  enter_as-Inv (entered m) id s e v = v
  enter_as-Inv (over m) id s e v = v

  work_as-Inv : (w : Worker) (s : ConsumerGroup B) → s.worker ≡ w → Inv s → Inv (work_as w s)
  unfolding work_as
  work_as-Inv absent s e v = v
  work_as-Inv stopped s e v = v
  work_as-Inv empty_handed s e v = record {
    account =
        held empty_handed s e v
        ∙ ap (λ xs. s.handled ++ (xs ++ B.contents s.queue)) (sym (in_hand-tested s.ctx_done));
    fitting = v.fitting;
  }
  work_as-Inv (holding []) s e v = record {
    account =
        held (holding []) s e v
        ∙ ap (λ xs. s.handled ++ xs) (L.split s.buffer_size s.queue)
        ∙ ap (λ xs. s.handled ++ (xs ++ B.contents (B.dequeue_to s.buffer_size s.queue).1))
            (sym (in_hand-batch (B.dequeue_to s.buffer_size s.queue).0 (B.is_closed s.queue)));
    fitting = v.fitting;
  }
  work_as-Inv (holding (m ∷ ms)) s e v = record {
    account =
        held (holding (m ∷ ms)) s e v
        ∙ sym (append_assoc s.handled (m ∷ []) (ms ++ B.contents s.queue));
    fitting = v.fitting;
  }

  in_hand-started : (w : Worker) → in_hand (started_worker w) ≡ in_hand w
  unfolding started_worker
  in_hand-started absent = refl
  in_hand-started stopped = refl
  in_hand-started empty_handed = refl
  in_hand-started (holding ms) = refl

  subscribe_as-Inv : (p : Phase) (s : ConsumerGroup B) → Inv s → Inv (subscribe_as p s)
  unfolding subscribe_as
  subscribe_as-Inv fresh s v = record {
    account = rw (in_hand-started s.worker) v.account;
    fitting = v.fitting;
  }
  subscribe_as-Inv _ s v = v

  wake_as-Inv : (p : Phase) (s : ConsumerGroup B) → Inv s → Inv (wake_as p s)
  unfolding wake_as
  wake_as-Inv blocked s v = ground (arith, v.account, v.fitting)
  wake_as-Inv _ s v = v

  close_group_as-Inv : (p : Phase) (s : ConsumerGroup B) → Inv s → Inv (close_group_as p s)
  unfolding close_group_as
  close_group_as-Inv pausing s v = record { account = v.account; fitting = v.fitting }
  close_group_as-Inv _ s v = v

  close_queue_as-Inv : (p : Phase) (s : ConsumerGroup B) → Inv s → Inv (close_queue_as p s)
  unfolding close_queue_as
  close_queue_as-Inv closed_group s v = record {
    account = rw (L.close_keeps s.queue) v.account;
    fitting = v.fitting;
  }
  close_queue_as-Inv _ s v = v

  leave_as-Inv : (p : Phase) (s : ConsumerGroup B) → Inv s → Inv (leave_as p s)
  unfolding leave_as
  leave_as-Inv closed_queue s v = ground (arith, v.account, v.fitting)
  leave_as-Inv _ s v = v

  release_up-Inv : (s : ConsumerGroup B) → Inv s → Inv (release_up s)
  unfolding release_up
  release_up-Inv s v = ground (arith, v.account, v.fitting)

  set_up-Inv : (cs : List (String × List ℤ)) (s : ConsumerGroup B) → Inv s → Inv (set_up cs s)
  unfolding set_up
  set_up-Inv cs s v = ground (arith, v.account, v.fitting)

  pub step-Inv : (s : ConsumerGroup B) (e : Event) → Inv s → Inv (step s e)
  unfolding step enter_one work_step
  step-Inv s subscribe v = subscribe_as-Inv s.phase s v
  step-Inv s (setup claimed) v = set_up-Inv claimed s v
  step-Inv s (receive id m) v =
      let c = s.claims id in
      put_claim-Inv id (receive_one m c) s
        (receive_one-IsFitting m c.stand c.received c.taken c.marked (v.fitting id)) v
  step-Inv s (look id session) v =
      let c = s.claims id in
      put_claim-Inv id (look_one (session || s.ctx_done) c) s
        (look_one-IsFitting (session || s.ctx_done) c.stand c.received c.taken c.marked
          (v.fitting id))
        v
  step-Inv s (enter id) v = enter_as-Inv (s.claims id).stand id s refl v
  step-Inv s (mark id) v =
      let c = s.claims id in
      put_claim-Inv id (mark_one c) s
        (mark_one-IsFitting c.stand c.received c.taken c.marked (v.fitting id)) v
  step-Inv s consume_returns v = ground (arith, v.account, v.fitting)
  step-Inv s work v = work_as-Inv s.worker s refl v
  step-Inv s wake v = wake_as-Inv s.phase s v
  step-Inv s close_group v = close_group_as-Inv s.phase s v
  step-Inv s close_queue v = close_queue_as-Inv s.phase s v
  step-Inv s leave v = leave_as-Inv s.phase s v
  step-Inv s close v = record { account = v.account; fitting = v.fitting }
  step-Inv s release v = release_up-Inv s v
  step-Inv s (ack m) v = record { account = v.account; fitting = v.fitting }
  step-Inv s cancel v = record { account = v.account; fitting = v.fitting }

  pub run-Inv : (s : ConsumerGroup B) (es : List Event) → Inv s → Inv (run s es)
  unfolding run
  run-Inv s [] v = v
  run-Inv s (e ∷ es) v = run-Inv (step s e) es (step-Inv s e v)

  made-Inv :
      (q : B.Buf) (size : ℕ) (topics : List Topic) (conf : Callbacks)
      → B.contents q ≡ []
      → Inv (made {B = B} q size topics conf)
  unfolding made
  made-Inv q size topics conf e = record { account = sym e; fitting = λ id. (refl, refl) }

  pub new_group-Inv :
      (kerberos library : Bool) (b : Brokers) (q : B.Buf) (size : ℕ) (topics : List Topic)
      (conf : Callbacks)
      → (s : ConsumerGroup B)
      → new_group kerberos (some b) library (some q) size topics conf ≡ inr s
      → B.contents q ≡ []
      → Inv s
  unfolding new_group made
  new_group-Inv true true b q size topics conf s h e =
      let same : made q size (query_topics b topics) conf ≡ s = cc in
      subst Inv same (made-Inv q size (query_topics b topics) conf e)
  new_group-Inv true false b q size topics conf s h e = cc
  new_group-Inv false library b q size topics conf s h e = cc

  -- Whatever the library, the application and the goroutines do, in any order, from a new consumer:
  -- what the queue took is what the handler was given, then what the worker has in hand, then what is
  -- in the queue, in the order of entry; and of what a claim read from its channel the queue took all
  -- but the message that the claim tries or dropped, and the claim marked all of that but the
  -- message that it has just put in, in order.
  pub consumer_accounts :
      (kerberos library : Bool) (b : Brokers) (q : B.Buf) (size : ℕ) (topics : List Topic)
      (conf : Callbacks)
      → (s : ConsumerGroup B) (es : List Event) (id : ℕ)
      → new_group kerberos (some b) library (some q) size topics conf ≡ inr s
      → B.contents q ≡ []
      → let t = run s es in
        (t.accepted ≡ t.handled ++ (in_hand t.worker ++ B.contents t.queue))
        × IsFitting (t.claims id)
  consumer_accounts kerberos library b q size topics conf s es id h e =
      let v = run-Inv s es (new_group-Inv kerberos library b q size topics conf s h e) in
      (v.account, v.fitting id)
