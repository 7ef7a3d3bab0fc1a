-- ===== src/Pump.antt =====
-- The sending goroutine that every producer runs: it takes a batch from the queue, and tries each
-- message of the batch until it is sent or the goroutine gives up (rabbitmq/pub.go, kafkamq/pub.go,
-- rocketmq/pub.go, mqtt/mqtt_client.go, natsmq/nats_core.go, natsmq/nats_jetstream.go).
-- What a client decides after an attempt is a verdict, which the client's own module computes.
-- `accepted` and `sent` record history: the messages that Publish took and that went out, oldest
-- first. A goroutine that is blocked on an empty open queue is a step that changes nothing.
pub mod Conserved
pub mod Drained
pub mod Drops
pub mod Justified
pub mod Quits
use kmq_utils.Prelude.{ℕ, zero, suc, Bool, true, false, List, [], ◌∷◌, ◌++◌, if◌then◌else◌}
use kmq_utils.RingBuffer.{RingBuffer}

-- Where the goroutine stands; `E` is the error of a failed attempt.
pub data Phase (A E : Type 0) : Type 0 where
  idle : Phase A E  -- not started
  waiting : Phase A E  -- at DequeueTo
  sending : A → List A → Phase A E  -- the message in hand, and the rest of the batch
  checking : A → List A → E → Phase A E  -- after a failed attempt
  stopped : List A → Phase A E  -- returned, with the messages it dropped

-- What follows from an attempt, and from the test after a failed one.
pub data Verdict (E : Type 0) : Type 0 where
  delivered : Verdict E
  failed : E → Verdict E
  quit : Verdict E

pub data Check : Type 0 where
  retry give_up : Check

pub record Pump {A : Type 0} (B : RingBuffer A) (E : Type 0) : Type 0 where
  pub queue : B.Buf
  pub phase : Phase A E
  pub accepted : List A
  pub sent : List A

module _ {A E : Type 0} where
  begin_phase : Phase A E → Phase A E
  begin_phase idle = waiting
  begin_phase ph = ph

  -- The rest of the batch, or the next DequeueTo.
  onward : List A → Phase A E
  onward [] = waiting
  onward (m ∷ rest) = sending m rest

  -- wg.Wait() returns, at once where the goroutine was never started.
  abbrev pub has_returned : Phase A E → Bool
  has_returned idle = true
  has_returned (stopped lost) = true
  has_returned _ = false

  -- What was taken from the queue and is not sent.
  abbrev pub in_hand : Phase A E → List A
  in_hand idle = []
  in_hand waiting = []
  in_hand (sending m rest) = m ∷ rest
  in_hand (checking m rest e) = m ∷ rest
  in_hand (stopped lost) = lost

module _ {A : Type 0} {B : RingBuffer A} {E : Type 0} where
  unfoldable pub new : B.Buf → Pump B E
  new q = record { queue = q; phase = idle; accepted = []; sent = [] }

  -- Enqueue, and its answer.
  unfoldable pub offer : A → Pump B E → Bool × Pump B E
  offer m p =
      let (ok, q) = B.enqueue m p.queue in
      (ok, record p { queue = q; accepted = if ok then p.accepted ++ m ∷ [] else p.accepted })

  -- queue.Close().
  unfoldable pub seal : Pump B E → Pump B E
  seal p = record p { queue = B.close p.queue }

  -- The goroutine is started.
  unfoldable pub begin : Pump B E → Pump B E
  unfolding begin_phase
  begin p = record p { phase = begin_phase p.phase }

  -- `n := queue.DequeueTo(buffer); if n <= 0 { return }`, which returns nothing only when closed.
  fetched : Bool → List A × B.Buf → Pump B E → Pump B E
  fetched closed ([], q) p = if closed then record p { queue = q; phase = stopped [] } else p
  fetched closed (m ∷ rest, q) p = record p { queue = q; phase = sending m rest }

  unfoldable pub fetch : ℕ → Pump B E → Pump B E
  unfolding fetched
  fetch size p = fetched (B.is_closed p.queue) (B.dequeue_to size p.queue) p

  attempt : A → List A → Verdict E → Pump B E → Pump B E
  unfolding onward
  attempt m rest delivered p = record p { phase = onward rest; sent = p.sent ++ m ∷ [] }
  attempt m rest (failed e) p = record p { phase = checking m rest e }
  attempt m rest quit p = record p { phase = stopped (m ∷ rest) }

  recheck : A → List A → Check → Pump B E → Pump B E
  recheck m rest retry p = record p { phase = sending m rest }
  recheck m rest give_up p = record p { phase = stopped (m ∷ rest) }

  dispatch : Phase A E → ℕ → Verdict E → (E → Check) → Pump B E → Pump B E
  unfolding fetch attempt recheck
  dispatch idle size v c p = p
  dispatch waiting size v c p = fetch size p
  dispatch (sending m rest) size v c p = attempt m rest v p
  dispatch (checking m rest e) size v c p = recheck m rest (c e) p
  dispatch (stopped lost) size v c p = p

  -- One step of the goroutine.
  unfoldable pub work : ℕ → Verdict E → (E → Check) → Pump B E → Pump B E
  unfolding dispatch
  work size v c p = dispatch p.phase size v c p

  -- So many steps under one verdict.
  unfoldable pub works : ℕ → ℕ → Verdict E → (E → Check) → Pump B E → Pump B E
  unfolding work
  works zero size v c p = p
  works (suc n) size v c p = works n size v c (work size v c p)

  abbrev pub pending : Pump B E → List A
  pending p = in_hand p.phase ++ B.contents p.queue
