-- ===== src/Kafka/Consumer/Late.antt =====
-- A message of the Kafka consumer that is marked and never handed on (kafkamq/sub.go): the worker
-- returns on the first empty queue behind the end of the context, and a claim that has tested the
-- contexts before may still put its message in.
use mathlib.Core.Path.{subst}
use kmq_utils.Prelude.{
  ℕ, ◌≡◌, refl, sym, ap, ◌∙◌, ◌==◌, Bool, true, false, false, List, [], ◌∷◌, ◌++◌, arith,
  if◌then◌else◌,
}
use kmq_utils.RingBuffer.{RingBuffer, Laws}
use kmq_utils.Kafka.Producer.{KafkaMessage}
use kmq_utils.Kafka.Session.{cleared, entered, Claim, mark_one}
use kmq_utils.Kafka.Consumer.{
  stopped, empty_handed, holding, ConsumerGroup, Event, enter, mark, work, close, cancel, put_claim,
  entered_or, enter_as, enter_one, work_as, work_step, step, run,
}
use kmq_utils.Kafka.Consumer.Keeps.{run-Keeps}
use kmq_utils.Kafka.Consumer.Shutdown.{fetched, fetch, batch-worker, tested}

same_id : (id : ℕ) → (id == id) ≡ true
same_id id = ground arith

module _ {B : RingBuffer KafkaMessage} where
  own : (id : ℕ) (c : Claim) (s : ConsumerGroup B) → (put_claim id c s).claims id ≡ c
  unfolding put_claim
  own id c s = ground arith

  entered_or-claim :
      (m : KafkaMessage) (id : ℕ) (s : ConsumerGroup B) (r : Bool × B.Buf)
      → r.0 ≡ true
      → (entered_or m id (s.claims id) r s).claims id
        ≡ record (s.claims id) { stand = entered m; taken = (s.claims id).taken ++ m ∷ [] }
  unfolding entered_or put_claim
  entered_or-claim m id s (true, q) h = rw (same_id id) refl
  entered_or-claim m id s (false, q) h = cc

  enter_one-claim :
      (m : KafkaMessage) (id : ℕ) (s : ConsumerGroup B)
      → (s.claims id).stand ≡ cleared m
      → (B.enqueue m s.queue).0 ≡ true
      → (enter_one id s).claims id
        ≡ record (s.claims id) { stand = entered m; taken = (s.claims id).taken ++ m ∷ [] }
  unfolding enter_one enter_as
  enter_one-claim m id s e h = rw e (entered_or-claim m id s (B.enqueue m s.queue) h)

  marks :
      (m : KafkaMessage) (id : ℕ) (s : ConsumerGroup B)
      → (s.claims id).stand ≡ cleared m
      → (B.enqueue m s.queue).0 ≡ true
      → ((run s (enter id ∷ mark id ∷ [])).claims id).marked ≡ (s.claims id).marked ++ m ∷ []
  unfolding run step mark_one
  marks m id s e h =
      ap (λ c. c.marked) (own id (mark_one ((enter_one id s).claims id)) (enter_one id s))
      ∙ ap (λ c. (mark_one c).marked) (enter_one-claim m id s e h)

  lost :
      (m : KafkaMessage) (id : ℕ) (s : ConsumerGroup B) (es : List Event)
      → (s.claims id).stand ≡ cleared m
      → (B.enqueue m s.queue).0 ≡ true
      → s.worker ≡ stopped
      → let t = run s (enter id ∷ mark id ∷ []) in
        ((t.claims id).marked ≡ (s.claims id).marked ++ m ∷ []) × ((run t es).handled ≡ s.handled)
  lost m id s es e h w =
      let first = (run-Keeps s (enter id ∷ mark id ∷ [])).handled w in
      let then_on = (run-Keeps (run s (enter id ∷ mark id ∷ [])) es).handled first.0 in
      (marks m id s e h, then_on.1 ∙ first.1)

module _ {B : RingBuffer KafkaMessage} (L : Laws B) where
  nothing : (n : ℕ) (q : B.Buf) → B.contents q ≡ [] → (B.dequeue_to n q).0 ≡ []
  nothing n q e = ground (arith, L.split n q)

  -- An empty batch with an open queue leaves the worker before its test of the context.
  found_nothing :
      (s : ConsumerGroup B)
      → s.worker ≡ holding []
      → B.contents s.queue ≡ []
      → B.is_closed s.queue ≡ false
      → (work_step s).worker ≡ empty_handed
  found_nothing s w q o =
      ap (λ x. x.worker) (fetch s w)
      ∙ batch-worker s [] (nothing s.buffer_size s.queue q)
      ∙ ap (λ b. if b then stopped else empty_handed) o

  -- Where a claim has tested the contexts for m, and the worker has an empty hand and an empty queue
  -- that is open, then an end of the context, two turns of the worker, and the claim's next two moves
  -- leave m marked as consumed, while the handler is given nothing more, whatever happens afterwards.
  pub late_message_lost :
      (m : KafkaMessage) (id : ℕ) (s : ConsumerGroup B) (es : List Event)
      → (s.claims id).stand ≡ cleared m
      → s.worker ≡ holding []
      → B.contents s.queue ≡ []
      → B.is_closed s.queue ≡ false
      → (B.enqueue m (B.dequeue_to s.buffer_size s.queue).1).0 ≡ true
      → let t = run s (cancel ∷ work ∷ work ∷ enter id ∷ mark id ∷ []) in
        ((t.claims id).marked ≡ (s.claims id).marked ++ m ∷ []) × ((run t es).handled ≡ s.handled)
  unfolding run step fetched work_as
  late_message_lost m id s es e w q o h =
      let c = step s cancel in
      let f = fetched c in
      let stop : work_step (work_step c) ≡ record f { worker = stopped } =
        ap work_step (fetch c w)
        ∙ tested f (ap (λ x. x.worker) (sym (fetch c w)) ∙ found_nothing c w q o) refl in
      subst
        (λ x.
          (((run x (enter id ∷ mark id ∷ [])).claims id).marked ≡ (s.claims id).marked ++ m ∷ [])
          × ((run (run x (enter id ∷ mark id ∷ [])) es).handled ≡ s.handled))
        (sym stop) (lost m id (record f { worker = stopped }) es e h refl)

  entered_or-rest :
      (m : KafkaMessage) (id : ℕ) (c : Claim) (s : ConsumerGroup B) (r : Bool × B.Buf)
      → r.0 ≡ true
      → let t = entered_or m id c r s in
        (t.worker ≡ s.worker) × (t.handled ≡ s.handled) × (t.accepted ≡ s.accepted ++ m ∷ [])
  unfolding entered_or put_claim
  entered_or-rest m id c s (true, q) h = (refl, refl, refl)
  entered_or-rest m id c s (false, q) h = cc

  enter_one-rest :
      (m : KafkaMessage) (id : ℕ) (s : ConsumerGroup B)
      → (s.claims id).stand ≡ cleared m
      → (B.enqueue m s.queue).0 ≡ true
      → let t = run s (enter id ∷ mark id ∷ close ∷ []) in
        (t.worker ≡ s.worker) × (t.handled ≡ s.handled) × (t.accepted ≡ s.accepted ++ m ∷ [])
  unfolding run step enter_one enter_as put_claim
  enter_one-rest m id s e h = rw e (entered_or-rest m id (s.claims id) s (B.enqueue m s.queue) h)

  closed_marks :
      (m : KafkaMessage) (id : ℕ) (s : ConsumerGroup B)
      → (s.claims id).stand ≡ cleared m
      → (B.enqueue m s.queue).0 ≡ true
      → ((run s (enter id ∷ mark id ∷ close ∷ [])).claims id).marked
        ≡ (s.claims id).marked ++ m ∷ []
  unfolding run step
  closed_marks m id s e h = marks m id s e h

  closed_context :
      (id : ℕ) (s : ConsumerGroup B) → (run s (enter id ∷ mark id ∷ close ∷ [])).ctx_done ≡ true
  unfolding run step
  closed_context id s = refl

  run-fetched :
      (id : ℕ) (s : ConsumerGroup B)
      → s.worker ≡ holding []
      → run s (work ∷ enter id ∷ mark id ∷ close ∷ work ∷ [])
        ≡ work_step (run (fetched s) (enter id ∷ mark id ∷ close ∷ []))
  unfolding run step
  run-fetched id s w = ap (λ x. work_step (run x (enter id ∷ mark id ∷ close ∷ []))) (fetch s w)

  -- Where a claim has tested the contexts for m, the worker has an empty hand and the open queue is
  -- empty: a turn of the worker, the claim's next two moves, Close and another turn of the worker, and
  -- the queue took m before Close and the claim has marked it, while the handler is given nothing
  -- more, whatever happens afterwards.
  pub accepted_message_lost :
      (m : KafkaMessage) (id : ℕ) (s : ConsumerGroup B) (es : List Event)
      → (s.claims id).stand ≡ cleared m
      → s.worker ≡ holding []
      → B.contents s.queue ≡ []
      → B.is_closed s.queue ≡ false
      → (B.enqueue m (B.dequeue_to s.buffer_size s.queue).1).0 ≡ true
      → let t = run s (work ∷ enter id ∷ mark id ∷ close ∷ work ∷ []) in
        (t.accepted ≡ s.accepted ++ m ∷ [])
        × ((t.claims id).marked ≡ (s.claims id).marked ++ m ∷ [])
        × ((run t es).handled ≡ s.handled)
  unfolding fetched work_as
  accepted_message_lost m id s es e w q o h =
      let f = fetched s in
      let u = run f (enter id ∷ mark id ∷ close ∷ []) in
      let rest = enter_one-rest m id f e h in
      let empty : f.worker ≡ empty_handed =
        ap (λ x. x.worker) (sym (fetch s w)) ∙ found_nothing s w q o in
      let stop : work_step u ≡ record u { worker = stopped } =
        tested u (rest.0 ∙ empty) (closed_context id f) in
      subst
        (λ t.
          (t.accepted ≡ s.accepted ++ m ∷ [])
          × ((t.claims id).marked ≡ (s.claims id).marked ++ m ∷ [])
          × ((run t es).handled ≡ s.handled))
        (sym (run-fetched id s w ∙ stop))
        (
          rest.2,
          closed_marks m id f e h,
          ((run-Keeps (record u { worker = stopped }) es).handled refl).1 ∙ rest.1,
        )
