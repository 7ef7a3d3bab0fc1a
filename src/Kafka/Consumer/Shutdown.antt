-- ===== src/Kafka/Consumer/Shutdown.antt =====
-- What the end of the Kafka consumer does with the messages in the queue (kafkamq/sub.go, the worker
-- and the end of SyncSubscribe).
use kmq_utils.Prelude.{
  ℕ, ◌+◌, ◌*◌, ◌≡◌, refl, true, false, List, [], ◌∷◌, arith, length, is_empty, if◌then◌else◌,
}
use kmq_utils.RingBuffer.{RingBuffer, Laws}
use kmq_utils.Kafka.Producer.{KafkaMessage}
use kmq_utils.Kafka.Consumer.{
  stopped, empty_handed, holding, exited, ConsumerGroup, Event, wake, close_group, close_queue,
  leave, release, work_as, work_step,
}
use kmq_utils.Kafka.Consumer.Claims.{in_hand}

-- SyncSubscribe and Close behind the worker's end.
abbrev pub ending : List Event
ending = wake ∷ close_group ∷ close_queue ∷ leave ∷ release ∷ []

module _ {B : RingBuffer KafkaMessage} where
  -- How many steps the worker has left at most.
  abbrev pub budget : ConsumerGroup B → ℕ
  budget s = length (in_hand s.worker) + 2 * length (B.contents s.queue) + 2

  -- The worker has stopped with everything handed on, and the other parties see no difference.
  pub record Done (s t : ConsumerGroup B) : Type 0 where
    pub worker : t.worker ≡ stopped
    pub handled : t.handled ≡ s.accepted
    pub accepted : t.accepted ≡ s.accepted
    pub phase : t.phase ≡ s.phase
    pub context : t.ctx_done ≡ true
    pub closing : t.closing ≡ s.closing

  unfoldable pub fetched : ConsumerGroup B → ConsumerGroup B
  unfolding work_as
  fetched s = work_as (holding []) s

  pub fetch : (s : ConsumerGroup B) → s.worker ≡ holding [] → work_step s ≡ fetched s
  unfolding work_step work_as fetched
  fetch s h = rw h refl

  pub batch-worker :
      (s : ConsumerGroup B) (ms : List KafkaMessage)
      → (B.dequeue_to s.buffer_size s.queue).0 ≡ ms
      → (fetched s).worker ≡ (
          if is_empty ms
          then (if B.is_closed s.queue then stopped else empty_handed)
          else holding ms)
  unfolding fetched work_as
  batch-worker s [] e = ground (arith, e)
  batch-worker s (m ∷ ms) e = ground (arith, e)

  -- The test of the context behind an empty batch.
  pub tested :
      (s : ConsumerGroup B)
      → s.worker ≡ empty_handed
      → s.ctx_done ≡ true
      → work_step s ≡ record s { worker = stopped }
  unfolding work_step work_as
  tested s h c = rw (h, work_as) (rw c refl)

module _ {B : RingBuffer KafkaMessage} (L : Laws B) where
  -- The end of SyncSubscribe and of Close behind a worker that has stopped.
  pub record Ended (s t : ConsumerGroup B) : Type 0 where
    pub phase : t.phase ≡ exited
    pub removed : t.removed ≡ true
    pub group : t.open_group ≡ false
    pub handled : t.handled ≡ s.handled
