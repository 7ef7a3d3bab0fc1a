-- ===== src/Rocket/Inbox.antt =====
-- What the two consumers of rocketmq/sub.go share: the queue between the library's goroutines and
-- SyncSubscribe, with the history of what the queue took, what it refused, and what the handler was
-- given. `blanks` counts the calls of the handler with the zero message.
use kmq_utils.Prelude.{
  ℕ, ◌+◌, ◌-◌, ◌≤◌, ◌≡◌, refl, sym, ap, ◌∙◌, Bool, ◌&&◌, String, List, [], ◌∷◌, ◌++◌, is_empty,
  length, length-append, arith, if◌then◌else◌, Bool-cases, inl, inr, append_assoc, append-nil,
}
use kmq_utils.RingBuffer.{RingBuffer, Laws}

-- The fields of primitive.MessageExt that the package reads.
pub record Message : Type 0 where
  pub topic : String
  pub queue_id : ℕ
  pub queue_offset : ℕ
  pub body : String

pub record Inbox (B : RingBuffer Message) : Type 0 where
  pub queue : B.Buf
  pub accepted : List Message
  pub lost : List Message
  pub handled : List Message
  pub blanks : ℕ

module _ {B : RingBuffer Message} where
  unfoldable pub new : B.Buf → Inbox B
  new q = record { queue = q; accepted = []; lost = []; handled = []; blanks = 0 }

  -- `_ = queue.Enqueue(msg)`.
  unfoldable pub put_in : Message → Inbox B → Inbox B
  put_in m i =
      let (ok, q) = B.enqueue m i.queue in
      (if ok
        then record i { queue = q; accepted = i.accepted ++ m ∷ [] }
        else record i { queue = q; lost = i.lost ++ m ∷ [] })

  -- `msg, ok, isValid := queue.TryDequeue(); ok && isValid`, and the handler.
  unfoldable pub take_one : Inbox B → Inbox B
  take_one i =
      let (ms, q) = B.dequeue_to 1 i.queue in record i { queue = q; handled = i.handled ++ ms }

  -- `!isValid`.
  abbrev pub is_over : Inbox B → Bool
  is_over i = B.is_closed i.queue && is_empty (B.contents i.queue)

  -- Len, a slice of that length, DequeueToWait into it, and the handler on the whole slice.
  unfoldable pub drain : Inbox B → Inbox B
  drain i =
      let n = length (B.contents i.queue) in
      let (ms, q) = B.dequeue_to n i.queue in
      record i { queue = q; handled = i.handled ++ ms; blanks = i.blanks + (n - length ms) }

  unfoldable pub shut : Inbox B → Inbox B
  shut i = record i { queue = B.close i.queue }

-- What the queue took is what the handler was given, then what is in the queue.
pub record Conserved {B : RingBuffer Message} (i : Inbox B) : Type 0 where
  pub account : i.accepted ≡ i.handled ++ B.contents i.queue

pub new-Conserved :
    {B : RingBuffer Message} (q : B.Buf) → B.contents q ≡ [] → Conserved (new {B = B} q)
unfolding new
new-Conserved q e = record { account = sym e }

-- A batch of the queue is as large as what was asked for, where so much is there.
abbrev pub Greedy : RingBuffer Message → Type 0
Greedy B = (n : ℕ) (b : B.Buf) → n ≤ length (B.contents b) → length (B.dequeue_to n b).0 ≡ n

length_zero : {A : Type 0} (xs : List A) → length xs ≡ 0 → xs ≡ []
length_zero [] e = refl
length_zero (x ∷ xs) e = absurd (omega arith)

module _ {B : RingBuffer Message} (L : Laws B) where
  pub put_in-Conserved : (m : Message) (i : Inbox B) → Conserved i → Conserved (put_in m i)
  unfolding put_in
  put_in-Conserved m i v = elim (Bool-cases (B.enqueue m i.queue).0) [
    | inl ok ↦ record {
      account =
          rw (ok, L.accepted m i.queue ok, v.account)
            (append_assoc i.handled (B.contents i.queue) (m ∷ []));
    }
    | inr full ↦ record { account = rw (full, L.refused m i.queue full) v.account }
  ]

  -- A batch moves from the queue to the handler.
  moved :
      (n : ℕ) (i : Inbox B)
      → Conserved i
      → i.accepted
        ≡ (i.handled ++ (B.dequeue_to n i.queue).0) ++ B.contents (B.dequeue_to n i.queue).1
  moved n i v =
      v.account
      ∙ ap (◌++◌ i.handled) (L.split n i.queue)
      ∙ sym (
          append_assoc i.handled (B.dequeue_to n i.queue).0 (B.contents (B.dequeue_to n i.queue).1))

  pub take_one-Conserved : (i : Inbox B) → Conserved i → Conserved (take_one i)
  unfolding take_one
  take_one-Conserved i v = record { account = moved 1 i v }

  pub drain-Conserved : (i : Inbox B) → Conserved i → Conserved (drain i)
  unfolding drain
  drain-Conserved i v = record { account = moved (length (B.contents i.queue)) i v }

  pub shut-Conserved : (i : Inbox B) → Conserved i → Conserved (shut i)
  unfolding shut
  shut-Conserved i v = ground (arith, v.account, L.close_keeps i.queue)

  -- A greedy queue is emptied, and no zero message is handled.
  pub drain-all :
      Greedy B
      → (i : Inbox B) → Conserved i
      → ((drain i).handled ≡ i.accepted) × ((drain i).blanks ≡ i.blanks)
  unfolding drain
  drain-all g i v =
      let n = length (B.contents i.queue) in
      let ms = (B.dequeue_to n i.queue).0 in
      let left = B.contents (B.dequeue_to n i.queue).1 in
      let size = g n i.queue (omega arith) in
      let nothing : length left ≡ 0 =
        omega (arith, length-append ms left, ap length (L.split n i.queue), size) in
      (
        sym (moved n i v ∙ rw (length_zero left nothing) (append-nil (i.handled ++ ms))),
        rw size (omega arith),
      )
