-- ===== src/RingBuffer.antt =====
-- The bounded queue ksync.LockedRingBuffer of the module kutils, which every client keeps its
-- messages in. Its code is not part of the repository, so it is a parameter: a record of the
-- operations that the clients call, and a record of what the clients rely on.
-- A model takes its values as an abstract type `Buf` with the list of what it holds, oldest first.
use kmq_utils.Prelude.{
  ℕ, zero, suc, ◌≤◌, ◌<◌, ◌≡◌, refl, sym, Bool, true, false, List, [], ◌∷◌, ◌++◌, arith, length,
  take, drop, take-append-drop, length-take, ltb, if◌then◌else◌,
}

pub record RingBuffer (A : Type 0) : Type 1 where
  pub Buf : Type 0
  pub contents : Buf → List A
  pub is_closed : Buf → Bool
  -- Enqueue and TryEnqueue: whether the item went in, and the queue after it.
  pub enqueue : A → Buf → Bool × Buf
  -- DequeueTo, TryDequeueTo, DequeueToWait, DequeueBatchNoWait: at most so many items; TryDequeue:
  -- at most one. What those with a result for it call invalid is a closed queue with nothing in it.
  pub dequeue_to : ℕ → Buf → List A × Buf
  -- Close.
  pub close : Buf → Buf

-- What the clients rely on. An item that went in stands last, one that was refused changed nothing,
-- a closed queue refuses, a batch is cut from the front and is empty only if nothing is there,
-- and closing keeps what is there for the worker to drain.
pub record Laws {A : Type 0} (B : RingBuffer A) : Type 1 where
  pub accepted :
      (a : A) (b : B.Buf)
      → (B.enqueue a b).0 ≡ true
      → B.contents (B.enqueue a b).1 ≡ B.contents b ++ a ∷ []
  pub refused : (a : A) (b : B.Buf) → (B.enqueue a b).0 ≡ false → (B.enqueue a b).1 ≡ b
  pub shut : (a : A) (b : B.Buf) → B.is_closed b ≡ true → (B.enqueue a b).0 ≡ false
  pub enqueue_keeps : (a : A) (b : B.Buf) → B.is_closed (B.enqueue a b).1 ≡ B.is_closed b
  pub split :
      (n : ℕ) (b : B.Buf) → B.contents b ≡ (B.dequeue_to n b).0 ++ B.contents (B.dequeue_to n b).1
  pub bound : (n : ℕ) (b : B.Buf) → length (B.dequeue_to n b).0 ≤ n
  pub some_if_any : (n : ℕ) (b : B.Buf) → 0 < n → (B.dequeue_to n b).0 ≡ [] → B.contents b ≡ []
  pub dequeue_keeps : (n : ℕ) (b : B.Buf) → B.is_closed (B.dequeue_to n b).1 ≡ B.is_closed b
  pub close_keeps : (b : B.Buf) → B.contents (B.close b) ≡ B.contents b
  pub close_closes : (b : B.Buf) → B.is_closed (B.close b) ≡ true

-- The items that wait in a queue whose batch is empty are none.
pub dequeue_to-nil :
    {A : Type 0} (B : RingBuffer A) (L : Laws B) (n : ℕ) (b : B.Buf)
    → 0 < n
    → (B.dequeue_to n b).0 ≡ []
    → B.contents (B.dequeue_to n b).1 ≡ []
dequeue_to-nil B L n b pos_n h = ground (arith, L.some_if_any n b pos_n h, L.split n b)

-- A queue of a fixed capacity over a list, to run the models on.
pub record Items (A : Type 0) : Type 0 where
  pub items : List A
  pub closed : Bool

abbrev put : {A : Type 0} → ℕ → A → Items A → Bool × Items A
put cap a b =
    if b.closed
    then (false, b)
    else if ltb (length b.items) cap
    then (true, record b { items = b.items ++ a ∷ [] })
    else (false, b)

abbrev pub bounded : {A : Type 0} → ℕ → RingBuffer A
bounded {A} cap = record {
  Buf = Items A;
  contents = λ b. b.items;
  is_closed = λ b. b.closed;
  enqueue = put cap;
  dequeue_to = λ n b. (take n b.items, record b { items = drop n b.items });
  close = λ b. record b { closed = true };
}

pub take-nil : {A : Type 0} (n : ℕ) (xs : List A) → 0 < n → take n xs ≡ [] → xs ≡ []
take-nil zero xs h e = elim h [ ]
take-nil (suc n) [] h e = refl
take-nil (suc n) (x ∷ xs) h e = cc

pub bounded-Laws : {A : Type 0} (cap : ℕ) → Laws {A = A} (bounded cap)
bounded-Laws cap = record {
  accepted = λ a b h. ground arith;
  refused = λ a b h. ground arith;
  shut = λ a b h. ground arith;
  enqueue_keeps = λ a b. ground arith;
  split = λ n b. sym (take-append-drop n b.items);
  bound = λ n b. omega (arith, length-take n b.items);
  some_if_any = λ n b h e. take-nil n b.items h e;
  dequeue_keeps = λ n b. refl;
  close_keeps = λ b. refl;
  close_closes = λ b. refl;
}
