-- ===== src/Redis/Publisher/Drains.antt =====
-- Close always comes to an end with the Redis publisher, whatever the server answers (redismq/pub.go,
-- startPublish, PublishArray and reconnectLoop).
use mathlib.Core.Path.{subst}
use kmq_utils.Prelude.{
  ℕ, suc, ◌+◌, ◌*◌, ◌-◌, ◌<◌, ◌≤◌, ◌≡◌, refl, sym, ap, ◌∙◌, Bool, true, false, leb, List, [], ◌∷◌,
  ◌++◌, arith, length, length-append, append-nil, map, if◌then◌else◌,
}
use kmq_utils.RingBuffer.{RingBuffer, Laws, dequeue_to-nil}
use kmq_utils.Redis.Publisher.{
  RedisMessage, Stage, idle, looping, pinging, reading, returned, trying, failing, RedisPub, turn,
  close, begin_batch, read_step, try_step, again_step, turn_as, step, run, is_publishing,
}
use kmq_utils.Redis.Publisher.Accounts.{Inv, in_hand, retries, step-Inv, run-Inv}

-- How many steps the goroutine has left at most, by where it is and how long the queue is.
abbrev pub left : Stage → ℕ → ℕ
left idle n = 0
left returned n = 0
left looping n = 1
left reading n = 2 + 7 * n
left pinging n = 3 + 7 * n
left (trying ms k) n = 2 + 7 * n + 2 * (3 - k)
left (failing ms k) n = 1 + 7 * n + 2 * (3 - k)

-- In a loop of startPublish, or behind it with an empty queue.
abbrev pub Rest : Stage → List RedisMessage → Type 0
Rest idle xs = ⊥
Rest pinging xs = ⊥
Rest looping xs = xs ≡ []
Rest returned xs = xs ≡ []
Rest _ xs = Unit

publishing-Rest : (x : Stage) (xs : List RedisMessage) → is_publishing x ≡ true → Rest x xs
unfolding is_publishing
publishing-Rest idle xs h = cc
publishing-Rest pinging xs h = cc
publishing-Rest looping xs h = cc
publishing-Rest returned xs h = cc
publishing-Rest reading xs h = tt
publishing-Rest (trying ms k) xs h = tt
publishing-Rest (failing ms k) xs h = tt

module _ {B : RingBuffer RedisMessage} where
  abbrev pub budget : RedisPub B → ℕ
  budget s = left s.stage (length (B.contents s.queue))

  -- A step of the goroutine while closing: it keeps what was accepted, and costs one of the steps that
  -- are left, unless the goroutine has returned.
  pub record Onward (s t : RedisPub B) : Type 0 where
    pub accepted : t.accepted ≡ s.accepted
    pub draining : t.draining ≡ true
    pub size : t.buffer_size ≡ s.buffer_size
    pub cost : budget t ≤ budget s - 1
    pub rest : Rest t.stage (B.contents t.queue)

  again_as : Bool → List RedisMessage → ℕ → RedisPub B → RedisPub B
  again_as true ms k s = record s {
    stage = reading;
    settled = s.settled ++ ms;
    dropped = s.dropped ++ ms;
  }
  again_as false ms k s = record s { stage = trying ms (suc k) }

  again-closing :
      (ms : List RedisMessage) (k : ℕ) (s : RedisPub B)
      → s.draining ≡ true
      → again_step ms k s ≡ again_as (leb 3 (suc k)) ms k s
  unfolding again_step again_as
  again-closing ms k s d = ground (arith, d)

  again_as-Onward :
      (b : Bool) (ms : List RedisMessage) (k : ℕ) (s : RedisPub B)
      → s.stage ≡ failing ms k
      → s.draining ≡ true
      → k < 3
      → Onward s (again_as b ms k s)
  unfolding again_as
  again_as-Onward true ms k s e d f = record {
    accepted = refl;
    draining = d;
    size = refl;
    cost = omega (arith, ap (λ x. left x (length (B.contents s.queue))) e, f);
    rest = tt;
  }
  again_as-Onward false ms k s e d f = record {
    accepted = refl;
    draining = d;
    size = refl;
    cost = omega (arith, ap (λ x. left x (length (B.contents s.queue))) e, f);
    rest = tt;
  }

  try-closing :
      (ms : List RedisMessage) (k : ℕ) (s : RedisPub B)
      → s.draining ≡ true
      → try_step ms k false s ≡ record s { stage = failing ms k }
  unfolding try_step
  try-closing ms k s d = ground (arith, d)

  try_step-Onward :
      (ms : List RedisMessage) (k : ℕ) (a : Bool) (s : RedisPub B)
      → s.stage ≡ trying ms k
      → s.draining ≡ true
      → k < 3
      → Onward s (try_step ms k a s)
  unfolding try_step
  try_step-Onward ms k true s e d f = record {
    accepted = refl;
    draining = d;
    size = refl;
    cost = omega (arith, ap (λ x. left x (length (B.contents s.queue))) e, f);
    rest = tt;
  }
  try_step-Onward ms k false s e d f = subst (Onward s) (sym (try-closing ms k s d)) (record {
    accepted = refl;
    draining = d;
    size = refl;
    cost = omega (arith, ap (λ x. left x (length (B.contents s.queue))) e, f);
    rest = tt;
  })

module _ {B : RingBuffer RedisMessage} (L : Laws B) where
  read-closing :
      (s : RedisPub B)
      → s.draining ≡ true
      → read_step s ≡ begin_batch looping (B.dequeue_to s.buffer_size s.queue) s
  unfolding read_step
  read-closing s d = ground (arith, d)

  begin_batch-Onward :
      (r : List RedisMessage × B.Buf) (s : RedisPub B)
      → B.dequeue_to s.buffer_size s.queue ≡ r
      → s.stage ≡ reading
      → s.draining ≡ true
      → 0 < s.buffer_size
      → Onward s (begin_batch looping r s)
  unfolding begin_batch
  begin_batch-Onward ([], q) s h e d z = record {
    accepted = refl;
    draining = d;
    size = refl;
    cost = omega (arith, ap (λ x. left x (length (B.contents s.queue))) e);
    rest =
        sym (ap (λ r. B.contents r.1) h)
        ∙ dequeue_to-nil B L s.buffer_size s.queue z (ap (λ r. r.0) h);
  }
  begin_batch-Onward (m ∷ ms, q) s h e d z = record {
    accepted = refl;
    draining = d;
    size = refl;
    cost = omega (
      arith,
      ap (λ x. left x (length (B.contents s.queue))) e,
      ap length (L.split s.buffer_size s.queue ∙ ap (λ r. r.0 ++ B.contents r.1) h),
      length-append (m ∷ ms) (B.contents q),
    );
    rest = tt;
  }

  loop-closing :
      (s : RedisPub B)
      → s.draining ≡ true
      → (if s.draining
          then record s { stage = returned }
          else if s.connected
          then s
          else record s { stage = pinging })
        ≡ record s { stage = returned }
  loop-closing s d = ground (arith, d)

  turn_as-Onward :
      (x : Stage) (a : Bool) (s : RedisPub B)
      → s.stage ≡ x
      → s.draining ≡ true
      → 0 < s.buffer_size
      → retries x < 3
      → Rest x (B.contents s.queue)
      → Onward s (turn_as x a s)
  unfolding turn_as
  turn_as-Onward idle a s e d z f r = elim r [ ]
  turn_as-Onward pinging a s e d z f r = elim r [ ]
  turn_as-Onward looping a s e d z f r =
      subst (Onward s) (sym (loop-closing s d))
        (record { accepted = refl; draining = d; size = refl; cost = omega arith; rest = r })
  turn_as-Onward reading a s e d z f r =
      subst (Onward s) (sym (read-closing s d))
        (begin_batch-Onward (B.dequeue_to s.buffer_size s.queue) s refl e d z)
  turn_as-Onward (trying ms k) a s e d z f r = try_step-Onward ms k a s e d f
  turn_as-Onward (failing ms k) a s e d z f r =
      subst (Onward s) (sym (again-closing ms k s d)) (again_as-Onward (leb 3 (suc k)) ms k s e d f)
  turn_as-Onward returned a s e d z f r = record {
    accepted = refl;
    draining = d;
    size = refl;
    cost = omega (arith, ap (λ x. left x (length (B.contents s.queue))) e);
    rest = subst (λ x. Rest x (B.contents s.queue)) (sym e) r;
  }

  turns :
      (answers : List Bool) (s : RedisPub B)
      → Inv s
      → s.draining ≡ true
      → 0 < s.buffer_size
      → Rest s.stage (B.contents s.queue)
      → budget s ≤ length answers
      → let t = run s (map turn answers) in
        (t.accepted ≡ s.accepted) × (budget t ≡ 0) × Rest t.stage (B.contents t.queue)
  unfolding run step
  turns [] s v d z r h = (refl, omega (arith, h), r)
  turns (a ∷ answers) s v d z r h =
      let o = turn_as-Onward s.stage a s refl d z v.few r in
      let t = turn_as s.stage a s in
      let e =
        turns answers t (step-Inv L s (turn a) v) o.draining (subst (λ n. 0 < n) (sym o.size) z)
          o.rest (omega (arith, o.cost, h)) in
      (e.0 ∙ o.accepted, e.1, e.2)

  -- No steps left and started: the goroutine has returned.
  at_end :
      (x : Stage) (n : ℕ) (xs : List RedisMessage)
      → left x n ≡ 0
      → Rest x xs
      → (x ≡ returned) × (in_hand x ++ xs ≡ [])
  at_end idle n xs h r = elim r [ ]
  at_end pinging n xs h r = elim r [ ]
  at_end looping n xs h r = ground (arith, h)
  at_end reading n xs h r = ground (arith, h)
  at_end (trying ms k) n xs h r = ground (arith, h)
  at_end (failing ms k) n xs h r = ground (arith, h)
  at_end returned n xs h r = (refl, r)

  -- Close on a publisher whose goroutine is in startPublish, with anything in hand and in the queue:
  -- within the budgeted number of its steps, whatever the server answers to its publications, the
  -- goroutine returns, and it is then done with every message that Publish ever took, in order.
  pub redis_close_ends :
      (answers : List Bool) (s : RedisPub B)
      → Inv s
      → is_publishing s.stage ≡ true
      → 0 < s.buffer_size
      → budget s ≤ length answers
      → let t = run s (close ∷ map turn answers) in (t.stage ≡ returned) × (t.settled ≡ s.accepted)
  unfolding run step
  redis_close_ends answers s v p z h =
      let c = step s close in
      let e =
        turns answers c (step-Inv L s close v) refl z
          (publishing-Rest s.stage (B.contents s.queue) p) h in
      let t = run c (map turn answers) in
      let f = at_end t.stage (length (B.contents t.queue)) (B.contents t.queue) e.1 e.2 in
      let w = run-Inv L c (map turn answers) (step-Inv L s close v) in
      (f.0, sym (append-nil t.settled) ∙ sym (ap (λ xs. t.settled ++ xs) f.1) ∙ sym w.account ∙ e.0)
