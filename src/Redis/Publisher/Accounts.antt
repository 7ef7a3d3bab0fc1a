-- ===== src/Redis/Publisher/Accounts.antt =====
-- No schedule of events loses, repeats or reorders a message of the Redis publisher, and none is given
-- up but while it closes (redismq/pub.go).
use mathlib.Core.Path.{subst}
use kmq_utils.Prelude.{
  ℕ, ◌<◌, ◌≡◌, refl, sym, ap, ◌∙◌, ◌⊎◌, inl, inr, Bool, Bool-cases, true, false, max, ◌/◌, some,
  none, Option, pick, List, [], ◌∷◌, ◌++◌, append_assoc, arith,
}
use kmq_utils.RingBuffer.{RingBuffer, Laws}
use kmq_utils.Redis.Config.{RedisConfig}
use kmq_utils.Redis.Publisher.{
  RedisMessage, Stage, idle, looping, pinging, reading, returned, trying, failing, RedisPub, Event,
  publish, publish_message, enter, start, turn, close, release, new_pub, fresh, put, publish_msg,
  enter_as, enter_publish, begin_batch, read_step, try_step, again_step, connect_step, turn_as,
  start_as, release_pub, step, run, default_batch_size,
}

abbrev pub in_hand : Stage → List RedisMessage
in_hand (trying ms k) = ms
in_hand (failing ms k) = ms
in_hand _ = []

abbrev pub retries : Stage → ℕ
retries (trying ms k) = k
retries (failing ms k) = k
retries _ = 0

pub record Inv {B : RingBuffer RedisMessage} (s : RedisPub B) : Type 0 where
  pub account : s.accepted ≡ s.settled ++ (in_hand s.stage ++ B.contents s.queue)
  pub few : retries s.stage < 3
  pub kept : s.draining ≡ false → s.dropped ≡ []

module _ {B : RingBuffer RedisMessage} (L : Laws B) where
  put-Inv :
      (m : RedisMessage) (r : Bool × B.Buf) (s : RedisPub B)
      → B.enqueue m s.queue ≡ r
      → Inv s
      → Inv (put m r s).1
  unfolding put
  put-Inv m (true, q) s e v = record {
    account =
        ap (λ xs. xs ++ m ∷ []) v.account
        ∙ append_assoc s.settled (in_hand s.stage ++ B.contents s.queue) (m ∷ [])
        ∙ ap (λ xs. s.settled ++ xs) (append_assoc (in_hand s.stage) (B.contents s.queue) (m ∷ []))
        ∙ ap (λ xs. s.settled ++ (in_hand s.stage ++ xs))
            (sym (L.accepted m s.queue (ap (λ x. x.0) e)) ∙ ap (λ x. B.contents x.1) e);
    few = v.few;
    kept = v.kept;
  }
  put-Inv m (false, q) s e v = record {
    account =
        v.account
        ∙ ap (λ b. s.settled ++ (in_hand s.stage ++ B.contents b))
            (sym (L.refused m s.queue (ap (λ x. x.0) e)) ∙ ap (λ x. x.1) e);
    few = v.few;
    kept = v.kept;
  }

  publish_msg-Inv : (m : RedisMessage) (s : RedisPub B) → Inv s → Inv (publish_msg m s).1
  unfolding publish_msg
  publish_msg-Inv m s v = ground (arith, v.account, v.few, v.kept)

  enter_as-Inv :
      (o : Option (RedisMessage × List RedisMessage)) (s : RedisPub B)
      → Inv s
      → Inv (enter_as o s).1
  unfolding enter_as
  enter_as-Inv none s v = v
  enter_as-Inv (some (m, others)) s v =
      put-Inv m (B.enqueue m s.queue) (record s { entering = others }) refl
        (record { account = v.account; few = v.few; kept = v.kept })

  batch_of :
      (n : ℕ) (r : List RedisMessage × B.Buf) (s : RedisPub B)
      → B.dequeue_to n s.queue ≡ r
      → in_hand s.stage ≡ []
      → Inv s
      → s.accepted ≡ s.settled ++ (r.0 ++ B.contents r.1)
  batch_of n r s e h v =
      v.account
      ∙ ap (λ xs. s.settled ++ (xs ++ B.contents s.queue)) h
      ∙ ap (λ xs. s.settled ++ xs) (L.split n s.queue ∙ ap (λ x. x.0 ++ B.contents x.1) e)

  begin_batch-Inv :
      (n : ℕ) (x : Stage) (r : List RedisMessage × B.Buf) (s : RedisPub B)
      → B.dequeue_to n s.queue ≡ r
      → in_hand s.stage ≡ []
      → in_hand x ≡ []
      → retries x ≡ 0
      → Inv s
      → Inv (begin_batch x r s)
  unfolding begin_batch
  begin_batch-Inv n x ([], q) s e h i j v = record {
    account = batch_of n ([], q) s e h v ∙ sym (ap (λ xs. s.settled ++ (xs ++ B.contents q)) i);
    few = omega (arith, j);
    kept = v.kept;
  }
  begin_batch-Inv n x (m ∷ ms, q) s e h i j v = record {
    account = batch_of n (m ∷ ms, q) s e h v;
    few = omega arith;
    kept = v.kept;
  }

  staged :
      (x : Stage) (s : RedisPub B)
      → in_hand x ≡ in_hand s.stage
      → retries x < 3
      → Inv s
      → Inv (record s { stage = x })
  staged x s e f v = record {
    account = v.account ∙ sym (ap (λ xs. s.settled ++ (xs ++ B.contents s.queue)) e);
    few = f;
    kept = v.kept;
  }

  read_step-Inv : (s : RedisPub B) → s.stage ≡ reading → Inv s → Inv (read_step s)
  unfolding read_step
  read_step-Inv s e v = ground (
    arith,
    e,
    begin_batch-Inv s.buffer_size looping (B.dequeue_to s.buffer_size s.queue) s refl (ap in_hand e)
        refl refl v,
    begin_batch-Inv (max (s.buffer_size / 4) default_batch_size) looping
        (B.dequeue_to (max (s.buffer_size / 4) default_batch_size) s.queue) s refl (ap in_hand e)
        refl refl v,
    begin_batch-Inv (max (s.buffer_size / 4) default_batch_size) reading
        (B.dequeue_to (max (s.buffer_size / 4) default_batch_size) s.queue) s refl (ap in_hand e)
        refl refl v,
    staged looping s (sym (ap in_hand e)) (omega arith) v,
  )

  settle_batch :
      (ms : List RedisMessage) (s : RedisPub B)
      → in_hand s.stage ≡ ms
      → Inv s
      → s.accepted ≡ (s.settled ++ ms) ++ B.contents s.queue
  settle_batch ms s e v =
      v.account
      ∙ ap (λ xs. s.settled ++ (xs ++ B.contents s.queue)) e
      ∙ sym (append_assoc s.settled ms (B.contents s.queue))

  try_step-Inv :
      (ms : List RedisMessage) (k : ℕ) (a : Bool) (s : RedisPub B)
      → s.stage ≡ trying ms k
      → Inv s
      → Inv (try_step ms k a s)
  unfolding try_step
  try_step-Inv ms k true s e v = record {
    account = settle_batch ms s (ap in_hand e) v;
    few = omega arith;
    kept = v.kept;
  }
  try_step-Inv ms k false s e v = ground (
    arith,
    v.account,
    v.few,
    v.kept,
    ap in_hand e,
    ap retries e,
    staged (failing ms k) s (sym (ap in_hand e)) (omega (arith, v.few, ap retries e)) v,
  )

  again_step-Inv :
      (ms : List RedisMessage) (k : ℕ) (s : RedisPub B)
      → s.stage ≡ failing ms k
      → Inv s
      → Inv (again_step ms k s)
  unfolding again_step
  again_step-Inv ms k s e v = ground (
    arith,
    v.account,
    v.few,
    v.kept,
    ap in_hand e,
    ap retries e,
    settle_batch ms s (ap in_hand e) v,
  )

  connect_step-Inv :
      (a : Bool) (s : RedisPub B) → s.stage ≡ pinging → Inv s → Inv (connect_step a s)
  unfolding connect_step
  connect_step-Inv true s e v = record {
    account = v.account ∙ ap (λ x. s.settled ++ (in_hand x ++ B.contents s.queue)) e;
    few = omega arith;
    kept = v.kept;
  }
  connect_step-Inv false s e v = record {
    account = v.account ∙ ap (λ x. s.settled ++ (in_hand x ++ B.contents s.queue)) e;
    few = omega arith;
    kept = v.kept;
  }

  turn_as-Inv : (x : Stage) (a : Bool) (s : RedisPub B) → s.stage ≡ x → Inv s → Inv (turn_as x a s)
  unfolding turn_as
  turn_as-Inv idle a s e v = v
  turn_as-Inv looping a s e v = ground (
    arith,
    v,
    staged returned s (sym (ap in_hand e)) (omega arith) v,
    staged pinging s (sym (ap in_hand e)) (omega arith) v,
  )
  turn_as-Inv pinging a s e v = connect_step-Inv a s e v
  turn_as-Inv reading a s e v = read_step-Inv s e v
  turn_as-Inv (trying ms k) a s e v = try_step-Inv ms k a s e v
  turn_as-Inv (failing ms k) a s e v = again_step-Inv ms k s e v
  turn_as-Inv returned a s e v = v

  start_as-Inv : (x : Stage) (s : RedisPub B) → s.stage ≡ x → Inv s → Inv (start_as x s)
  unfolding start_as
  start_as-Inv idle s e v = staged looping s (sym (ap in_hand e)) (omega arith) v
  start_as-Inv _ s e v = v

  release_pub-Inv : (s : RedisPub B) → Inv s → Inv (release_pub s)
  unfolding release_pub
  release_pub-Inv s v = ground (arith, v.account, v.few, v.kept, L.close_keeps s.queue)

  pub step-Inv : (s : RedisPub B) (e : Event) → Inv s → Inv (step s e)
  unfolding step enter_publish
  step-Inv s (publish m) v = publish_msg-Inv m s v
  step-Inv s (publish_message topic message) v =
      publish_msg-Inv (record { topic = topic; message = message }) s v
  step-Inv s (enter n) v = enter_as-Inv (pick n s.entering) s v
  step-Inv s start v = start_as-Inv s.stage s refl v
  step-Inv s (turn a) v = turn_as-Inv s.stage a s refl v
  step-Inv s close v = record { account = v.account; few = v.few; kept = λ h. cc }
  step-Inv s release v = release_pub-Inv s v

  pub run-Inv : (s : RedisPub B) (es : List Event) → Inv s → Inv (run s es)
  unfolding run
  run-Inv s [] v = v
  run-Inv s (e ∷ es) v = run-Inv (step s e) es (step-Inv s e v)

  pub new_pub-Inv :
      (q : B.Buf) (size : ℕ) (conf : RedisConfig) (s : RedisPub B)
      → new_pub (some q) size conf ≡ inr s
      → B.contents q ≡ []
      → Inv s
  unfolding new_pub fresh
  new_pub-Inv q size conf s h e =
      let same : fresh q size conf ≡ s = ground (arith, h) in
      subst Inv same (record { account = sym e; few = omega arith; kept = λ d. refl })

  -- Whatever the application, the server and the goroutine do, in any order, from a new publisher: the
  -- messages that Publish took are those of the batches that the goroutine is done with, then those of
  -- its batch in hand, then those in the queue, in the order of acceptance; it never begins a fourth
  -- attempt while closing; and it gives up no message before Close.
  pub redis_accounts :
      (q : B.Buf) (size : ℕ) (conf : RedisConfig) (s : RedisPub B) (es : List Event)
      → new_pub (some q) size conf ≡ inr s
      → B.contents q ≡ []
      → let t = run s es in
        (t.accepted ≡ t.settled ++ (in_hand t.stage ++ B.contents t.queue))
        × (retries t.stage < 3)
        × ((t.draining ≡ true) ⊎ (t.dropped ≡ []))
  redis_accounts q size conf s es h e =
      let v = run-Inv s es (new_pub-Inv q size conf s h e) in
      (
        v.account,
        v.few,
        elim (Bool-cases (run s es).draining) [ inl d ↦ inl d | inr d ↦ inr (v.kept d) ],
      )
