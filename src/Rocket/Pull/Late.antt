-- ===== src/Rocket/Pull/Late.antt =====
-- A message of the pull consumer that the queue takes behind the drain of SyncSubscribe
-- (rocketmq/sub.go, the pulling goroutine, SyncSubscribe and Close).
use kmq_utils.Prelude.{
  pick, ℕ, ◌≡◌, refl, ap, ◌∙◌, Bool, true, false, Option, none, some, List, [], ◌∷◌, ◌++◌, arith,
  replicate, inl, inr, Option-cases,
}
use kmq_utils.RingBuffer.{RingBuffer, Laws}
use kmq_utils.Rocket.Inbox.{Message, Inbox, put_in, drain, shut, Conserved, Greedy, drain-all}
use kmq_utils.Rocket.Pull.{
  PullConsumer, both, update_failed, persist_failed, Event, pull_once, look, store, subscribe, poll,
  finish, ack, close, go_on, cancel, subscriptions, polling, returned, Closer, uncalled, flagged,
  cancelled, unsubscribed, queue_closed, down, ended, Response, on_pull, look_as, on_look, store_as,
  on_store, pull, poll_once, leave, ack_message, close_up, close_as, close_next, step, run,
}

-- SyncSubscribe drains and returns, a goroutine puts a message in, and Close goes on.
abbrev pub late_schedule : ℕ → List Event
late_schedule n = close ∷ go_on ∷ poll false ∷ finish ∷ store n ∷ replicate 4 go_on

module _ {B : RingBuffer Message} where
  -- SyncSubscribe has returned, and the handler is given nothing by this move.
  record Quiet (s t : PullConsumer B) : Type 0 where
    stage : t.stage ≡ returned
    handled : t.inbox.handled ≡ s.inbox.handled

  look_as-Quiet :
      (o : Option ((Bool × List Message) × List (Bool × List Message))) (n : ℕ) (s : PullConsumer B)
      → s.stage ≡ returned
      → Quiet s (look_as o n s)
  unfolding look_as
  look_as-Quiet none n s h = record { stage = h; handled = refl }
  look_as-Quiet (some ((true, ms), others)) n s h = record { stage = h; handled = refl }
  look_as-Quiet (some ((false, []), others)) n s h = record { stage = h; handled = refl }
  look_as-Quiet (some ((false, m ∷ ms), others)) n s h = record { stage = h; handled = refl }

  store_as-Quiet :
      (o : Option ((Bool × List Message) × List (Bool × List Message))) (n : ℕ) (s : PullConsumer B)
      → s.stage ≡ returned
      → Quiet s (store_as o n s)
  unfolding store_as put_in
  store_as-Quiet none n s h = record { stage = h; handled = refl }
  store_as-Quiet (some ((true, []), others)) n s h = record { stage = h; handled = refl }
  store_as-Quiet (some ((true, m ∷ ms), others)) n s h = record {
    stage = h;
    handled = ground arith;
  }
  store_as-Quiet (some ((false, ms), others)) n s h = record { stage = h; handled = refl }

  close_as-Quiet : (c : Closer) (s : PullConsumer B) → s.stage ≡ returned → Quiet s (close_as c s)
  unfolding close_as shut
  close_as-Quiet down s h = record { stage = ground (arith, h); handled = ground arith }
  close_as-Quiet uncalled s h = record { stage = h; handled = refl }
  close_as-Quiet flagged s h = record { stage = h; handled = refl }
  close_as-Quiet cancelled s h = record { stage = h; handled = refl }
  close_as-Quiet unsubscribed s h = record { stage = h; handled = refl }
  close_as-Quiet queue_closed s h = record { stage = h; handled = refl }
  close_as-Quiet ended s h = record { stage = h; handled = refl }

  on_pull-Quiet : (r : Response) (s : PullConsumer B) → s.stage ≡ returned → Quiet s (on_pull r s)
  unfolding on_pull
  on_pull-Quiet r s h = elim (Option-cases (pull r)) [
    | inl e ↦ rw (e, on_pull) (record { stage = ground (arith, h); handled = ground arith })
    | inr (p, e) ↦ rw (e, on_pull) (record { stage = ground (arith, h); handled = ground arith })
  ]

  step-Quiet : (s : PullConsumer B) (e : Event) → s.stage ≡ returned → Quiet s (step s e)
  unfolding step on_look on_store close_next poll_once leave close_up ack_message
  step-Quiet s (pull_once r) h = on_pull-Quiet r s h
  step-Quiet s (look n) h = look_as-Quiet (pick n s.pulled) n s h
  step-Quiet s (store n) h = store_as-Quiet (pick n s.pulled) n s h
  step-Quiet s subscribe h = record { stage = ground (arith, h); handled = refl }
  step-Quiet s (poll b) h = record { stage = ground (arith, h); handled = ground (arith, h) }
  step-Quiet s finish h = record { stage = ground (arith, h); handled = ground (arith, h) }
  step-Quiet s (ack m both) h = record { stage = h; handled = refl }
  step-Quiet s (ack m update_failed) h = record { stage = h; handled = refl }
  step-Quiet s (ack m persist_failed) h = record { stage = h; handled = refl }
  step-Quiet s close h = record { stage = ground (arith, h); handled = ground arith }
  step-Quiet s go_on h = close_as-Quiet s.closer s h
  step-Quiet s cancel h = record { stage = h; handled = refl }

  run-Quiet : (s : PullConsumer B) (es : List Event) → s.stage ≡ returned → Quiet s (run s es)
  unfolding run
  run-Quiet s [] h = record { stage = h; handled = refl }
  run-Quiet s (e ∷ es) h =
      let a = step-Quiet s e h in
      let b = run-Quiet (step s e) es a.stage in
      record { stage = b.stage; handled = b.handled ∙ a.handled }

  overtaken :
      (s : PullConsumer B) (n : ℕ) (m : Message) (ms : List Message)
      (others : List (Bool × List Message))
      → s.draining ≡ false
      → s.stage ≡ polling
      → pick n s.pulled ≡ some ((true, m ∷ ms), others)
      → let t = run s (late_schedule n) in
        (t.closer ≡ ended) × (t.stage ≡ returned) × (t.inbox ≡ shut (put_in m (drain s.inbox)))
  unfolding run step on_store close_up close_next close_as poll_once leave
  overtaken s n m ms others d st e = rw (d, st) (rw (e, store_as) (refl, refl, refl))

  put_in-taken :
      (m : Message) (i : Inbox B)
      → (B.enqueue m i.queue).0 ≡ true
      → ((shut (put_in m i)).accepted ≡ i.accepted ++ m ∷ [])
        × ((shut (put_in m i)).handled ≡ i.handled)
  unfolding put_in shut
  put_in-taken m i h = rw h (refl, refl)

  drain-accepted : (i : Inbox B) → (drain i).accepted ≡ i.accepted
  unfolding drain
  drain-accepted i = refl

-- Where a pulling goroutine has read the flag for m before Close, SyncSubscribe is in its loop, and
-- the queue has room behind its drain: a schedule in which SyncSubscribe drains and returns between
-- ctx.Cancel and queue.Close, and the goroutine puts m in between, leaves Close at its end with m taken
-- by the queue, and the handler given all but m; whatever happens afterwards without another
-- SyncSubscribe, the handler is given nothing more.
pub pull_late_lost :
    {B : RingBuffer Message} (L : Laws B)
    → Greedy B
    → (s : PullConsumer B) (n : ℕ) (m : Message) (ms : List Message)
      (others : List (Bool × List Message)) (es : List Event)
    → Conserved s.inbox
    → s.draining ≡ false
    → s.stage ≡ polling
    → pick n s.pulled ≡ some ((true, m ∷ ms), others)
    → (B.enqueue m (drain s.inbox).queue).0 ≡ true
    → subscriptions es ≡ 0
    → let t = run s (late_schedule n) in
      (t.closer ≡ ended)
      × (t.inbox.accepted ≡ s.inbox.accepted ++ m ∷ [])
      × ((run t es).inbox.handled ≡ s.inbox.accepted)
pull_late_lost L g s n m ms others es v d st e room once =
    let o = overtaken s n m ms others d st e in
    let p = put_in-taken m (drain s.inbox) room in
    let q = run-Quiet (run s (late_schedule n)) es o.1 in
    (
      o.0,
      ap (λ i. i.accepted) o.2 ∙ p.0 ∙ ap (λ xs. xs ++ m ∷ []) (drain-accepted s.inbox),
      q.handled ∙ ap (λ i. i.handled) o.2 ∙ p.1 ∙ (drain-all L g s.inbox v).0,
    )
