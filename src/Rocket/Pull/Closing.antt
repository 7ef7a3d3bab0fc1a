-- ===== src/Rocket/Pull/Closing.antt =====
-- What the pull consumer does with the messages it took, in every schedule and behind Close.
use kmq_utils.Prelude.{
  pick, ◌≡◌, refl, ap, ◌∙◌, inl, inr, Bool, true, false, String, ℕ, List, [], ◌∷◌, ◌++◌, some,
  arith, Option, none, Option-cases, ◌≤◌, replicate,
}
use kmq_utils.RingBuffer.{RingBuffer, Laws}
use kmq_utils.Rocket.Config.{Config}
use kmq_utils.Rocket.Options.{ConsumerOption}
use kmq_utils.Rocket.Inbox.{
  Message, drain, shut, Conserved, new-Conserved, Greedy, put_in-Conserved, take_one-Conserved,
  drain-Conserved, shut-Conserved, drain-all,
}
use kmq_utils.Rocket.Pull.{
  PullConsumer, Response, Stored, both, update_failed, persist_failed, Event, pull_once, look,
  store, subscribe, poll, finish, ack, close, go_on, cancel, subscriptions, polling, returned,
  Closer, uncalled, flagged, cancelled, unsubscribed, queue_closed, down, ended, new_consumer,
  on_pull, look_as, on_look, store_as, on_store, pull, poll_once, leave, ack_message, close_up,
  close_as, close_next, step, run,
}

module _ {B : RingBuffer Message} where
  -- What has come of the consumer s once Close and SyncSubscribe have returned.
  pub record Finished (s t : PullConsumer B) : Type 0 where
    pub closer : t.closer ≡ ended
    pub stage : t.stage ≡ returned
    pub handled : t.inbox.handled ≡ s.inbox.accepted
    pub blanks : t.inbox.blanks ≡ s.inbox.blanks

module _ {B : RingBuffer Message} (L : Laws B) where
  on_pull-Conserved :
      (r : Response) (s : PullConsumer B) → Conserved s.inbox → Conserved (on_pull r s).inbox
  unfolding on_pull
  on_pull-Conserved r s v = elim (Option-cases (pull r)) [
    | inl e ↦ rw (e, on_pull) (ground (arith, v))
    | inr (p, e) ↦ rw (e, on_pull) (ground (arith, v))
  ]

  look_as-Conserved :
      (o : Option ((Bool × List Message) × List (Bool × List Message))) (n : ℕ) (s : PullConsumer B)
      → Conserved s.inbox
      → Conserved (look_as o n s).inbox
  unfolding look_as
  look_as-Conserved none n s v = v
  look_as-Conserved (some ((true, ms), others)) n s v = v
  look_as-Conserved (some ((false, []), others)) n s v = v
  look_as-Conserved (some ((false, m ∷ ms), others)) n s v = v

  store_as-Conserved :
      (o : Option ((Bool × List Message) × List (Bool × List Message))) (n : ℕ) (s : PullConsumer B)
      → Conserved s.inbox
      → Conserved (store_as o n s).inbox
  unfolding store_as
  store_as-Conserved none n s v = v
  store_as-Conserved (some ((true, []), others)) n s v = v
  store_as-Conserved (some ((true, m ∷ ms), others)) n s v = put_in-Conserved L m s.inbox v
  store_as-Conserved (some ((false, ms), others)) n s v = v

  close_as-Conserved :
      (c : Closer) (s : PullConsumer B) → Conserved s.inbox → Conserved (close_as c s).inbox
  unfolding close_as
  close_as-Conserved unsubscribed s v = shut-Conserved L s.inbox v
  close_as-Conserved down s v = ground (arith, v)
  close_as-Conserved uncalled s v = v
  close_as-Conserved flagged s v = v
  close_as-Conserved cancelled s v = v
  close_as-Conserved queue_closed s v = v
  close_as-Conserved ended s v = v

  poll_once-Conserved :
      (b : Bool) (s : PullConsumer B) → Conserved s.inbox → Conserved (poll_once b s).inbox
  unfolding poll_once
  poll_once-Conserved b s v = ground (arith, v, take_one-Conserved L s.inbox v)

  leave-Conserved : (s : PullConsumer B) → Conserved s.inbox → Conserved (leave s).inbox
  unfolding leave
  leave-Conserved s v = ground (arith, v, drain-Conserved L s.inbox v)

  ack-Conserved :
      (m : Message) (a : Stored) (s : PullConsumer B)
      → Conserved s.inbox
      → Conserved (ack_message m a s).1.inbox
  unfolding ack_message
  ack-Conserved m both s v = v
  ack-Conserved m update_failed s v = v
  ack-Conserved m persist_failed s v = v

  step-Conserved : (s : PullConsumer B) (e : Event) → Conserved s.inbox → Conserved (step s e).inbox
  unfolding step on_look on_store close_up close_next
  step-Conserved s (pull_once r) v = on_pull-Conserved r s v
  step-Conserved s (look n) v = look_as-Conserved (pick n s.pulled) n s v
  step-Conserved s (store n) v = store_as-Conserved (pick n s.pulled) n s v
  step-Conserved s subscribe v = v
  step-Conserved s (poll b) v = poll_once-Conserved b s v
  step-Conserved s finish v = leave-Conserved s v
  step-Conserved s (ack m a) v = ack-Conserved m a s v
  step-Conserved s close v = ground (arith, v)
  step-Conserved s go_on v = close_as-Conserved s.closer s v
  step-Conserved s cancel v = v

  run-Conserved :
      (s : PullConsumer B) (es : List Event) → Conserved s.inbox → Conserved (run s es).inbox
  unfolding run
  run-Conserved s [] v = v
  run-Conserved s (e ∷ es) v = run-Conserved (step s e) es (step-Conserved s e v)

  new_consumer-Conserved :
      (addresses : List String → Bool) (library : List ConsumerOption → Bool) (q : B.Buf)
      (answer : String → Bool) (conf : Config) {s : PullConsumer B}
      → new_consumer addresses library (some q) answer conf ≡ inr s
      → B.contents q ≡ []
      → Conserved s.inbox
  unfolding new_consumer
  new_consumer-Conserved addresses library q answer conf h e =
      ground (arith, new-Conserved {B = B} q e)

  -- Whatever the library, the application and the goroutines do, in any order, from a new pull
  -- consumer on which SyncSubscribe is called once at most: the messages that its queue took are those given to the handler, each once and in the
  -- order in which they were put in, followed by those in the queue.
  pub pull_accounts :
      (addresses : List String → Bool) (library : List ConsumerOption → Bool) (q : B.Buf)
      (answer : String → Bool) (conf : Config) (s : PullConsumer B) (es : List Event)
      → new_consumer addresses library (some q) answer conf ≡ inr s
      → B.contents q ≡ []
      → subscriptions es ≤ 1
      → let t = run s es in t.inbox.accepted ≡ t.inbox.handled ++ B.contents t.inbox.queue
  pull_accounts addresses library q answer conf s es h e one =
      (run-Conserved s es (new_consumer-Conserved addresses library q answer conf h e)).account

  -- The whole of Close, and then the rest of SyncSubscribe.
  shut_first :
      (s : PullConsumer B)
      → s.draining ≡ false
      → s.stage ≡ polling
      → let t = run s (close ∷ replicate 4 go_on ++ poll false ∷ finish ∷ go_on ∷ []) in
        (t.closer ≡ ended) × (t.stage ≡ returned) × (t.inbox ≡ drain (shut s.inbox))
  unfolding run step close_up close_next close_as poll_once leave
  shut_first s d st = rw (d, st) (refl, refl, refl)

  left_first :
      (s : PullConsumer B)
      → s.draining ≡ false
      → s.stage ≡ polling
      → let t = run s (close ∷ go_on ∷ poll false ∷ finish ∷ replicate 4 go_on) in
        (t.closer ≡ ended) × (t.stage ≡ returned) × (t.inbox ≡ shut (drain s.inbox))
  unfolding run step close_up close_next close_as poll_once leave
  left_first s d st = rw (d, st) (refl, refl, refl)

  -- From any state that a schedule reaches, in which SyncSubscribe is in its loop and Close was not
  -- called, with a queue whose batch is as large as what was asked for, and where no goroutine puts a
  -- message in during Close: whether SyncSubscribe finds its context done and drains behind all steps
  -- of Close up to Shutdown or between ctx.Cancel and the others, both return, the handler was given
  -- all that the queue took, in that order, and was given no zero message since.
  pub pull_close_drains :
      Greedy B
      → (s : PullConsumer B) → Conserved s.inbox
      → s.draining ≡ false
      → s.stage ≡ polling
      → Finished s (run s (close ∷ replicate 4 go_on ++ poll false ∷ finish ∷ go_on ∷ []))
        × Finished s (run s (close ∷ go_on ∷ poll false ∷ finish ∷ replicate 4 go_on))
  unfolding shut
  pull_close_drains g s v d st =
      let a = shut_first s d st in
      let b = left_first s d st in
      let late = drain-all L g (shut s.inbox) (shut-Conserved L s.inbox v) in
      let early = drain-all L g s.inbox v in
      (
        record {
          closer = a.0;
          stage = a.1;
          handled = ap (λ i. i.handled) a.2 ∙ late.0;
          blanks = ap (λ i. i.blanks) a.2 ∙ late.1;
        },
        record {
          closer = b.0;
          stage = b.1;
          handled = ap (λ i. i.handled) b.2 ∙ early.0;
          blanks = ap (λ i. i.blanks) b.2 ∙ early.1;
        },
      )
