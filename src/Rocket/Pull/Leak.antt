-- ===== src/Rocket/Pull/Leak.antt =====
-- Close leaves the pulling goroutines of the pull consumer running.
use kmq_utils.Prelude.{
  pick, ◌≡◌, refl, ◌∙◌, inl, inr, Bool, true, false, ℕ, Option, none, some, List, [], ◌∷◌, arith,
  Option-cases,
}
use kmq_utils.RingBuffer.{RingBuffer}
use kmq_utils.Rocket.Inbox.{Message}
use kmq_utils.Rocket.Pull.{
  PullConsumer, Response, Stored, both, update_failed, persist_failed, Event, pull_once, look,
  store, subscribe, poll, finish, ack, close, go_on, cancel, Closer, uncalled, flagged, cancelled,
  unsubscribed, queue_closed, down, ended, on_pull, look_as, on_look, store_as, on_store, pull,
  poll_once, leave, ack_message, close_up, close_as, close_next, step, run,
}

-- The application does not cancel its context.
abbrev pub NeverCancelled : List Event → Type 0
NeverCancelled [] = Unit {0}
NeverCancelled (cancel ∷ es) = ⊥
NeverCancelled (e ∷ es) = NeverCancelled es

module _ {B : RingBuffer Message} where
  on_pull-keeps : (r : Response) (s : PullConsumer B) → (on_pull r s).loops_done ≡ s.loops_done
  unfolding on_pull
  on_pull-keeps r s = elim (Option-cases (pull r)) [
    | inl e ↦ rw (e, on_pull) (ground arith)
    | inr (p, e) ↦ rw (e, on_pull) (ground arith)
  ]

  look_as-keeps :
      (o : Option ((Bool × List Message) × List (Bool × List Message))) (n : ℕ) (s : PullConsumer B)
      → (look_as o n s).loops_done ≡ s.loops_done
  unfolding look_as
  look_as-keeps none n s = refl
  look_as-keeps (some ((true, ms), others)) n s = refl
  look_as-keeps (some ((false, []), others)) n s = refl
  look_as-keeps (some ((false, m ∷ ms), others)) n s = refl

  store_as-keeps :
      (o : Option ((Bool × List Message) × List (Bool × List Message))) (n : ℕ) (s : PullConsumer B)
      → (store_as o n s).loops_done ≡ s.loops_done
  unfolding store_as
  store_as-keeps none n s = refl
  store_as-keeps (some ((true, []), others)) n s = refl
  store_as-keeps (some ((true, m ∷ ms), others)) n s = refl
  store_as-keeps (some ((false, ms), others)) n s = refl

  close_as-keeps : (c : Closer) (s : PullConsumer B) → (close_as c s).loops_done ≡ s.loops_done
  unfolding close_as
  close_as-keeps down s = ground arith
  close_as-keeps uncalled s = refl
  close_as-keeps flagged s = refl
  close_as-keeps cancelled s = refl
  close_as-keeps unsubscribed s = refl
  close_as-keeps queue_closed s = refl
  close_as-keeps ended s = refl

  other_steps :
      (s : PullConsumer B)
      → ((b : Bool) → (poll_once b s).loops_done ≡ s.loops_done)
        × ((leave s).loops_done ≡ s.loops_done)
        × ((close_up s).loops_done ≡ s.loops_done)
  unfolding poll_once leave close_up
  other_steps s = (λ b. ground arith, ground arith, ground arith)

  ack_message-keeps :
      (m : Message) (a : Stored) (s : PullConsumer B)
      → (ack_message m a s).1.loops_done ≡ s.loops_done
  unfolding ack_message
  ack_message-keeps m both s = refl
  ack_message-keeps m update_failed s = refl
  ack_message-keeps m persist_failed s = refl

  -- In every schedule in which the application does not cancel its context the pulling goroutines are
  -- told to end only if they were before, whatever the calls of Close.
  pub pull_leaks :
      (s : PullConsumer B) (es : List Event)
      → NeverCancelled es
      → (run s es).loops_done ≡ s.loops_done
  unfolding run step on_look on_store close_next
  pull_leaks s [] n = refl
  pull_leaks s (pull_once r ∷ es) n = pull_leaks (on_pull r s) es n ∙ on_pull-keeps r s
  pull_leaks s (look k ∷ es) n = pull_leaks (on_look k s) es n ∙ look_as-keeps (pick k s.pulled) k s
  pull_leaks s (store k ∷ es) n =
      pull_leaks (on_store k s) es n ∙ store_as-keeps (pick k s.pulled) k s
  pull_leaks s (subscribe ∷ es) n = pull_leaks (step s subscribe) es n
  pull_leaks s (poll b ∷ es) n = pull_leaks (poll_once b s) es n ∙ (other_steps s).0 b
  pull_leaks s (finish ∷ es) n = pull_leaks (leave s) es n ∙ (other_steps s).1
  pull_leaks s (ack m a ∷ es) n = pull_leaks (ack_message m a s).1 es n ∙ ack_message-keeps m a s
  pull_leaks s (close ∷ es) n = pull_leaks (close_up s) es n ∙ (other_steps s).2
  pull_leaks s (go_on ∷ es) n = pull_leaks (close_next s) es n ∙ close_as-keeps s.closer s
  pull_leaks s (cancel ∷ es) n = elim n [ ]
