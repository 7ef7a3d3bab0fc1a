-- ===== src/Kafka/Consumer/Keeps.antt =====
-- What no event takes back from the Kafka consumer (kafkamq/sub.go): Setup works once, and a worker
-- that has stopped hands on nothing.
use kmq_utils.Prelude.{ℕ, ◌≡◌, refl, ◌∙◌, Bool, true, false, String, List, [], ◌∷◌, arith}
use kmq_utils.Prelude.Int.{ℤ}
use kmq_utils.RingBuffer.{RingBuffer}
use kmq_utils.Kafka.Producer.{KafkaMessage}
use kmq_utils.Kafka.Session.{Stand, cleared}
use kmq_utils.Kafka.Consumer.{
  Worker, absent, stopped, empty_handed, holding, Phase, fresh, blocked, pausing, closed_group,
  closed_queue, ConsumerGroup, Event, subscribe, setup, receive, look, enter, mark, consume_returns,
  work, wake, close_group, close_queue, leave, close, release, ack, cancel, subscribe_as, set_up,
  started_worker, put_claim, entered_or, enter_as, enter_one, work_as, work_step, wake_as,
  close_group_as, close_queue_as, leave_as, release_up, step, run,
}

started : (w : Worker) → w ≡ stopped → started_worker w ≡ stopped
unfolding started_worker
started absent h = cc
started stopped h = refl
started empty_handed h = cc
started (holding ms) h = cc

module _ {B : RingBuffer KafkaMessage} where
  pub record Keeps (s t : ConsumerGroup B) : Type 0 where
    pub topics : t.topics ≡ s.topics
    pub resets : s.setup_done ≡ true → (t.setup_done ≡ true) × (t.resets ≡ s.resets)
    pub handled : s.worker ≡ stopped → (t.worker ≡ stopped) × (t.handled ≡ s.handled)
    pub context : s.ctx_done ≡ true → t.ctx_done ≡ true

  -- No field that matters here has changed.
  alike :
      (s t : ConsumerGroup B)
      → t.topics ≡ s.topics
      → t.setup_done ≡ s.setup_done
      → t.resets ≡ s.resets
      → t.worker ≡ s.worker
      → t.handled ≡ s.handled
      → t.ctx_done ≡ s.ctx_done
      → Keeps s t
  alike s t a b c d e f = record {
    topics = a;
    resets = λ h. (b ∙ h, c);
    handled = λ h. (d ∙ h, e);
    context = λ h. f ∙ h;
  }

  same : (s : ConsumerGroup B) → Keeps s s
  same s = alike s s refl refl refl refl refl refl

  subscribe_as-Keeps : (p : Phase) (s : ConsumerGroup B) → Keeps s (subscribe_as p s)
  unfolding subscribe_as
  subscribe_as-Keeps fresh s = record {
    topics = refl;
    resets = λ h. (h, refl);
    handled = λ h. (started s.worker h, refl);
    context = λ h. h;
  }
  subscribe_as-Keeps _ s = same s

  entered_or-Keeps :
      (m : KafkaMessage) (id : ℕ) (s : ConsumerGroup B) (r : Bool × B.Buf)
      → Keeps s (entered_or m id (s.claims id) r s)
  unfolding entered_or put_claim
  entered_or-Keeps m id s (true, q) = alike s _ refl refl refl refl refl refl
  entered_or-Keeps m id s (false, q) = alike s _ refl refl refl refl refl refl

  enter_as-Keeps : (t : Stand) (id : ℕ) (s : ConsumerGroup B) → Keeps s (enter_as t id s)
  unfolding enter_as
  enter_as-Keeps (cleared m) id s = entered_or-Keeps m id s (B.enqueue m s.queue)
  enter_as-Keeps _ id s = same s

  work_as-Keeps : (w : Worker) (s : ConsumerGroup B) → s.worker ≡ w → Keeps s (work_as w s)
  unfolding work_as
  work_as-Keeps absent s e = same s
  work_as-Keeps stopped s e = same s
  work_as-Keeps empty_handed s e = record {
    topics = refl;
    resets = λ h. (h, refl);
    handled = λ h. cc;
    context = λ h. h;
  }
  work_as-Keeps (holding []) s e = record {
    topics = refl;
    resets = λ h. (h, refl);
    handled = λ h. cc;
    context = λ h. h;
  }
  work_as-Keeps (holding (m ∷ ms)) s e = record {
    topics = refl;
    resets = λ h. (h, refl);
    handled = λ h. cc;
    context = λ h. h;
  }

  wake_as-Keeps : (p : Phase) (s : ConsumerGroup B) → Keeps s (wake_as p s)
  unfolding wake_as
  wake_as-Keeps blocked s =
      alike s _ (ground arith) (ground arith) (ground arith) (ground arith) (ground arith)
        (ground arith)
  wake_as-Keeps _ s = same s

  close_group_as-Keeps : (p : Phase) (s : ConsumerGroup B) → Keeps s (close_group_as p s)
  unfolding close_group_as
  close_group_as-Keeps pausing s = alike s _ refl refl refl refl refl refl
  close_group_as-Keeps _ s = same s

  close_queue_as-Keeps : (p : Phase) (s : ConsumerGroup B) → Keeps s (close_queue_as p s)
  unfolding close_queue_as
  close_queue_as-Keeps closed_group s = alike s _ refl refl refl refl refl refl
  close_queue_as-Keeps _ s = same s

  leave_as-Keeps : (p : Phase) (s : ConsumerGroup B) → Keeps s (leave_as p s)
  unfolding leave_as
  leave_as-Keeps closed_queue s =
      alike s _ (ground arith) (ground arith) (ground arith) (ground arith) (ground arith)
        (ground arith)
  leave_as-Keeps _ s = same s

  set_up-Keeps : (cs : List (String × List ℤ)) (s : ConsumerGroup B) → Keeps s (set_up cs s)
  unfolding set_up
  set_up-Keeps cs s = record {
    topics = ground arith;
    resets = λ h. ground (arith, h);
    handled = λ h. ground (arith, h);
    context = λ h. ground (arith, h);
  }

  pub step-Keeps : (s : ConsumerGroup B) (e : Event) → Keeps s (step s e)
  unfolding step put_claim enter_one work_step release_up
  step-Keeps s subscribe = subscribe_as-Keeps s.phase s
  step-Keeps s (setup claimed) = set_up-Keeps claimed s
  step-Keeps s (receive id m) = alike s _ refl refl refl refl refl refl
  step-Keeps s (look id session) = alike s _ refl refl refl refl refl refl
  step-Keeps s (enter id) = enter_as-Keeps (s.claims id).stand id s
  step-Keeps s (mark id) = alike s _ refl refl refl refl refl refl
  step-Keeps s consume_returns =
      alike s _ (ground arith) (ground arith) (ground arith) (ground arith) (ground arith)
        (ground arith)
  step-Keeps s work = work_as-Keeps s.worker s refl
  step-Keeps s wake = wake_as-Keeps s.phase s
  step-Keeps s close_group = close_group_as-Keeps s.phase s
  step-Keeps s close_queue = close_queue_as-Keeps s.phase s
  step-Keeps s leave = leave_as-Keeps s.phase s
  step-Keeps s close = record {
    topics = refl;
    resets = λ h. (h, refl);
    handled = λ h. (h, refl);
    context = λ h. refl;
  }
  step-Keeps s release =
      alike s _ (ground arith) (ground arith) (ground arith) (ground arith) (ground arith)
        (ground arith)
  step-Keeps s (ack m) = alike s _ refl refl refl refl refl refl
  step-Keeps s cancel = record {
    topics = refl;
    resets = λ h. (h, refl);
    handled = λ h. (h, refl);
    context = λ h. refl;
  }

  onward : (s t u : ConsumerGroup B) → Keeps s t → Keeps t u → Keeps s u
  onward s t u v w = record {
    topics = w.topics ∙ v.topics;
    resets = λ h. let x = v.resets h in let y = w.resets x.0 in (y.0, y.1 ∙ x.1);
    handled = λ h. let x = v.handled h in let y = w.handled x.0 in (y.0, y.1 ∙ x.1);
    context = λ h. w.context (v.context h);
  }

  pub run-Keeps : (s : ConsumerGroup B) (es : List Event) → Keeps s (run s es)
  unfolding run
  run-Keeps s [] = same s
  run-Keeps s (e ∷ es) =
      onward s (step s e) (run (step s e) es) (step-Keeps s e) (run-Keeps (step s e) es)
