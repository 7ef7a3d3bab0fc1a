-- ===== src/Rocket/Producer/Drained.antt =====
-- Closing the RocketMQ producer over a working link sends every accepted message, and its callbacks.
use kmq_utils.Prelude.{
  ℕ, zero, suc, ◌≤◌, ◌≡◌, refl, Bool, true, false, List, [], ◌∷◌, arith, replicate,
}
use kmq_utils.RingBuffer.{RingBuffer, Laws}
use kmq_utils.Pump.{give_up, stopped, delivered, works, seal}
use kmq_utils.Pump.Conserved.{seal-Conserved}
use kmq_utils.Pump.Drained.{IsReady, IsReady-of_give_up, budget, budget-seal, works-sent}
use kmq_utils.Rocket.Producer.{
  RocketMessage, Producer, Route, send_sync, send_async, Event, send, close, close_up, route,
  try_send, after_failure, errors_after, send_step, step, run,
}
use kmq_utils.Rocket.Producer.Conserved.{Inv}

-- The library takes synchronous calls and refuses the others.
abbrev pub sync_only : Route → Bool
sync_only send_sync = true
sync_only send_async = false

module _ {B : RingBuffer RocketMessage} where
  errors_sync : (s : Producer B) → s.draining ≡ true → errors_after s sync_only ≡ s.error_calls
  unfolding errors_after route
  errors_sync s d = rw d (ground arith)

  try_sync : (s : Producer B) → s.draining ≡ true → try_send s sync_only ≡ delivered
  unfolding try_send route
  try_sync s d = rw d refl

  -- While draining so many steps of the loop are as many of the pump.
  run-sends :
      (n : ℕ) (s : Producer B)
      → s.draining ≡ true
      → run s (replicate n (send sync_only))
        ≡ record s { pump = works n s.queue_size delivered (after_failure s) s.pump }
  unfolding run step send_step works after_failure
  run-sends zero s h = refl
  run-sends (suc n) s h =
      rw (run-sends n (send_step s sync_only) h, try_sync s h, errors_sync s h) refl

  closing : Producer B → Producer B
  closing s = record s { draining = true; pump = seal s.pump }

  run-closing :
      (s : Producer B) (es : List Event)
      → s.draining ≡ false
      → run s (close ∷ es) ≡ run (closing s) es
  unfolding run step close_up closing
  run-closing s es d = rw d refl

  IsReady-closing :
      (s : Producer B)
      → IsReady (λ e. give_up) s.pump.phase
      → IsReady (after_failure (closing s)) (seal s.pump).phase
  unfolding closing after_failure seal
  IsReady-closing s r = IsReady-of_give_up (after_failure (closing s)) s.pump.phase r

-- From any state that a schedule reaches, in which the loop of Start runs and is between two
-- attempts, and Close was not called: Close, then as many attempts as the budget of the loop says,
-- with a library that takes the synchronous calls and refuses the others, and the loop has returned,
-- what went out is all that Publish took, in that order, and OnError was not called.
pub rocket_close_drains :
    {B : RingBuffer RocketMessage} (L : Laws B) (s : Producer B) (n : ℕ)
    → Inv s
    → s.draining ≡ false
    → IsReady (λ e. give_up) s.pump.phase
    → budget s.pump ≤ n
    → let t = run s (close ∷ replicate n (send sync_only)) in
      (t.pump.phase ≡ stopped [])
      × (t.pump.sent ≡ s.pump.accepted)
      × (t.error_calls ≡ s.error_calls)
unfolding closing seal
rocket_close_drains L s n v d r b =
    let done =
      works-sent L s.queue_size n (after_failure (closing s)) (seal s.pump) v.room
        (seal-Conserved L s.pump v.conserved) (IsReady-closing s r) (L.close_closes s.pump.queue)
        (omega (arith, budget-seal L s.pump)) in
    rw (run-closing s (replicate n (send sync_only)) d, run-sends n (closing s) refl)
      (done.0, done.1, refl)
