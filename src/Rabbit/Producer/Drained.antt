-- ===== src/Rabbit/Producer/Drained.antt =====
-- Closing the RabbitMQ producer over a working link sends every accepted message.
use kmq_utils.Prelude.{ℕ, zero, suc, ◌≤◌, ◌≡◌, refl, true, false, List, [], ◌∷◌, arith, replicate}
use kmq_utils.RingBuffer.{RingBuffer, Laws}
use kmq_utils.Pump.{give_up, stopped, delivered, works, seal}
use kmq_utils.Pump.Conserved.{seal-Conserved}
use kmq_utils.Pump.Drained.{IsReady, budget, budget-seal, works-sent}
use kmq_utils.Rabbit.Producer.{
  RabbitMessage, Producer, ok, Event, unblock, send, close, unblock_start, close_up, try_send,
  after_failure, send_step, step, run,
}
use kmq_utils.Rabbit.Producer.Conserved.{Inv}

module _ {B : RingBuffer RabbitMessage} where
  -- Over an open link so many steps of the sending goroutine are as many of the pump.
  run-sends :
      (n : ℕ) (s : Producer B)
      → s.open_link ≡ true
      → run s (replicate n (send ok))
        ≡ record s { pump = works n s.queue_size delivered (after_failure s) s.pump }
  unfolding run step send_step works try_send after_failure
  run-sends zero s h = refl
  run-sends (suc n) s h = rw (run-sends n (send_step s ok) h, h)

  pub closing : Producer B → Producer B
  closing s = record s { draining = true; ctx_done = true; pump = seal s.pump }

  run-closing :
      (s : Producer B) (es : List Event)
      → s.started ≡ true
      → s.draining ≡ false
      → run s (close ∷ unblock ∷ es) ≡ run (closing s) es
  unfolding run step close_up unblock_start closing
  run-closing s es st d = rw (d, st)

  IsReady-seal :
      (s : Producer B)
      → IsReady (λ e. give_up) s.pump.phase
      → IsReady (after_failure (closing s)) (seal s.pump).phase
  unfolding closing after_failure seal
  IsReady-seal s r = r

-- From any state that a schedule reaches, in which the producer is started, not closed and between
-- two attempts: Close, then the wake-up of Start, then as many successful attempts as the budget of
-- the goroutine says, and the goroutine has returned, and what went out is all that Publish took,
-- in that order.
pub rabbit_close_drains :
    {B : RingBuffer RabbitMessage} (L : Laws B) (s : Producer B) (n : ℕ)
    → Inv s
    → s.started ≡ true
    → s.draining ≡ false
    → s.open_link ≡ true
    → IsReady (λ e. give_up) s.pump.phase
    → budget s.pump ≤ n
    → let t = run s (close ∷ unblock ∷ replicate n (send ok)) in
      (t.pump.phase ≡ stopped []) × (t.pump.sent ≡ s.pump.accepted)
unfolding closing seal
rabbit_close_drains {B} L s n v st d o r b =
    rw (run-closing s (replicate n (send ok)) st d, run-sends n (closing s) o)
      (works-sent L s.queue_size n (after_failure (closing s)) (seal s.pump) v.room
        (seal-Conserved L s.pump v.conserved) (IsReady-seal s r) (L.close_closes s.pump.queue)
        (omega (arith, budget-seal L s.pump)))
