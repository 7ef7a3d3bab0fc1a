-- ===== src/Mqtt/Client/Drained.antt =====
-- Closing the MQTT client over a working link sends every accepted message.
use kmq_utils.Prelude.{
  ℕ, zero, suc, ◌≤◌, ◌≡◌, refl, ap, ◌∙◌, true, false, String, List, [], ◌∷◌, arith, replicate,
}
use kmq_utils.RingBuffer.{RingBuffer, Laws}
use kmq_utils.KList.{KList}
use kmq_utils.Pump.{stopped, delivered, retry, works, seal}
use kmq_utils.Pump.Conserved.{seal-Conserved}
use kmq_utils.Pump.Drained.{IsReady, IsReady-of_retry, budget, budget-seal, works-sent}
use kmq_utils.Mqtt.Client.{
  MqttMessage, MqttClient, ok, Event, send, close, try_send, after_failure, send_step, close_up,
  step, run,
}
use kmq_utils.Mqtt.Client.Conserved.{Inv}

module _ {B : RingBuffer MqttMessage} {K : KList String} where
  after_failure-retry :
      (s : MqttClient B K) → s.connected ≡ true → (e : Unit {0}) → after_failure s e ≡ retry
  unfolding after_failure
  after_failure-retry s c e = ground arith

  -- Over a working link so many steps of the sending goroutine are as many of the pump.
  run-sends :
      (n : ℕ) (s : MqttClient B K)
      → s.connected ≡ true
      → s.linked ≡ true
      → run s (replicate n (send ok))
        ≡ record s { pump = works n s.queue_size delivered (after_failure s) s.pump }
  unfolding run step send_step works try_send after_failure
  run-sends zero s c l = refl
  run-sends (suc n) s c l = rw (run-sends n (send_step s ok) c l, c, l)

  closing : MqttClient B K → MqttClient B K
  unfolding close_up
  closing s = close_up s

  run-closing : (s : MqttClient B K) (es : List Event) → run s (close ∷ es) ≡ run (closing s) es
  unfolding run step closing
  run-closing s es = refl

  closing_keeps :
      (s : MqttClient B K)
      → s.draining ≡ false
      → ((closing s).pump ≡ seal s.pump)
        × ((closing s).connected ≡ s.connected)
        × ((closing s).linked ≡ s.linked)
        × ((closing s).queue_size ≡ s.queue_size)
  unfolding closing
  closing_keeps s d = ground arith

-- From any state that a schedule reaches, in which the goroutine runs, Close was not called and the
-- link is up: Close, then as many successful attempts as the budget of the goroutine says, and the
-- goroutine has returned, and what went out is all that Publish took, in that order.
pub mqtt_close_drains :
    {B : RingBuffer MqttMessage} {K : KList String} (L : Laws B) (s : MqttClient B K) (n : ℕ)
    → Inv s
    → s.draining ≡ false
    → s.connected ≡ true
    → s.linked ≡ true
    → IsReady (λ e. retry) s.pump.phase
    → budget s.pump ≤ n
    → let t = run s (close ∷ replicate n (send ok)) in
      (t.pump.phase ≡ stopped []) × (t.pump.sent ≡ s.pump.accepted)
unfolding seal closing
mqtt_close_drains L s n v d c l r b =
    let k = closing_keeps s d in
    let trying = after_failure-retry (closing s) (k.1 ∙ c) in
    let done =
      works-sent L (closing s).queue_size n (after_failure (closing s)) (closing s).pump
        (rw k.3 v.room) (rw k.0 (seal-Conserved L s.pump v.conserved))
        (rw k.0 (IsReady-of_retry (after_failure (closing s)) s.pump.phase trying r))
        (rw k.0 (L.close_closes s.pump.queue)) (rw k.0 (omega (arith, budget-seal L s.pump))) in
    rw (run-closing s (replicate n (send ok)), run-sends n (closing s) (k.1 ∙ c) (k.2 ∙ l))
      (done.0, done.1 ∙ ap (λ p. p.accepted) k.0)
