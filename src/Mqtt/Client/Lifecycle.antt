-- ===== src/Mqtt/Client/Lifecycle.antt =====
-- Starting and stopping the MQTT client.
use kmq_utils.Prelude.{
  ℕ, ◌≤◌, ◌≡◌, ◌≢◌, refl, ◌⊎◌, inl, inr, true, false, String, Option, none, some, List, [], ◌∷◌,
  arith, Bool-cases,
}
use kmq_utils.RingBuffer.{RingBuffer}
use kmq_utils.KList.{KList}
use kmq_utils.Pump.{stopped, failed, quit, retry, give_up, offer, begin, seal}
use kmq_utils.Pump.Drops.{is_trying, begin-trying, work-drops, work-trying}
use kmq_utils.Mqtt.Config.{Config}
use kmq_utils.Mqtt.Client.{
  MqttMessage, StartError, World, MqttClient, Answer, ok, refused, Event, start, connect, lost,
  publish, publish_message, send, close, disconnect, cancel, new_client, start_up, on_connect,
  publish_msg, try_send, after_failure, send_step, disconnect_link, step, run,
}

module _ {B : RingBuffer MqttMessage} {K : KList String} where
  -- A Start that returned an error cannot be repeated: the next one returns no error whatever the
  -- files hold by then, starts nothing, and what is published to a client without a connection is
  -- refused.
  pub failed_start_sticks :
      (w w' : World) (s : MqttClient B K) (e : StartError)
      → s.client ≡ none
      → (start_up w s).0 ≡ some e
      → let t = (start_up w s).1 in
        (start_up w' t ≡ (none, t)) × ((m : MqttMessage) → publish_msg m t ≡ (false, t))
  unfolding start_up publish_msg
  failed_start_sticks w w' s e n h = elim (Bool-cases s.started) [
    | inl st ↦ absurd (ground arith)
    | inr st ↦ (ground arith, λ m. ground arith)
  ]

  try_send-ne-quit : (s : MqttClient B K) (a : Answer) → try_send s a ≢ quit
  unfolding try_send
  try_send-ne-quit s ok e = ground arith
  try_send-ne-quit s refused e = cc

  give_up_offline :
      (s : MqttClient B K) (x : Unit {0})
      → after_failure s x ≡ give_up
      → (s.connected ≡ false) × ((s.ctx_done ≡ true) ⊎ (s.draining ≡ true))
  unfolding after_failure
  give_up_offline s x e = ground arith

  -- The goroutine drops messages only where the link is down, and after the context was cancelled
  -- or Close was called.
  pub drops_only_offline :
      (s : MqttClient B K) (a : Answer) (m : MqttMessage) (rest : List MqttMessage)
      → (send_step s a).pump.phase ≡ stopped (m ∷ rest)
      → (s.pump.phase ≡ stopped (m ∷ rest))
        ⊎ ((s.connected ≡ false) × ((s.ctx_done ≡ true) ⊎ (s.draining ≡ true)))
  unfolding send_step
  drops_only_offline s a m rest h =
      elim (work-drops s.queue_size (try_send s a) (after_failure s) s.pump m rest h) [
        | inl before ↦ inl before
        | inr (inl e) ↦ absurd (try_send-ne-quit s a e)
        | inr (inr (x, e)) ↦ inr (give_up_offline s x e)
      ]

  record Once (s : MqttClient B K) : Type 0 where
    at_most : s.ready_calls ≤ 1
    before : s.ready_done ≡ false → s.ready_calls ≡ 0

  step-Once : (s : MqttClient B K) (e : Event) → Once s → Once (step s e)
  unfolding step on_connect
  step-Once s (start w) v = ground arith
  step-Once s connect v = ground arith
  step-Once s lost v = ground arith
  step-Once s (publish m) v = ground arith
  step-Once s (publish_message topic message) v = ground arith
  step-Once s (send a) v = ground arith
  step-Once s close v = ground arith
  step-Once s (disconnect timeout) v = ground arith
  step-Once s cancel v = ground arith

  run-Once : (s : MqttClient B K) (es : List Event) → Once s → Once (run s es)
  unfolding run
  run-Once s [] v = v
  run-Once s (e ∷ es) v = run-Once (step s e) es (step-Once s e v)

  -- OnReady is called once at most, however often the link comes back.
  pub ready_once :
      (w : World) (q : Option B.Buf) (size : ℕ) (conf : Config K) (s : MqttClient B K)
      (es : List Event)
      → new_client w q size conf ≡ inr s
      → (run s es).ready_calls ≤ 1
  unfolding new_client
  ready_once w q size conf s es h = (run-Once s es (ground arith)).at_most

  -- After Disconnect, with the flag of the link still up and a message in hand.
  record Stuck (s : MqttClient B K) : Type 0 where
    gone : s.linked ≡ false
    flag : s.connected ≡ true
    busy : is_trying s.pump.phase ≡ true

  cannot_send : (s : MqttClient B K) (a : Answer) → s.linked ≡ false → try_send s a ≡ failed tt
  unfolding try_send
  cannot_send s ok l = ground arith
  cannot_send s refused l = refl

  must_retry :
      (s : MqttClient B K) → s.connected ≡ true → (e : Unit {0}) → after_failure s e ≡ retry
  unfolding after_failure
  must_retry s c e = ground arith

  send_step-Stuck : (s : MqttClient B K) (a : Answer) → Stuck s → Stuck (send_step s a)
  unfolding send_step
  send_step-Stuck s a v = record {
    gone = v.gone;
    flag = v.flag;
    busy =
        rw (cannot_send s a v.gone)
          (work-trying s.queue_size tt (after_failure s) s.pump (must_retry s v.flag) v.busy);
  }

  start_up-Stuck : (w : World) (s : MqttClient B K) → Stuck s → Stuck (start_up w s).1
  unfolding start_up
  start_up-Stuck w s v = ground (arith, v.gone, v.flag, v.busy, begin-trying s.pump)

  step-Stuck : (s : MqttClient B K) (e : Event) → Stuck s → Stuck (step s e)
  unfolding step offer begin seal
  step-Stuck s (start w) v = start_up-Stuck w s v
  step-Stuck s connect v = ground arith
  step-Stuck s lost v = ground arith
  step-Stuck s (publish m) v = ground arith
  step-Stuck s (publish_message topic message) v = ground arith
  step-Stuck s (send a) v = send_step-Stuck s a v
  step-Stuck s close v = ground arith
  step-Stuck s (disconnect timeout) v = ground arith
  step-Stuck s cancel v = ground arith

  run-Stuck : (s : MqttClient B K) (es : List Event) → Stuck s → Stuck (run s es)
  unfolding run
  run-Stuck s [] v = v
  run-Stuck s (e ∷ es) v = run-Stuck (step s e) es (step-Stuck s e v)

  -- Where Close runs into its 20 seconds with the link flag up and a message in hand, the goroutine
  -- never returns: Disconnect ends the link and leaves the flag up, so that every later attempt
  -- fails and is retried, in every schedule.
  pub timeout_leaks :
      (s : MqttClient B K) (es : List Event)
      → s.draining ≡ true
      → s.connected ≡ true
      → is_trying s.pump.phase ≡ true
      → is_trying (run s (disconnect true ∷ es)).pump.phase ≡ true
  unfolding run step disconnect_link
  timeout_leaks s es d c b = (run-Stuck (disconnect_link s true) es (ground arith)).busy
