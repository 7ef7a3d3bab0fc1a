-- ===== src/Nats/Core/Starting.antt =====
-- How Start of the NATS core client ends, how often OnReady is called, and how a
-- cancelled context ends the sending goroutine.
use kmq_utils.Prelude.{
  ℕ, ◌≤◌, ◌≡◌, refl, sym, ap, ◌∙◌, ◌⊎◌, inl, inr, true, false, Bool-cases, String, List, [], ◌∷◌,
  some, none, arith,
}
use kmq_utils.RingBuffer.{RingBuffer}
use kmq_utils.KList.{KList}
use kmq_utils.Pump.{quit}
use kmq_utils.Pump.Quits.{is_begun, is_stopped, works-quit}
use kmq_utils.Nats.Config.{Config}
use kmq_utils.Nats.Connect.{World, StartError, Options, do_connect}
use kmq_utils.Nats.Core.{
  NatsMessage, CoreClient, Event, start, connect, lost, publish, publish_message, send, close,
  disconnect, cancel, Answer, try_send, after_failure, start_up, launch, settle, failing,
  publish_msg, send_step, close_up, disconnect_link, step, run, new_client,
}

module _ {B : RingBuffer NatsMessage} {K : KList String} where
  settled :
      (w : World) (s : CoreClient B K) (x : StartError ⊎ Options) (e : StartError)
      → (settle w s x).0 ≡ some e
      → (settle w s x).1 ≡ failing e s
  unfolding settle
  settled w s (inl d) e h = ground arith
  settled w s (inr o) e h = cc

  start_up-failed :
      (w : World) (s : CoreClient B K) (e : StartError)
      → (start_up w s).0 ≡ some e
      → (s.started ≡ false) × ((start_up w s).1 ≡ failing e s)
  unfolding start_up
  start_up-failed w s e h = elim (Bool-cases s.started) [
    | inl up ↦ ground arith
    | inr down ↦ (down, ground (arith, settled w s (do_connect w s.conf.nats) e))
  ]

  settle_again :
      (v : World) (s : CoreClient B K) (e : StartError) (x : StartError ⊎ Options)
      → (settle v (failing e s) x).0 ≡ (settle v s x).0
  unfolding settle
  settle_again v s e (inl d) = refl
  settle_again v s e (inr o) = refl

  start_up-again :
      (v : World) (s : CoreClient B K) (e : StartError)
      → s.started ≡ false
      → (start_up v (failing e s)).0 ≡ (start_up v s).0
  unfolding start_up failing
  start_up-again v s e d = ground (arith, settle_again v s e (do_connect v s.conf.nats))

  failing_same :
      (s : CoreClient B K) (e : StartError)
      → s.started ≡ false
      → failing e s ≡ record s { error_calls = (failing e s).error_calls }
  unfolding failing
  failing_same s e d = ground arith

  refuses : (m : NatsMessage) (s : CoreClient B K) → s.conn ≡ none → (publish_msg m s).0 ≡ false
  unfolding publish_msg
  refuses m s c = ground arith

  -- After a Start that returned an error a client without a connection is as before but for the count
  -- of OnError: another Start returns what it would have returned, and a publish is refused.
  pub failed_start_retries :
      (w v : World) (s : CoreClient B K) (e : StartError) (m : NatsMessage)
      → s.conn ≡ none
      → (start_up w s).0 ≡ some e
      → let t = (start_up w s).1 in
        (t ≡ record s { error_calls = t.error_calls })
        × ((start_up v t).0 ≡ (start_up v s).0)
        × ((publish_msg m t).0 ≡ false)
  unfolding failing
  failed_start_retries w v s e m c h =
      let f = start_up-failed w s e h in
      (
        f.1 ∙ failing_same s e f.0 ∙ ap (λ t. record s { error_calls = t.error_calls }) (sym f.1),
        ap (λ t. (start_up v t).0) f.1 ∙ start_up-again v s e f.0,
        ap (λ t. (publish_msg m t).0) f.1 ∙ refuses m (failing e s) c,
      )

  -- OnReady is called once at most, and only behind a connection.
  record ReadyInv (s : CoreClient B K) : Type 0 where
    once : s.ready_calls ≤ 1
    fresh : s.ready_done ≡ false → s.ready_calls ≡ 0

  launch-ReadyInv :
      (w : World) (o : Options) (s : CoreClient B K) → ReadyInv s → ReadyInv (launch w o s)
  unfolding launch
  launch-ReadyInv w o s v = ground (arith, v)

  settle-ReadyInv :
      (w : World) (s : CoreClient B K) (x : StartError ⊎ Options)
      → ReadyInv s
      → ReadyInv (settle w s x).1
  unfolding settle failing
  settle-ReadyInv w s (inl e) v = record { once = v.once; fresh = v.fresh }
  settle-ReadyInv w s (inr o) v = launch-ReadyInv w o s v

  start_up-ReadyInv : (w : World) (s : CoreClient B K) → ReadyInv s → ReadyInv (start_up w s).1
  unfolding start_up
  start_up-ReadyInv w s v = elim (Bool-cases s.started) [
    | inl e ↦ ground (arith, v)
    | inr e ↦ ground (arith, settle-ReadyInv w s (do_connect w s.conf.nats) v)
  ]

  step-ReadyInv : (s : CoreClient B K) (e : Event) → ReadyInv s → ReadyInv (step s e)
  unfolding step publish_msg send_step close_up disconnect_link
  step-ReadyInv s (start w) v = start_up-ReadyInv w s v
  step-ReadyInv s connect v = ground (arith, v)
  step-ReadyInv s lost v = ground (arith, v)
  step-ReadyInv s (publish m) v = ground (arith, v)
  step-ReadyInv s (publish_message topic message) v = ground (arith, v)
  step-ReadyInv s (send a) v = record { once = v.once; fresh = v.fresh }
  step-ReadyInv s close v = ground (arith, v)
  step-ReadyInv s (disconnect timeout) v = ground (arith, v)
  step-ReadyInv s cancel v = record { once = v.once; fresh = v.fresh }

  run-ReadyInv : (s : CoreClient B K) (es : List Event) → ReadyInv s → ReadyInv (run s es)
  unfolding run
  run-ReadyInv s [] v = v
  run-ReadyInv s (e ∷ es) v = run-ReadyInv (step s e) es (step-ReadyInv s e v)

  -- OnReady is called at most once in any schedule from a new client, however often Start is called.
  pub nats_ready_once :
      (q : B.Buf) (size : ℕ) (conf : Config K) (s : CoreClient B K) (es : List Event)
      → new_client (some q) size conf ≡ inr s
      → (run s es).ready_calls ≤ 1
  unfolding new_client
  nats_ready_once q size conf s es h =
      let v : ReadyInv s = ground arith in (run-ReadyInv s es v).once

  cancelled_quits : (s : CoreClient B K) (a : Answer) → s.ctx_done ≡ true → try_send s a ≡ quit
  unfolding try_send
  cancelled_quits s a d = rw d refl

  -- Once the context is done, as it is behind a Close that timed out, and the queue is closed, the
  -- sending goroutine returns within two steps, whatever the connection answers.
  pub cancelled_ends :
      (s : CoreClient B K) (a b : Answer)
      → s.ctx_done ≡ true
      → is_begun s.pump.phase ≡ true
      → B.is_closed s.pump.queue ≡ true
      → is_stopped (run s (send a ∷ send b ∷ [])).pump.phase ≡ true
  unfolding run step send_step
  cancelled_ends s a b d g h =
      let t = send_step s a in
      rw (cancelled_quits t b d, cancelled_quits s a d)
        (works-quit s.queue_size (after_failure s) (after_failure t) s.pump g h)
