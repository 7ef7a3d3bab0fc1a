-- ===== src/Nats/Core/Conserved.antt =====
-- No schedule of events loses, repeats or reorders a message of the NATS core client.
use kmq_utils.Prelude.{
  ℕ, String, ◌<◌, ◌≡◌, refl, ◌⊎◌, inl, inr, Bool, true, false, Bool-cases, List, [], ◌∷◌, ◌++◌,
  some, arith,
}
use kmq_utils.RingBuffer.{RingBuffer, Laws}
use kmq_utils.KList.{KList}
use kmq_utils.Pump.{stopped, quit, give_up, pending}
use kmq_utils.Pump.Conserved.{
  Conserved, new-Conserved, begin-Conserved, offer-Conserved, seal-Conserved, work-Conserved,
}
use kmq_utils.Pump.Justified.{
  Justified, Justified-mono, new-Justified, begin-Justified, offer-Justified, seal-Justified,
  work-Justified,
}
use kmq_utils.Nats.Config.{Config}
use kmq_utils.Nats.Connect.{World, StartError, Options, do_connect}
use kmq_utils.Nats.Core.{
  NatsMessage, CoreClient, Answer, ok, closing_error, other_error, Event, start, connect, lost,
  publish, publish_message, send, close, disconnect, cancel, new_client, start_up, launch, settle,
  failing, publish_msg, sent_or, try_send, after_failure, send_step, close_up, disconnect_link,
  step, run,
}

-- The application or Close ended the client.
abbrev pub Ended : {B : RingBuffer NatsMessage} {K : KList String} → CoreClient B K → Type 0
Ended s = (s.ctx_done ≡ true) ⊎ (s.draining ≡ true)

pub record Inv {B : RingBuffer NatsMessage} {K : KList String} (s : CoreClient B K) : Type 0 where
  pub conserved : Conserved s.pump
  pub justified : Justified (Ended s) s.pump
  pub room : 0 < s.queue_size

module _ {B : RingBuffer NatsMessage} {K : KList String} (L : Laws B) where
  publish_msg-Inv : (m : NatsMessage) (s : CoreClient B K) → Inv s → Inv (publish_msg m s).1
  unfolding publish_msg
  publish_msg-Inv m s v =
      ground
        (arith, v, offer-Conserved L m s.pump v.conserved, offer-Justified L m s.pump v.justified)

  launch-Inv : (w : World) (o : Options) (s : CoreClient B K) → Inv s → Inv (launch w o s)
  unfolding launch
  launch-Inv w o s v = record {
    conserved = begin-Conserved s.pump v.conserved;
    justified = begin-Justified s.pump v.justified;
    room = v.room;
  }

  settle-Inv :
      (w : World) (s : CoreClient B K) (x : StartError ⊎ Options) → Inv s → Inv (settle w s x).1
  unfolding settle failing
  settle-Inv w s (inl e) v = record {
    conserved = v.conserved;
    justified = v.justified;
    room = v.room;
  }
  settle-Inv w s (inr o) v = launch-Inv w o s v

  start_up-Inv : (w : World) (s : CoreClient B K) → Inv s → Inv (start_up w s).1
  unfolding start_up
  start_up-Inv w s v = elim (Bool-cases s.started) [
    | inl e ↦ ground (arith, v)
    | inr e ↦ ground (arith, settle-Inv w s (do_connect w s.conf.nats) v)
  ]

  close_up-Inv : (s : CoreClient B K) → Inv s → Inv (close_up s)
  unfolding close_up
  close_up-Inv s v = ground (
    arith,
    v.conserved,
    v.justified,
    v.room,
    seal-Conserved L s.pump v.conserved,
    Justified-mono {P = Ended s} {Q = (s.ctx_done ≡ true) ⊎ (true ≡ true)} (λ _. inr refl)
        (seal-Justified L s.pump v.justified),
  )

  disconnect_link-Inv : (s : CoreClient B K) (b : Bool) → Inv s → Inv (disconnect_link s b)
  unfolding disconnect_link
  disconnect_link-Inv s b v = ground (
    arith,
    v.conserved,
    v.justified,
    v.room,
    Justified-mono {P = Ended s} {Q = (true ≡ true) ⊎ (s.draining ≡ true)} (λ _. inl refl)
        v.justified,
  )

  sent_or-quits : (s : CoreClient B K) (a : Answer) → sent_or s a ≡ quit → Ended s
  unfolding sent_or
  sent_or-quits s ok e = ground arith
  sent_or-quits s closing_error e = ground arith
  sent_or-quits s other_error e = cc

  never_quits : (s : CoreClient B K) (a : Answer) → try_send s a ≡ quit → Ended s
  unfolding try_send
  never_quits s a e = ground (arith, sent_or-quits s a)

  gives_up-Ended : (s : CoreClient B K) (x : Unit {0}) → after_failure s x ≡ give_up → Ended s
  unfolding after_failure
  gives_up-Ended s x e = ground arith

  send_step-Inv : (s : CoreClient B K) (a : Answer) → Inv s → Inv (send_step s a)
  unfolding send_step
  send_step-Inv s a v = record {
    conserved = work-Conserved L s.queue_size (try_send s a) (after_failure s) s.pump v.conserved;
    justified =
        work-Justified L s.queue_size (try_send s a) (after_failure s) s.pump v.room
          (never_quits s a) (gives_up-Ended s) v.justified;
    room = v.room;
  }

  pub step-Inv : (s : CoreClient B K) (e : Event) → Inv s → Inv (step s e)
  unfolding step
  step-Inv s (start w) v = start_up-Inv w s v
  step-Inv s connect v = ground (arith, v.conserved, v.justified, v.room)
  step-Inv s lost v = ground (arith, v.conserved, v.justified, v.room)
  step-Inv s (publish m) v = publish_msg-Inv m s v
  step-Inv s (publish_message topic message) v = publish_msg-Inv _ s v
  step-Inv s (send a) v = send_step-Inv s a v
  step-Inv s close v = close_up-Inv s v
  step-Inv s (disconnect timeout) v = disconnect_link-Inv s timeout v
  step-Inv s cancel v = record {
    conserved = v.conserved;
    justified = Justified-mono {P = Ended s} (λ _. inl refl) v.justified;
    room = v.room;
  }

  pub run-Inv : (s : CoreClient B K) (es : List Event) → Inv s → Inv (run s es)
  unfolding run
  run-Inv s [] v = v
  run-Inv s (e ∷ es) v = run-Inv (step s e) es (step-Inv s e v)

  pub new_client-Inv :
      (q : B.Buf) (size : ℕ) (conf : Config K) {s : CoreClient B K}
      → new_client (some q) size conf ≡ inr s
      → B.contents q ≡ []
      → 0 < size
      → Inv s
  unfolding new_client
  new_client-Inv q size conf h e room = ground (
    arith,
    new-Conserved {B = B} {E = Unit {0}} q e,
    new-Justified {B = B} {E = Unit {0}} {P = (false ≡ true) ⊎ (false ≡ true)} q,
  )

  -- Whatever the application, the broker, the link and the goroutines do, in any order, from a new
  -- client: the messages that Publish took are those that went out followed by those in hand or in
  -- the queue, in the order of acceptance; and where the sending goroutine has returned, then
  -- nothing is left and the queue is closed, or the context was cancelled or Close was called.
  pub nats_accounts :
      (q : B.Buf) (size : ℕ) (conf : Config K) (s : CoreClient B K) (es : List Event)
      → new_client (some q) size conf ≡ inr s
      → B.contents q ≡ []
      → 0 < size
      → let t = run s es in
        (t.pump.accepted ≡ t.pump.sent ++ pending t.pump)
        × ((dropped : List NatsMessage)
            → t.pump.phase ≡ stopped dropped
            → ((pending t.pump ≡ []) × (B.is_closed t.pump.queue ≡ true)) ⊎ Ended t)
  nats_accounts q size conf s es h e room =
      let v = run-Inv s es (new_client-Inv q size conf h e room) in
      (v.conserved.account, v.justified.reason)
