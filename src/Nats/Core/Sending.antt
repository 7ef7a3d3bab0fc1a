-- ===== src/Nats/Core/Sending.antt =====
-- Behind a Start that succeeded, the core client of NATS is the abstract sender (Publish,
-- startDrainPipe and Close of natsmq/nats_core.go).
use kmq_utils.Prelude.{
  ℕ, ◌≡◌, refl, ◌∙◌, ap, ◌⊎◌, inl, inr, String, some, none, List, [], ◌∷◌, map, is_none, arith,
}
use kmq_utils.RingBuffer.{RingBuffer}
use kmq_utils.KList.{KList}
use kmq_utils.Nats.Config.{Config}
use kmq_utils.Nats.Connect.{World, StartError, Options, do_connect}
use kmq_utils.Nats.Core
use kmq_utils.Nats.Core.{NatsMessage, CoreClient, Answer, ok, closing_error, other_error}
use kmq_utils.Nats.Sender.{
  Move, connect, lost, close, cancel, publish, publish_message, send, disconnect, Sender, attempt,
  answered, after, offered, move, moves, begun,
}

abbrev pub to_core : Move → Core.Event
to_core connect = Core.connect
to_core lost = Core.lost
to_core close = Core.close
to_core cancel = Core.cancel
to_core (publish m) = Core.publish m
to_core (publish_message topic message) = Core.publish_message topic message
to_core (send a) = Core.send a
to_core (disconnect timeout) = Core.disconnect timeout

module _ {B : RingBuffer NatsMessage} {K : KList String} where
  unfoldable pub of_core : CoreClient B K → Sender B
  of_core s = record {
    absent = is_none s.conn;
    linked = s.linked;
    connected = s.connected;
    draining = s.draining;
    ctx_done = s.ctx_done;
    size = s.queue_size;
    pump = s.pump;
  }

  attempt-core : (s : CoreClient B K) (a : Answer) → Core.try_send s a ≡ attempt (of_core s) a
  unfolding Core.try_send Core.sent_or attempt answered of_core
  attempt-core s ok = refl
  attempt-core s closing_error = refl
  attempt-core s other_error = refl

  offered-core :
      (m : NatsMessage) (s : CoreClient B K)
      → of_core (Core.publish_msg m s).1 ≡ offered m (of_core s)
  unfolding Core.publish_msg offered of_core
  offered-core m s = ground arith

  move-core :
      (s : CoreClient B K) (e : Move) → of_core (Core.step s (to_core e)) ≡ move (of_core s) e
  unfolding Core.step Core.send_step Core.close_up Core.disconnect_link Core.after_failure move
      after of_core
  move-core s connect = ground arith
  move-core s lost = ground arith
  move-core s close = ground arith
  move-core s cancel = refl
  move-core s (publish m) = offered-core m s
  move-core s (publish_message topic message) = offered-core _ s
  move-core s (send a) = rw (attempt-core s a)
  move-core s (disconnect timeout) = ground arith

  settled-core :
      (w : World) (q : B.Buf) (size : ℕ) (conf : Config K) (x : StartError ⊎ Options)
      → (Core.settle w (Core.fresh {B = B} q size conf) x).0 ≡ none
      → of_core (Core.settle w (Core.fresh {B = B} q size conf) x).1 ≡ begun q size w.is_connected
  unfolding Core.settle Core.launch Core.fresh of_core begun
  settled-core w q size conf (inl e) h = cc
  settled-core w q size conf (inr o) h = ground arith

  begun-core :
      (w : World) (q : B.Buf) (size : ℕ) (conf : Config K) (s : CoreClient B K)
      → Core.new_client (some q) size conf ≡ inr s
      → (Core.start_up w s).0 ≡ none
      → of_core (Core.start_up w s).1 ≡ begun q size w.is_connected
  unfolding Core.new_client Core.start_up Core.fresh
  begun-core w q size conf s h e =
      ground (arith, settled-core w q size conf (do_connect w conf.nats))

  run-core :
      (s : CoreClient B K) (es : List Move)
      → of_core (Core.run s (map to_core es)) ≡ moves (of_core s) es
  unfolding Core.run moves
  run-core s [] = refl
  run-core s (e ∷ es) = run-core (Core.step s (to_core e)) es ∙ ap (λ x. moves x es) (move-core s e)

  -- From a Start of a new client that returned no error on, whatever happens in any order, the client
  -- is the abstract sender that began with its queue, its size and the state of the link.
  pub core_refines_sender :
      (w : World) (q : B.Buf) (size : ℕ) (conf : Config K) (s : CoreClient B K) (es : List Move)
      → Core.new_client (some q) size conf ≡ inr s
      → (Core.start_up w s).0 ≡ none
      → of_core (Core.run (Core.start_up w s).1 (map to_core es))
        ≡ moves (begun q size w.is_connected) es
  core_refines_sender w q size conf s es h e =
      run-core _ es ∙ ap (λ x. moves x es) (begun-core w q size conf s h e)
