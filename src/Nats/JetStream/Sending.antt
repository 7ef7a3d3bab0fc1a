-- ===== src/Nats/JetStream/Sending.antt =====
-- Behind a Start that succeeded, the JetStream client is the abstract sender too, so that the two
-- clients of NATS agree on every message (natsmq/nats_core.go and natsmq/nats_jetstream.go, Publish,
-- startDrainPipe and Close).
use kmq_utils.Prelude.{
  ℕ, ◌≡◌, refl, sym, ◌∙◌, ap, inr, String, Option, some, none, List, [], ◌∷◌, map, is_none, arith,
}
use kmq_utils.Prelude.Int.{ℤ}
use kmq_utils.RingBuffer.{RingBuffer}
use kmq_utils.KList.{KList}
use kmq_utils.Nats.Config.{Config}
use kmq_utils.Nats.Connect
use kmq_utils.Nats.Setup.{
  World, Connection, refused, half, full, do_connect, SyncFailure, sync_error, sync_panic,
  sync_subscriptions,
}
use kmq_utils.Nats.Stream.{StreamConfig}
use kmq_utils.Nats.Core
use kmq_utils.Nats.Core.{NatsMessage, CoreClient, Answer, ok, closing_error, other_error}
use kmq_utils.Nats.Core.Sending.{to_core, of_core, core_refines_sender}
use kmq_utils.Nats.JetStream
use kmq_utils.Nats.JetStream.{JetStreamClient, ready}
use kmq_utils.Nats.Sender.{
  Move, connect, lost, close, cancel, publish, publish_message, send, disconnect, Sender, attempt,
  answered, after, offered, move, moves, begun,
}

abbrev pub to_jet_stream : {K : KList String} → Move → JetStream.Event K
to_jet_stream connect = JetStream.connect
to_jet_stream lost = JetStream.lost
to_jet_stream close = JetStream.close
to_jet_stream cancel = JetStream.cancel
to_jet_stream (publish m) = JetStream.publish m
to_jet_stream (publish_message topic message) = JetStream.publish_message topic message
to_jet_stream (send a) = JetStream.send a
to_jet_stream (disconnect timeout) = JetStream.disconnect timeout

module _ {B : RingBuffer NatsMessage} {K : KList String} where
  of_jet_stream : JetStreamClient B K → Sender B
  of_jet_stream s = record {
    absent = is_none s.conn;
    linked = s.linked;
    connected = s.connected;
    draining = s.draining;
    ctx_done = s.ctx_done;
    size = s.queue_size;
    pump = s.pump;
  }

  attempt-jet_stream :
      (s : JetStreamClient B K) (a : Answer) → JetStream.try_send s a ≡ attempt (of_jet_stream s) a
  unfolding JetStream.try_send JetStream.sent_or attempt answered of_jet_stream
  attempt-jet_stream s ok = refl
  attempt-jet_stream s closing_error = refl
  attempt-jet_stream s other_error = refl

  offered-jet_stream :
      (m : NatsMessage) (s : JetStreamClient B K)
      → of_jet_stream (JetStream.publish_msg m s).1 ≡ offered m (of_jet_stream s)
  unfolding JetStream.publish_msg offered of_jet_stream
  offered-jet_stream m s = ground arith

  move-jet_stream :
      (s : JetStreamClient B K) (e : Move)
      → of_jet_stream (JetStream.step s (to_jet_stream e)) ≡ move (of_jet_stream s) e
  unfolding JetStream.step JetStream.send_step JetStream.close_up JetStream.disconnect_link
      JetStream.after_failure move after of_jet_stream
  move-jet_stream s connect = ground arith
  move-jet_stream s lost = ground arith
  move-jet_stream s close = ground arith
  move-jet_stream s cancel = refl
  move-jet_stream s (publish m) = offered-jet_stream m s
  move-jet_stream s (publish_message topic message) = offered-jet_stream _ s
  move-jet_stream s (send a) = rw (attempt-jet_stream s a)
  move-jet_stream s (disconnect timeout) = ground arith

  run-jet_stream :
      (s : JetStreamClient B K) (es : List Move)
      → of_jet_stream (JetStream.run s (map to_jet_stream es)) ≡ moves (of_jet_stream s) es
  unfolding JetStream.run moves
  run-jet_stream s [] = refl
  run-jet_stream s (e ∷ es) =
      run-jet_stream (JetStream.step s (to_jet_stream e)) es
      ∙ ap (λ x. moves x es) (move-jet_stream s e)

  finished :
      (f : Option SyncFailure) (s : JetStreamClient B K)
      → (JetStream.finish f s).0 ≡ ready
      → (JetStream.finish f s).1 ≡ JetStream.launch s
  unfolding JetStream.finish
  finished none s h = refl
  finished (some (sync_error e)) s h = cc
  finished (some sync_panic) s h = cc

  settled-jet_stream :
      (w : World K) (q : B.Buf) (size : ℕ) (time : ℤ) (conf : Config K) (c : StreamConfig K)
      (x : Connection K)
      → (JetStream.settle w (JetStream.fresh {B = B} q size time conf c) x).0 ≡ ready
      → of_jet_stream (JetStream.settle w (JetStream.fresh {B = B} q size time conf c) x).1
        ≡ begun q size w.is_connected
  unfolding JetStream.settle JetStream.launch JetStream.with_connection JetStream.with_setup
      JetStream.fresh of_jet_stream begun
  settled-jet_stream w q size time conf c (refused e) h = cc
  settled-jet_stream w q size time conf c (half o e) h = cc
  settled-jet_stream w q size time conf c (full o st) h =
      let y = sync_subscriptions w time c [] in
      ap of_jet_stream (
        finished y.failure
          (JetStream.with_setup st w.is_connected y
            (JetStream.with_connection o (JetStream.fresh {B = B} q size time conf c)))
          h)
      ∙ ground arith

  begun-jet_stream :
      (w : World K) (q : B.Buf) (size : ℕ) (time : ℤ) (conf : Config K)
      (c : Option (StreamConfig K)) (s : JetStreamClient B K)
      → JetStream.with_queue (some q) size time conf c ≡ inr s
      → (JetStream.start_up w s).0 ≡ ready
      → of_jet_stream (JetStream.start_up w s).1 ≡ begun q size w.is_connected
  unfolding JetStream.with_queue JetStream.start_up JetStream.fresh
  begun-jet_stream w q size time conf none s h e = cc
  begun-jet_stream w q size time conf (some c) s h e =
      ground (arith, settled-jet_stream w q size time conf c (do_connect w conf.nats c))

  jet_stream_refines_sender :
      (w : World K) (q : B.Buf) (size : ℕ) (time : ℤ) (conf : Config K) (s : JetStreamClient B K)
      (es : List Move)
      → JetStream.new_client (some q) size time conf ≡ inr s
      → (JetStream.start_up w s).0 ≡ ready
      → of_jet_stream (JetStream.run (JetStream.start_up w s).1 (map to_jet_stream es))
        ≡ moves (begun q size w.is_connected) es
  unfolding JetStream.new_client
  jet_stream_refines_sender w q size time conf s es h e =
      run-jet_stream _ es
      ∙ ap (λ x. moves x es) (begun-jet_stream w q size time conf conf.jet_stream s h e)

  -- A core client and a JetStream client that are new, with the same queue and size, and whose Starts
  -- succeeded with the link in the same state, hold the same queue, the same message in hand, and the
  -- same accepted and sent messages after the same moves, whatever the moves and their order.
  pub clients_agree :
      (w : Connect.World) (v : World K) (q : B.Buf) (size : ℕ) (time : ℤ) (conf jet_conf : Config K)
      → (c : CoreClient B K) (j : JetStreamClient B K) (es : List Move)
      → Core.new_client (some q) size conf ≡ inr c
      → JetStream.new_client (some q) size time jet_conf ≡ inr j
      → (Core.start_up w c).0 ≡ none
      → (JetStream.start_up v j).0 ≡ ready
      → w.is_connected ≡ v.is_connected
      → (Core.run (Core.start_up w c).1 (map to_core es)).pump
        ≡ (JetStream.run (JetStream.start_up v j).1 (map to_jet_stream es)).pump
  unfolding of_core of_jet_stream
  clients_agree w v q size time conf jet_conf c j es new_core new_jet_stream started up same =
      ap (λ x. x.pump)
        (core_refines_sender w q size conf c es new_core started
          ∙ ap (λ b. moves (begun q size b) es) same
          ∙ sym (jet_stream_refines_sender v q size time jet_conf j es new_jet_stream up))
