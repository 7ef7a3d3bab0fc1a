-- ===== src/Nats/JetStream/Starting.antt =====
-- How Start of the JetStream client ends: the connections it leaves open, and the messages that the
-- client takes behind a Start that failed (natsmq/nats_jetstream.go, Start and Publish).
use kmq_utils.Prelude.{
  ℕ, ◌+◌, ◌≡◌, refl, inl, inr, false, Bool-cases, String, Option, some, none, arith,
}
use kmq_utils.RingBuffer.{RingBuffer}
use kmq_utils.KList.{KList}
use kmq_utils.Nats.Core.{NatsMessage}
use kmq_utils.Nats.Setup.{
  World, StartError, Connection, refused, half, full, do_connect, SyncFailure, sync_error,
  sync_panic, sync_subscriptions,
}
use kmq_utils.Nats.JetStream.{
  JetStreamClient, failing, start_up, settle, finish, with_connection, with_setup,
}

-- How many connections a Start with this answer leaves open.
abbrev pub left_open : {K : KList String} → Connection K → ℕ
left_open (refused e) = 0
left_open (half o e) = 1
left_open (full o st) = 0

module _ {B : RingBuffer NatsMessage} {K : KList String} where
  finish_fails :
      (f : Option SyncFailure) (s : JetStreamClient B K) (n : ℕ) (e : StartError)
      → s.open_conns ≡ n + 1
      → (finish f s).0 ≡ failing e
      → ((finish f s).1.started ≡ false)
        × ((finish f s).1.open_conns ≡ n)
        × ((finish f s).1.pump ≡ s.pump)
  unfolding finish
  finish_fails none s n e o h = cc
  finish_fails (some (sync_error d)) s n e o h = (refl, ground arith, refl)
  finish_fails (some sync_panic) s n e o h = cc

  settle_fails :
      (w : World K) (s : JetStreamClient B K) (x : Connection K) (e : StartError)
      → (settle w s x).0 ≡ failing e
      → ((settle w s x).1.started ≡ false)
        × ((settle w s x).1.open_conns ≡ s.open_conns + left_open x)
        × ((settle w s x).1.pump ≡ s.pump)
  unfolding settle with_connection with_setup
  settle_fails w s (refused d) e h = (refl, ground arith, refl)
  settle_fails w s (half o d) e h = (refl, refl, refl)
  settle_fails w s (full o st) e h =
      let y = sync_subscriptions w s.timestamp s.settings s.subs in
      let f =
        finish_fails y.failure (with_setup st w.is_connected y (with_connection o s)) s.open_conns e
          refl h in
      (f.0, ground (arith, f.1), f.2)

  -- A Start that returns an error leaves `started` false and the queue as it was. It closes the
  -- connection that it opened, unless the error came from inside doConnect behind Connect, where it
  -- leaves one more connection open.
  pub failed_start_leaves :
      (w : World K) (s : JetStreamClient B K) (e : StartError)
      → (start_up w s).0 ≡ failing e
      → ((start_up w s).1.started ≡ false)
        × ((start_up w s).1.open_conns
            ≡ s.open_conns + left_open (do_connect w s.conf.nats s.settings))
        × ((start_up w s).1.pump ≡ s.pump)
  unfolding start_up
  failed_start_leaves w s e h = elim (Bool-cases s.started) [
    | inl up ↦ ground arith
    | inr down ↦ ground (arith, settle_fails w s (do_connect w s.conf.nats s.settings) e)
  ]
