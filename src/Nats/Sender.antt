-- ===== src/Nats/Sender.antt =====
-- What the two clients of NATS promise about sending: an abstract sender with a link, a queue and the
-- goroutine behind it, which knows nothing of servers, streams and subscriptions.
use kmq_utils.Prelude.{ℕ, Bool, true, false, not, ◌&&◌, ◌||◌, String, List, [], ◌∷◌, if◌then◌else◌}
use kmq_utils.RingBuffer.{RingBuffer}
use kmq_utils.Pump
use kmq_utils.Pump.{
  Pump, Verdict, delivered, failed, quit, Check, retry, give_up, offer, begin, seal, work,
  has_returned,
}
use kmq_utils.Nats.Core.{NatsMessage, Answer, ok, closing_error, other_error}

-- The moves that both clients know.
pub data Move : Type 0 where
  connect lost close cancel : Move
  publish : NatsMessage → Move
  publish_message : String → String → Move
  send : Answer → Move
  disconnect : Bool → Move

-- The abstract sender.
pub record Sender (B : RingBuffer NatsMessage) : Type 0 where
  pub absent : Bool  -- there is no connection yet
  pub linked : Bool
  pub connected : Bool
  pub draining : Bool
  pub ctx_done : Bool
  pub size : ℕ
  pub pump : Pump B (Unit {0})

module _ {B : RingBuffer NatsMessage} where
  unfoldable pub answered : Sender B → Answer → Verdict (Unit {0})
  answered x ok = if x.linked then delivered else if x.draining then quit else failed tt
  answered x closing_error = if x.draining then quit else failed tt
  answered x other_error = failed tt

  unfoldable pub attempt : Sender B → Answer → Verdict (Unit {0})
  unfolding answered
  attempt x a = if x.ctx_done then quit else if x.connected then answered x a else failed tt

  unfoldable pub after : Sender B → Unit {0} → Check
  after x e = if x.draining && not x.connected then give_up else retry

  unfoldable pub offered : NatsMessage → Sender B → Sender B
  unfolding offer
  offered m x = if x.draining || x.absent then x else record x { pump = (offer m x.pump).1 }

  unfoldable pub move : Sender B → Move → Sender B
  unfolding offered attempt after seal work
  move x connect = if x.absent then x else record x { connected = true }
  move x lost = if x.absent then x else record x { connected = false }
  move x close = if x.draining then x else record x { draining = true; pump = seal x.pump }
  move x cancel = record x { ctx_done = true }
  move x (publish m) = offered m x
  move x (publish_message topic message) =
      offered (record { topic = topic; reply = ""; header = []; payload = message }) x
  move x (send a) = record x { pump = work x.size (attempt x a) (after x) x.pump }
  move x (disconnect timeout) =
      if x.draining && (has_returned x.pump.phase || timeout)
      then record x { linked = false; ctx_done = true }
      else x

  unfoldable pub moves : Sender B → List Move → Sender B
  moves x [] = x
  moves x (e ∷ es) = moves (move x e) es

  -- A sender behind a Start that succeeded.
  unfoldable pub begun : B.Buf → ℕ → Bool → Sender B
  unfolding Pump.new begin
  begun q size up = record {
    absent = false;
    linked = true;
    connected = up;
    draining = false;
    ctx_done = false;
    size = size;
    pump = begin (Pump.new q);
  }
