-- ===== src/Nats/Core.antt =====
-- The core client of NATS (natsmq/nats_core.go): `Start` connects and subscribes, the handlers of the
-- library report the link, `Publish` puts a message into the queue, a goroutine sends, `Close` drains.
-- An event is one move of a party, with the library's answers as its arguments; every schedule of
-- events is an interleaving. An attempt is one event, and the test behind a failed attempt is the
-- next one, so the flags may change between. The library calls its handlers for a connection only.
-- Not modelled: the log lines, what a received message is, and the handler.
pub mod Conserved
pub mod Drained
pub mod Sending
pub mod Starting
use kmq_utils.Prelude.{
  ℕ, ◌+◌, ◌⊎◌, inl, inr, Bool, true, false, not, ◌&&◌, ◌||◌, String, Option, none, some, List, [],
  ◌∷◌, ◌++◌, str_eq, is_empty, is_none, if◌then◌else◌,
}
use kmq_utils.Prelude.Int.{ℤ}
use kmq_utils.RingBuffer.{RingBuffer}
use kmq_utils.KList.{KList}
use kmq_utils.Pump
use kmq_utils.Pump.{
  Pump, Verdict, delivered, failed, quit, Check, retry, give_up, offer, seal, begin, work,
  has_returned,
}
use kmq_utils.Nats.Connect.{
  StartError, key_pair_error, connect_error, Options, World, do_connect, subscribe_core,
}
use kmq_utils.Nats.Config.{Config, ConnConfig, CoreConfig}

-- A message to publish, or a received one; the core client sends the topic and the payload only.
pub record NatsMessage : Type 0 where
  pub topic : String
  pub reply : String
  pub header : List (String × String)
  pub payload : String

pub data NewError : Type 0 where
  core_missing queue_error : NewError

pub record CoreClient (B : RingBuffer NatsMessage) (K : KList String) : Type 0 where
  pub conf : Config K
  pub conn : Option Options  -- the connection, by its options
  pub linked : Bool  -- not closed by Close
  pub connected : Bool
  pub draining : Bool
  pub started : Bool
  pub ready_done : Bool  -- readyOnce
  pub ready_calls : ℕ
  pub error_calls : ℕ
  pub ctx_done : Bool
  pub subs : List String  -- the topics of the map
  pub drained_subs : List String
  pub queue_size : ℕ
  pub pump : Pump B (Unit {0})

-- The answer of the connection's Publish: no error, ErrConnectionClosed or ErrConnectionDraining, or
-- another error.
pub data Answer : Type 0 where
  ok closing_error other_error : Answer

pub data Event : Type 0 where
  start : World → Event
  connect : Event  -- ConnectHandler
  lost : Event  -- DisconnectHandler
  publish : NatsMessage → Event
  publish_message : String → String → Event
  send : Answer → Event  -- a step of the sending goroutine
  close : Event
  disconnect : Bool → Event  -- Close behind its select; the argument says that 20 seconds passed
  cancel : Event  -- the application cancels the context

abbrev counts_error : StartError → Bool
counts_error key_pair_error = false
counts_error connect_error = true

module _ {B : RingBuffer NatsMessage} {K : KList String} where
  fresh : B.Buf → ℕ → Config K → CoreClient B K
  unfolding Pump.new
  fresh q size conf = record {
    conf = conf;
    conn = none;
    linked = true;
    connected = false;
    draining = false;
    started = false;
    ready_done = false;
    ready_calls = 0;
    error_calls = 0;
    ctx_done = false;
    subs = [];
    drained_subs = [];
    queue_size = size;
    pump = Pump.new q;
  }

  -- NewNatsCoreClient; the queue is the answer of NewLockedRingBuffer.
  unfoldable pub new_client : Option B.Buf → ℕ → Config K → NewError ⊎ CoreClient B K
  unfolding fresh
  new_client q size conf =
      if is_none conf.core_nats
      then inl core_missing
      else elim q [ none ↦ inl queue_error | some b ↦ inr (fresh b size conf) ]

  -- Start behind doConnect.
  launch : World → Options → CoreClient B K → CoreClient B K
  unfolding subscribe_core begin
  launch w o s = record s {
    started = true;
    conn = some o;
    connected = if w.is_connected then true else s.connected;
    subs = subscribe_core w.subscribes s.conf.core_nats s.subs;
    ready_done = true;
    ready_calls = if not s.ready_done && s.conf.on_ready then s.ready_calls + 1 else s.ready_calls;
    pump = begin s.pump;
  }

  -- OnError is called where nats.Connect failed, and `started` is taken back.
  failing : StartError → CoreClient B K → CoreClient B K
  failing e s = record s {
    started = false;
    error_calls = if counts_error e && s.conf.on_error then s.error_calls + 1 else s.error_calls;
  }

  settle : World → CoreClient B K → StartError ⊎ Options → Option StartError × CoreClient B K
  unfolding launch failing
  settle w s (inl e) = (some e, failing e s)
  settle w s (inr o) = (none, launch w o s)

  -- Start, and the error that it returns.
  unfoldable pub start_up : World → CoreClient B K → Option StartError × CoreClient B K
  unfolding settle do_connect
  start_up w s = if s.started then (none, s) else settle w s (do_connect w s.conf.nats)

  -- Publish, and its answer.
  unfoldable pub publish_msg : NatsMessage → CoreClient B K → Bool × CoreClient B K
  unfolding offer
  publish_msg m s =
      if s.draining || is_none s.conn
      then (false, s)
      else (let (done, p) = offer m s.pump in (done, record s { pump = p }))

  -- An attempt: the context, the link, and what Publish returns. A closed connection takes nothing.
  unfoldable pub sent_or : CoreClient B K → Answer → Verdict (Unit {0})
  sent_or s ok = if s.linked then delivered else if s.draining then quit else failed tt
  sent_or s closing_error = if s.draining then quit else failed tt
  sent_or s other_error = failed tt

  unfoldable pub try_send : CoreClient B K → Answer → Verdict (Unit {0})
  unfolding sent_or
  try_send s a = if s.ctx_done then quit else if s.connected then sent_or s a else failed tt

  -- After a failed attempt.
  unfoldable pub after_failure : CoreClient B K → Unit {0} → Check
  after_failure s e = if s.draining && not s.connected then give_up else retry

  unfoldable pub send_step : CoreClient B K → Answer → CoreClient B K
  unfolding try_send after_failure work
  send_step s a = record s { pump = work s.queue_size (try_send s a) (after_failure s) s.pump }

  -- Close up to its select.
  unfoldable pub close_up : CoreClient B K → CoreClient B K
  unfolding seal
  close_up s =
      if s.draining
      then s
      else record s { draining = true; drained_subs = s.subs; pump = seal s.pump }

  -- Close behind its select.
  unfoldable pub disconnect_link : CoreClient B K → Bool → CoreClient B K
  disconnect_link s timeout =
      if s.draining && (has_returned s.pump.phase || timeout)
      then record s { linked = false; ctx_done = true }
      else s

  unfoldable pub step : CoreClient B K → Event → CoreClient B K
  unfolding start_up publish_msg send_step close_up disconnect_link
  step s (start w) = (start_up w s).1
  step s connect = if is_none s.conn then s else record s { connected = true }
  step s lost = if is_none s.conn then s else record s { connected = false }
  step s (publish m) = (publish_msg m s).1
  step s (publish_message topic message) =
      (publish_msg (record { topic = topic; reply = ""; header = []; payload = message }) s).1
  step s (send a) = send_step s a
  step s close = close_up s
  step s (disconnect timeout) = disconnect_link s timeout
  step s cancel = record s { ctx_done = true }

  unfoldable pub run : CoreClient B K → List Event → CoreClient B K
  unfolding step
  run s [] = s
  run s (e ∷ es) = run (step s e) es
