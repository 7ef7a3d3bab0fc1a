-- ===== src/Nats/JetStream.antt =====
-- The JetStream client of NATS (natsmq/nats_jetstream.go): `Start` connects, sets up the stream, its
-- consumer and the subscriptions, `Publish` puts a message into the queue, a goroutine publishes and
-- waits for the acknowledgement of the server, received messages go to the handler, `Close` drains.
-- Events, schedules and attempts are those of the core client; see Core.
-- Not modelled: the log lines, what the handler does, and the warning on a duplicate.
pub mod Conserved
pub mod Sending
pub mod Starting
use kmq_utils.Prelude.{
  ℕ, zero, suc, ◌+◌, ◌-◌, ◌⊎◌, inl, inr, Bool, true, false, not, ◌&&◌, ◌||◌, String, Option, none,
  some, List, [], ◌∷◌, ◌++◌, str_eq, is_none, if◌then◌else◌,
}
use kmq_utils.Prelude.Int.{ℤ}
use kmq_utils.RingBuffer.{RingBuffer}
use kmq_utils.KList.{KList}
use kmq_utils.Pump
use kmq_utils.Pump.{
  Pump, Verdict, delivered, failed, quit, Check, retry, give_up, offer, seal, begin, work,
  has_returned,
}
use kmq_utils.Nats.Config.{Config}
use kmq_utils.Nats.Connect.{Options}
use kmq_utils.Nats.Core.{NatsMessage, Answer, ok, closing_error, other_error}
use kmq_utils.Nats.Setup.{
  World, StartError, connect_error, Connection, refused, half, full, do_connect, SyncFailure,
  sync_error, sync_panic, Synced, sync_subscriptions, ConsumerRequest,
}
use kmq_utils.Nats.Stream.{StreamConfig, ConsumerConfig}

pub data NewError : Type 0 where
  stream_missing queue_error : NewError

-- How Start ends.
pub data Outcome : Type 0 where
  ready panicked : Outcome
  failing : StartError → Outcome

pub record JetStreamClient (B : RingBuffer NatsMessage) (K : KList String) : Type 0 where
  pub conf : Config K
  pub settings : StreamConfig K  -- conf.JetStream()
  pub conn : Option Options  -- the connection, by its options
  pub linked : Bool  -- the connection is not closed
  pub open_conns : ℕ  -- connections that were opened and not closed
  pub stream : Option (StreamConfig K)
  pub subs : List String  -- the topics of the map
  pub drained_subs : List String
  pub made : List ConsumerRequest  -- consumers added to the server, the latest first
  pub connected : Bool
  pub draining : Bool
  pub started : Bool
  pub ready_done : Bool  -- readyOnce
  pub ready_calls : ℕ
  pub error_calls : ℕ
  pub ctx_done : Bool
  pub timestamp : ℤ
  pub handled : List (NatsMessage × ℤ)  -- with the sequence of the metadata
  pub acked : List NatsMessage
  pub queue_size : ℕ
  pub pump : Pump B (Unit {0})

pub data Event (K : KList String) : Type 0 where
  start : World K → Event K
  connect : Event K  -- ConnectHandler
  lost : Event K  -- DisconnectHandler
  deliver : NatsMessage → Option ℤ → Event K  -- a message, and the timestamp of its metadata
  ack : NatsMessage → Event K  -- NatsMessage.Ack of a received message
  publish : NatsMessage → Event K
  publish_message : String → String → Event K
  send : Answer → Event K  -- a step of the sending goroutine
  close : Event K
  disconnect : Bool → Event K  -- Close behind its select; the argument says that 20 seconds passed
  cancel : Event K  -- the application cancels the context

-- The consumer's AutoCommit is AUTO_COMMIT_NATIVE.
unfoldable pub is_native : Option ConsumerConfig → Bool
is_native none = false
is_native (some k) = str_eq k.auto_commit "native"

counts_error : StartError → Bool
counts_error connect_error = true
counts_error _ = false

pub add_made : Option ConsumerRequest → List ConsumerRequest → List ConsumerRequest
add_made none rs = rs
add_made (some r) rs = r ∷ rs

module _ {B : RingBuffer NatsMessage} {K : KList String} where
  fresh : B.Buf → ℕ → ℤ → Config K → StreamConfig K → JetStreamClient B K
  unfolding Pump.new
  fresh q size timestamp conf settings = record {
    conf = conf;
    settings = settings;
    conn = none;
    linked = false;
    open_conns = 0;
    stream = none;
    subs = [];
    drained_subs = [];
    made = [];
    connected = false;
    draining = false;
    started = false;
    ready_done = false;
    ready_calls = 0;
    error_calls = 0;
    ctx_done = false;
    timestamp = timestamp;
    handled = [];
    acked = [];
    queue_size = size;
    pump = Pump.new q;
  }

  with_queue :
      Option B.Buf → ℕ → ℤ → Config K → Option (StreamConfig K) → NewError ⊎ JetStreamClient B K
  unfolding fresh
  with_queue q size timestamp conf none = inl stream_missing
  with_queue none size timestamp conf (some c) = inl queue_error
  with_queue (some b) size timestamp conf (some c) = inr (fresh b size timestamp conf c)

  -- NewNatsJetStreamClient; the queue is the answer of NewLockedRingBuffer.
  unfoldable pub new_client : Option B.Buf → ℕ → ℤ → Config K → NewError ⊎ JetStreamClient B K
  unfolding with_queue
  new_client q size timestamp conf = with_queue q size timestamp conf conf.jet_stream

  -- Start behind syncSubscriptions.
  unfoldable pub launch : JetStreamClient B K → JetStreamClient B K
  unfolding begin
  launch s = record s {
    started = true;
    ready_done = true;
    ready_calls = if not s.ready_done && s.conf.on_ready then s.ready_calls + 1 else s.ready_calls;
    pump = begin s.pump;
  }

  -- The client with a new connection, and with what Start did to the server.
  with_connection : Options → JetStreamClient B K → JetStreamClient B K
  with_connection o s = record s { conn = some o; linked = true; open_conns = s.open_conns + 1 }

  with_setup : Option (StreamConfig K) → Bool → Synced → JetStreamClient B K → JetStreamClient B K
  unfolding add_made
  with_setup st up y s = record s {
    stream = st;
    connected = if up then true else s.connected;
    subs = y.subs;
    made = add_made y.made s.made;
  }

  -- An error behind doConnect closes the connection; one inside it does not.
  finish : Option SyncFailure → JetStreamClient B K → Outcome × JetStreamClient B K
  unfolding launch
  finish none s = (ready, launch s)
  finish (some (sync_error e)) s =
      (failing e, record s { linked = false; open_conns = s.open_conns - 1; started = false })
  finish (some sync_panic) s = (panicked, record s { started = true })

  settle : World K → JetStreamClient B K → Connection K → Outcome × JetStreamClient B K
  unfolding counts_error with_connection with_setup finish sync_subscriptions
  settle w s (refused e) = (
    failing e,
    record s {
      started = false;
      error_calls = if counts_error e && s.conf.on_error then s.error_calls + 1 else s.error_calls;
    },
  )
  settle w s (half o e) = (failing e, record (with_connection o s) { started = false })
  settle w s (full o st) =
      let y = sync_subscriptions w s.timestamp s.settings s.subs in
      finish y.failure (with_setup st w.is_connected y (with_connection o s))

  -- Start, and how it ends.
  unfoldable pub start_up : World K → JetStreamClient B K → Outcome × JetStreamClient B K
  unfolding settle do_connect
  start_up w s = if s.started then (ready, s) else settle w s (do_connect w s.conf.nats s.settings)

  -- The function given to the subscriptions.
  unfoldable pub on_message : NatsMessage → Option ℤ → JetStreamClient B K → JetStreamClient B K
  unfolding is_native
  on_message m none s =
      if s.settings.has_handler
      then s
      else record s { acked = if is_native s.settings.consumer then s.acked ++ m ∷ [] else s.acked }
  on_message m (some seq) s = record s {
    handled = if s.settings.has_handler then s.handled ++ (m, seq) ∷ [] else s.handled;
    acked = if is_native s.settings.consumer then s.acked ++ m ∷ [] else s.acked;
  }

  -- Publish, and its answer.
  unfoldable pub publish_msg : NatsMessage → JetStreamClient B K → Bool × JetStreamClient B K
  unfolding offer
  publish_msg m s =
      if s.draining || is_none s.conn
      then (false, s)
      else (let (done, p) = offer m s.pump in (done, record s { pump = p }))

  -- publishData, and what its error means. A closed connection takes nothing.
  sent_or : JetStreamClient B K → Answer → Verdict (Unit {0})
  sent_or s ok = if s.linked then delivered else if s.draining then quit else failed tt
  sent_or s closing_error = if s.draining then quit else failed tt
  sent_or s other_error = failed tt

  -- An attempt: the context, the link, and what publishData returns.
  unfoldable pub try_send : JetStreamClient B K → Answer → Verdict (Unit {0})
  unfolding sent_or
  try_send s a = if s.ctx_done then quit else if s.connected then sent_or s a else failed tt

  -- After a failed attempt.
  unfoldable pub after_failure : JetStreamClient B K → Unit {0} → Check
  after_failure s e = if s.draining && not s.connected then give_up else retry

  unfoldable pub send_step : JetStreamClient B K → Answer → JetStreamClient B K
  unfolding try_send after_failure work
  send_step s a = record s { pump = work s.queue_size (try_send s a) (after_failure s) s.pump }

  -- Close up to its select.
  unfoldable pub close_up : JetStreamClient B K → JetStreamClient B K
  unfolding seal
  close_up s =
      if s.draining
      then s
      else record s { draining = true; drained_subs = s.subs; pump = seal s.pump }

  -- Close behind its select.
  unfoldable pub disconnect_link : JetStreamClient B K → Bool → JetStreamClient B K
  disconnect_link s timeout =
      if s.draining && (has_returned s.pump.phase || timeout)
      then record s {
        linked = false;
        open_conns = if s.linked then s.open_conns - 1 else s.open_conns;
        ctx_done = true;
      }
      else s

  unfoldable pub step : JetStreamClient B K → Event K → JetStreamClient B K
  unfolding start_up on_message publish_msg send_step close_up disconnect_link
  step s (start w) = (start_up w s).1
  step s connect = if is_none s.conn then s else record s { connected = true }
  step s lost = if is_none s.conn then s else record s { connected = false }
  step s (deliver m meta) = on_message m meta s
  step s (ack m) = record s { acked = s.acked ++ m ∷ [] }
  step s (publish m) = (publish_msg m s).1
  step s (publish_message topic message) =
      (publish_msg (record { topic = topic; reply = ""; header = []; payload = message }) s).1
  step s (send a) = send_step s a
  step s close = close_up s
  step s (disconnect timeout) = disconnect_link s timeout
  step s cancel = record s { ctx_done = true }

  unfoldable pub run : JetStreamClient B K → List (Event K) → JetStreamClient B K
  unfolding step
  run s [] = s
  run s (e ∷ es) = run (step s e) es
