-- ===== src/Rocket/Producer.antt =====
-- The RocketMQ producer (rocketmq/pub.go): `Publish` puts a message into the queue, `Start` sends in
-- the goroutine that calls it, `Close` drains and sends synchronously from then on. An event is one
-- move of a party, with the answers of the library as its arguments; every schedule of events is an
-- interleaving. A message goes out once its send call returns no error, which for an asynchronous
-- call only means that the library took it.
-- Not modelled: the log lines.
pub mod Conserved
pub mod Drained
use kmq_utils.Prelude.{
  ℕ, ◌+◌, ◌⊎◌, inl, inr, Bool, true, false, not, ◌&&◌, ◌||◌, String, List, [], ◌∷◌, ◌++◌, Option,
  none, some, str_eq, if◌then◌else◌,
}
use kmq_utils.Prelude.Int.{ℤ}
use kmq_utils.RingBuffer.{RingBuffer}
use kmq_utils.Pump
use kmq_utils.Pump.{
  Pump, Phase, stopped, Verdict, delivered, failed, Check, retry, give_up, offer, seal, begin, work,
  has_returned,
}
use kmq_utils.Rocket.Config.{Config, Credentials}

pub record RocketMessage : Type 0 where
  pub topic : String
  pub message : String
  pub properties : Option (List (String × String))

pub data NewError : Type 0 where
  servers_error queue_error library_error : NewError

-- The options given to rocket.NewProducer.
pub data ProducerOption : Type 0 where
  group_name namespace instance_name : String → ProducerOption
  resolver name_servers : List String → ProducerOption
  credentials : Credentials → ProducerOption
  retry_times send_timeout : ℤ → ProducerOption
  selector : ℕ → ProducerOption
  interceptors : ProducerOption

unless_empty : {A : Type 0} → String → A → List A
unless_empty s a = if str_eq s "" then [] else a ∷ []

credentials_option : Option Credentials → List ProducerOption
credentials_option none = []
credentials_option (some c) = if str_eq c.access_key "" then [] else credentials c ∷ []

unfoldable pub producer_options : Config → List ProducerOption
unfolding unless_empty credentials_option
producer_options conf =
    unless_empty conf.group_name (group_name conf.group_name)
    ++ unless_empty conf.namespace (namespace conf.namespace)
    ++ unless_empty conf.client_id (instance_name conf.client_id)
    ++ (if conf.ns_resolver then resolver conf.servers else name_servers conf.servers)
      ∷ credentials_option conf.credentials
    ++ retry_times conf.producer.retry
      ∷ send_timeout conf.producer.timeout
      ∷ selector conf.producer.queue_selector
      ∷ interceptors
      ∷ []

pub record Producer (B : RingBuffer RocketMessage) : Type 0 where
  pub conf : Config
  pub started : Bool
  pub draining : Bool
  pub ctx_done : Bool
  pub shut_down : Bool  -- Shutdown was called
  pub exited : Bool  -- the deferred function of Start has run
  pub ready_calls : ℕ
  pub error_calls : ℕ
  pub exit_calls : ℕ
  pub queue_size : ℕ
  pub pump : Pump B (Unit {0})

-- How a message is handed to the library.
pub data Route : Type 0 where
  send_sync send_async : Route

pub data Event : Type 0 where
  publish : RocketMessage → Event
  publish_message : String → String → Event
  publish_data : String → String → List (String × String) → Event
  start : Event
  enter : Event  -- Start goes on behind its sleep
  send : (Route → Bool) → Event  -- a step of Start's loop; which calls return no error
  report : Event  -- the library calls the function of a SendAsync with an error
  exit : Event  -- the deferred function of Start
  close : Event
  release : Bool → Event  -- Close behind its select; the argument says that 20 seconds passed
  cancel : Event  -- the application cancels the context

is_sending : Phase RocketMessage (Unit {0}) → Bool
is_sending (Pump.sending m rest) = true
is_sending _ = false

is_stopped : Phase RocketMessage (Unit {0}) → Bool
is_stopped (stopped lost) = true
is_stopped _ = false

module _ {B : RingBuffer RocketMessage} where
  fresh : B.Buf → ℕ → Config → Producer B
  unfolding Pump.new
  fresh q size conf = record {
    conf = conf;
    started = false;
    draining = false;
    ctx_done = false;
    shut_down = false;
    exited = false;
    ready_calls = 0;
    error_calls = 0;
    exit_calls = 0;
    queue_size = size;
    pump = Pump.new q;
  }

  -- NewProducer. The arguments before `size` answer for NewNamesrvAddr, NewLockedRingBuffer and
  -- rocket.NewProducer.
  unfoldable pub new_producer :
      (List String → Bool)
      → Option B.Buf
      → (List ProducerOption → Bool)
      → ℕ
      → Config
      → NewError ⊎ Producer B
  unfolding fresh producer_options
  new_producer addresses q library size conf =
      if not conf.ns_resolver && not (addresses conf.servers) then inl servers_error else elim q [
        | none ↦ inl queue_error
        | some b ↦
            (if library (producer_options conf) then inr (fresh b size conf) else inl library_error)
      ]

  -- Publish, and its answer.
  unfoldable pub publish_msg : RocketMessage → Producer B → Bool × Producer B
  unfolding offer
  publish_msg m s = let (done, p) = offer m s.pump in (done, record s { pump = p })

  -- Start up to its sleep.
  unfoldable pub start_up : Producer B → Producer B
  start_up s = if s.started then s else record s {
    started = true;
    ready_calls = if s.conf.on_ready then s.ready_calls + 1 else s.ready_calls;
  }

  -- wg.Add(1), and the loop is entered.
  unfoldable pub enter_loop : Producer B → Producer B
  unfolding begin
  enter_loop s = if s.started then record s { pump = begin s.pump } else s

  -- drainPublish while draining, publish otherwise.
  unfoldable pub route : Producer B → Route
  route s =
      if s.draining then send_sync else if s.conf.producer.async_send then send_async else send_sync

  unfoldable pub try_send : Producer B → (Route → Bool) → Verdict (Unit {0})
  unfolding route
  try_send s answer = if answer (route s) then delivered else failed tt

  -- The calls of OnError: a synchronous send that failed.
  unfoldable pub errors_after : Producer B → (Route → Bool) → ℕ
  unfolding is_sending route
  errors_after s answer = elim (route s) [
    | send_async ↦ s.error_calls
    | send_sync ↦
        (if is_sending s.pump.phase && (not (answer send_sync) && s.conf.on_error)
          then s.error_calls + 1
          else s.error_calls)
  ]

  -- After a failed attempt.
  unfoldable pub after_failure : Producer B → Unit {0} → Check
  after_failure s e = if s.ctx_done || s.draining then give_up else retry

  unfoldable pub send_step : Producer B → (Route → Bool) → Producer B
  unfolding try_send after_failure errors_after work
  send_step s answer = record s {
    error_calls = errors_after s answer;
    pump = work s.queue_size (try_send s answer) (after_failure s) s.pump;
  }

  -- The deferred function of Start.
  unfoldable pub exit_loop : Producer B → Producer B
  unfolding is_stopped
  exit_loop s =
      if is_stopped s.pump.phase && not s.exited
      then record s {
        exited = true;
        exit_calls = if s.conf.on_exit then s.exit_calls + 1 else s.exit_calls;
      }
      else s

  -- Close up to its select.
  unfoldable pub close_up : Producer B → Producer B
  unfolding seal
  close_up s = if s.draining then s else record s { draining = true; pump = seal s.pump }

  -- Close behind its select.
  unfoldable pub release_link : Producer B → Bool → Producer B
  release_link s timeout =
      if s.draining && (has_returned s.pump.phase || timeout)
      then record s { shut_down = true; ctx_done = true }
      else s

  unfoldable pub step : Producer B → Event → Producer B
  unfolding publish_msg start_up enter_loop send_step exit_loop close_up release_link
  step s (publish m) = (publish_msg m s).1
  step s (publish_message topic message) =
      (publish_msg (record { topic = topic; message = message; properties = none }) s).1
  step s (publish_data topic message props) =
      (publish_msg (record { topic = topic; message = message; properties = some props }) s).1
  step s start = start_up s
  step s enter = enter_loop s
  step s (send answer) = send_step s answer
  step s report = record s {
    error_calls = if s.conf.on_error then s.error_calls + 1 else s.error_calls;
  }
  step s exit = exit_loop s
  step s close = close_up s
  step s (release timeout) = release_link s timeout
  step s cancel = record s { ctx_done = true }

  unfoldable pub run : Producer B → List Event → Producer B
  unfolding step
  run s [] = s
  run s (e ∷ es) = run (step s e) es
