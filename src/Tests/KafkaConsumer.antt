-- ===== src/Tests/KafkaConsumer.antt =====
-- Runs of the Kafka consumer, its topics and its configuration.
use kmq_utils.Prelude.{
  ◌≡◌, ◌&&◌, refl, inr, true, false, String, List, [], ◌∷◌, ◌++◌, some, none, arith, if◌then◌else◌,
}
use kmq_utils.Prelude.Int.{ℤ, pos, negsuc, ◌≤ℤ◌, is_in}
use kmq_utils.RingBuffer.{RingBuffer, Items, bounded, bounded-Laws}
use kmq_utils.Kafka.Config
use kmq_utils.Kafka.Config.Known
use kmq_utils.Kafka.Topics
use kmq_utils.Kafka.Topics.{Topic, Brokers, offset_at}
use kmq_utils.Kafka.Topics.Resolved
use kmq_utils.Kafka.Topics.Resolved.{query_topic_offsets}
use kmq_utils.Kafka.Producer.{KafkaMessage}
use kmq_utils.Kafka.Kerberos.{parse_principal}
use kmq_utils.Kafka.Kerberos.Principal.{IsPlain, joined, parse_principal-joined}
use kmq_utils.Kafka.Session.{new_claim, resets_for}
use kmq_utils.Kafka.Session.Fits.{IsFitting}
use kmq_utils.Kafka.Consumer
use kmq_utils.Kafka.Consumer.{
  ConsumerGroup, Callbacks, Event, subscribe, setup, receive, look, enter, mark, work, close,
  cancel, holding, blocked,
}
use kmq_utils.Kafka.Consumer.Claims.{in_hand, consumer_accounts}
use kmq_utils.Kafka.Consumer.Late.{late_message_lost}
use kmq_utils.Kafka.Consumer.Setup.{asks, has_claim, listed, resets_once}
use kmq_utils.Kafka.Consumer.Shutdown.{ending}

abbrev queue : RingBuffer KafkaMessage
queue = bounded 2

abbrev empty : Items KafkaMessage
empty = record { items = []; closed = false }

abbrev message : ℤ → KafkaMessage
message offset = record {
  topic = "t";
  partition = pos 0;
  offset = offset;
  headers = [];
  key = "";
  value = "v";
}

abbrev brokers : Brokers
brokers = record {
  partitions = λ name. some (pos 0 ∷ pos 1 ∷ pos 0 ∷ []);
  get_offset = λ name p time. pos 40;
}

-- Partition 1 is not named by the topic.
abbrev topic : Topic
topic = record { name = "t"; partition = (pos 0, negsuc 0) ∷ (pos 2, negsuc 1) ∷ [] }

real : (name : String) (p time : ℤ) → pos 0 ≤ℤ brokers.get_offset name p time
real name p time = omega arith

query_topic_offsets_example : offset_at (pos 0) (Topics.query_topic brokers topic).partition ≡ (
    if is_in (pos 0) (pos 0 ∷ pos 1 ∷ pos 0 ∷ [])
    then Resolved.resolved brokers "t" (pos 0) (offset_at (pos 0) topic.partition)
    else offset_at (pos 0) topic.partition)
query_topic_offsets_example =
    query_topic_offsets brokers real (pos 0) (pos 0 ∷ pos 1 ∷ pos 0 ∷ []) topic refl

queried : (Topics.query_topic brokers topic).partition ≡ (pos 0, pos 40) ∷ (pos 2, negsuc 1) ∷ []
unfolding Topics.query_topic
queried = refl

abbrev some_calls : List Known.ConsumerCall
some_calls = Known.assignor "sticky" ∷ Known.assignor "best" ∷ Known.manual_commit ∷ []

chosen : (Known.calls Config.new_consumer some_calls).assignor ≡ "range"
unfolding Known.calls Config.new_consumer
chosen = refl

abbrev conf : Callbacks
conf = record { on_ready = true; on_exit = true }

abbrev resolved_topic : Topic
resolved_topic = record { name = "t"; partition = (pos 0, pos 40) ∷ (pos 2, negsuc 1) ∷ [] }

abbrev made : ConsumerGroup queue
made = record {
  conf = conf;
  topics = resolved_topic ∷ [];
  queue = empty;
  buffer_size = 2;
  ctx_done = false;
  tmp_done = false;
  consuming = false;
  paused = false;
  open_group = true;
  setup_done = false;
  resets = [];
  claims = λ id. new_claim;
  phase = Consumer.fresh;
  worker = Consumer.absent;
  accepted = [];
  handled = [];
  ready_calls = 0;
  exit_calls = 0;
  acked = [];
  closing = false;
  removed = false;
}

made_new :
    Consumer.new_group {B = queue} true (some brokers) true (some empty) 2 (topic ∷ []) conf
    ≡ inr made
unfolding Consumer.new_group Topics.query_topics Topics.query_topic
made_new = refl

-- Two claims fill the queue and a third message waits.
abbrev filled : List Event
filled =
    subscribe
    ∷ receive 0 (message (pos 40))
    ∷ receive 1 (message (pos 7))
    ∷ look 0 false
    ∷ look 1 false
    ∷ enter 1
    ∷ enter 0
    ∷ mark 0
    ∷ receive 0 (message (pos 41))
    ∷ look 0 false
    ∷ enter 0
    ∷ []

filled_marks :
    let t = Consumer.run made filled in
    (t.accepted ≡ message (pos 7) ∷ message (pos 40) ∷ [])
    × ((t.claims 0).marked ≡ message (pos 40) ∷ [])
    × ((t.claims 1).marked ≡ [])
unfolding Consumer.run
filled_marks = (refl, refl, refl)

consumer_accounts_example :
    let t = Consumer.run made filled in
    (t.accepted ≡ t.handled ++ (in_hand t.worker ++ queue.contents t.queue))
    × IsFitting (t.claims 0)
consumer_accounts_example =
    consumer_accounts {B = queue} (bounded-Laws 2) true true brokers empty 2 (topic ∷ []) conf made
      filled 0 made_new refl

abbrev started : ConsumerGroup queue
started = Consumer.run made (subscribe ∷ [])

abbrev second_session : List (String × List ℤ)
second_session = ("t", pos 2 ∷ []) ∷ []

abbrev one_reset : String × (ℤ × ℤ)
one_reset = ("t", (pos 0, pos 40))

abbrev one_claim : List (String × List ℤ)
one_claim = ("t", pos 0 ∷ []) ∷ []

resets_once_example :
    let t = Consumer.run started (setup one_claim ∷ setup second_session ∷ []) in
    (t.resets ≡ resets_for (resolved_topic ∷ []) one_claim)
    × (listed one_reset t.resets
        ≡ (asks (resolved_topic ∷ []) one_reset && (has_claim one_claim "t" (pos 0) && true)))
unfolding Consumer.run
resets_once_example =
    resets_once {B = queue} one_claim started (setup second_session ∷ []) one_reset refl refl refl

reset_one : resets_for (resolved_topic ∷ []) one_claim ≡ one_reset ∷ []
unfolding resets_for
reset_one = refl

abbrev loaded : ConsumerGroup queue
loaded = Consumer.run made filled

-- A claim behind its test of the contexts.
abbrev racing : ConsumerGroup queue
racing = Consumer.run made (subscribe ∷ receive 3 (message (pos 9)) ∷ look 3 false ∷ [])

late_message_lost_example :
    let t = Consumer.run racing (cancel ∷ work ∷ work ∷ enter 3 ∷ mark 3 ∷ []) in
    ((t.claims 3).marked ≡ (racing.claims 3).marked ++ message (pos 9) ∷ [])
    × ((Consumer.run t (work ∷ ending)).handled ≡ racing.handled)
unfolding Consumer.run
late_message_lost_example =
    late_message_lost {B = queue} (bounded-Laws 2) (message (pos 9)) 3 racing (work ∷ ending) refl
      refl refl refl refl

-- The message is in the queue before Close, and is never given to the handler.
accepted_stays :
    let t = Consumer.run racing (work ∷ enter 3 ∷ mark 3 ∷ close ∷ work ∷ work ∷ ending) in
    (t.accepted ≡ message (pos 9) ∷ []) × (t.handled ≡ []) × (t.removed ≡ true)
unfolding Consumer.run
accepted_stays = (refl, refl, refl)

parse_principal-joined_example :
    (parse_principal (joined "jt" "TDH") ≡ some ("jt", "TDH"))
    × (parse_principal "jt" ≡ none)
    × (parse_principal (joined "jt" (joined "TDH" "x@y")) ≡ none)
unfolding IsPlain
parse_principal-joined_example =
    parse_principal-joined "jt" "TDH" "x@y" (refl, (refl, tt)) (refl, (refl, (refl, tt)))
