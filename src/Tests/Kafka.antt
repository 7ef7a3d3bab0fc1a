-- ===== src/Tests/Kafka.antt =====
-- Runs of the Kafka producer.
use kmq_utils.Prelude.{◌≡◌, refl, inr, true, false, List, [], ◌∷◌, some, arith}
use kmq_utils.Prelude.Int.{pos}
use kmq_utils.RingBuffer.{RingBuffer, Items, bounded, bounded-Laws}
use kmq_utils.Pump.{idle, sending}
use kmq_utils.Kafka.Producer
use kmq_utils.Kafka.Producer.{
  KafkaMessage, AsyncProducer, Event, publish, publish_array, start, send, stop_reports, leave,
  close, release,
}
use kmq_utils.Kafka.Producer.Conserved.{kafka_exit_drained}

abbrev queue : RingBuffer KafkaMessage
queue = bounded 2

abbrev empty : Items KafkaMessage
empty = record { items = []; closed = false }

abbrev first : KafkaMessage
first = record {
  topic = "t";
  partition = pos 0;
  offset = pos 0;
  headers = [];
  key = "k";
  value = "1";
}

abbrev second : KafkaMessage
second = record {
  topic = "t";
  partition = pos 0;
  offset = pos 0;
  headers = [];
  key = "k";
  value = "2";
}

abbrev made : AsyncProducer queue
made = record {
  conf = record { on_error = true; on_ready = true; on_exit = true };
  ctx_done = false;
  started = false;
  exited = false;
  reports_done = false;
  closing = false;
  open_producer = true;
  ready_calls = 0;
  exit_calls = 0;
  error_calls = 0;
  queue_size = 2;
  pump = record { queue = empty; phase = idle; accepted = []; sent = [] };
}

made_new : Producer.new_producer {B = queue} true true (some empty) 2 made.conf ≡ inr made
unfolding Producer.new_producer
made_new = refl

-- A batch of three goes into a queue for two, which PublishArray takes for a success.
overfull : Producer.publish_all (first ∷ second ∷ first ∷ []) made ≡ (
  true,
  record made {
    pump = record made.pump {
      queue = record empty { items = first ∷ second ∷ [] };
      accepted = first ∷ second ∷ [];
    };
  },
)
unfolding Producer.publish_all
overfull = refl

abbrev closed_run : List Event
closed_run =
    start
    ∷ publish first
    ∷ send
    ∷ publish second
    ∷ close
    ∷ send
    ∷ send
    ∷ send
    ∷ send
    ∷ stop_reports
    ∷ leave
    ∷ release
    ∷ []

exits : (Producer.run made closed_run).exited ≡ true
unfolding Producer.run
exits = refl

kafka_exit_drained_example :
    (Producer.run made closed_run).pump.sent ≡ (Producer.run made closed_run).pump.accepted
kafka_exit_drained_example =
    kafka_exit_drained {B = queue} (bounded-Laws 2) true true empty 2 made.conf made closed_run
      made_new refl (omega arith) exits

abbrev loaded : AsyncProducer queue
loaded = record made {
  started = true;
  pump = record {
    queue = record empty { items = second ∷ [] };
    phase = sending first [];
    accepted = first ∷ second ∷ [];
    sent = [];
  };
}
