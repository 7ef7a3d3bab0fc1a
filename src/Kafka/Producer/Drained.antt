-- ===== src/Kafka/Producer/Drained.antt =====
-- Closing the Kafka producer sends every accepted message, ends Start, and then closes the library's
-- producer.
use kmq_utils.Prelude.{true}
use kmq_utils.RingBuffer.{RingBuffer}
use kmq_utils.Pump.{seal}
use kmq_utils.Kafka.Producer.{KafkaMessage, AsyncProducer}

module _ {B : RingBuffer KafkaMessage} where
  closing : AsyncProducer B → AsyncProducer B
  closing s = record s { closing = true; ctx_done = true; pump = seal s.pump }
