-- ===== src/Lib.antt =====
-- Verification of kmq-utils: clients of RabbitMQ, MQTT, RocketMQ, NATS, Kafka and Redis over a
-- bounded queue.
--
-- The program. Every producer has the same shape: `Publish` puts a message into a bounded queue, one
-- goroutine takes batches from it and tries each message until it is sent or the goroutine gives up,
-- and `Close` closes the queue, waits for the goroutine for at most 20 seconds and releases the
-- connection. What differs is the test behind a failed attempt, and what ends the goroutine. The
-- consumers either answer each delivery from the handler (RabbitMQ) or put what the library delivers
-- into a queue that a loop hands to the handler (RocketMQ, Kafka), or hand it on at once (NATS, Redis).
-- The publisher of Redis sends batches from the goroutine that also connects.
--
-- Events and schedules. A client is a record of the fields of its struct, and a history of what went
-- in and out. An `Event` is one move of one party: a call of the application, a step of a goroutine, a
-- callback of a library, the expiry of a timer. `step` is the client's answer to an event, `run` the
-- answer to a list of them, so a list is an interleaving of all parties. What a library, the file
-- system or a broker answers is an argument of the event or of the constructor. A read of an atomic
-- flag and a later use of it are two events where a theorem depends on what comes between them, as in
-- the consumers of RocketMQ and Kafka and the publisher of Redis; an attempt to send is one event and
-- the test behind it is another. In the MQTT and NATS clients `Publish` is one event, and `Close` up to
-- its wait is another: a Publish that read the flag before Close and puts its message in before the
-- queue is closed counts as one before Close. A goroutine that is blocked is a step that
-- changes nothing.
--
-- Files and code.
--   Prelude (Tests, Lists, Parties, Int): names of the libraries, Boolean tests, list lemmas, the choice
--     of one goroutine of several, signed integers.
--   RingBuffer: the queue LockedRingBuffer of kutils, a parameter with the laws that the clients rely
--     on: order, refusal when closed, batches from the front, Close keeps the contents.
--   KList: the list of kutils, a parameter in the same way.
--   Pump (Conserved, Justified, Drained, Drops, Quits): the sending goroutine that all producers run,
--     over verdicts that each client computes; what is said of it holds for every producer.
--   Rabbit.Producer, Rabbit.Consumer: rabbitmq/pub.go, rabbitmq/sub.go and their configuration.
--   Mqtt.Client, Mqtt.Config: mqtt/mqtt_client.go, mqtt/config.go.
--   Rocket.Config, Rocket.Removal: rocketmq/config.go; a removal works on the array of a slice, as the
--     loop over the slice does.
--   Rocket.Producer: rocketmq/pub.go. Rocket.Push, Rocket.Pull, with Rocket.Inbox and Rocket.Options,
--     which they share: the two consumers of rocketmq/sub.go.
--   Nats.Config, Nats.Stream: natsmq/config.go, the connection and the clients, and the settings of a
--     stream and of its consumer. Nats.Connect, Nats.Core: natsmq/nats_core.go, the connection of Start
--     and the client. Nats.Setup, Nats.JetStream: natsmq/nats_jetstream.go, what Start asks of the server
--     and the client. Nats.Sender: what both clients promise about sending, an abstract machine that
--     Nats.Core.Sending and Nats.JetStream.Sending compare them with.
--   Kafka.Config (Fields), Kafka.Settings, Kafka.Topics: kafkamq/config_sarama.go. Kafka.Kerberos:
--     kafkamq/kerberos_samara.go. Kafka.Options: what kafkamq/pub.go and kafkamq/sub.go ask of the library. Kafka.Producer:
--     kafkamq/pub.go. Kafka.Session, Kafka.Consumer: kafkamq/sub.go, the group handler with its claims,
--     and the consumer with its goroutines.
--   Redis.Config, Redis.Toolkit, Redis.Publisher, Redis.Subscriber: redismq/config.go,
--     redismq/rediskit.go, redismq/pub.go and redismq/sub.go.
--   Tests: runs of the models on small inputs.
-- The modules below a client say what holds of it: Conserved accounts for every message, Drained is
-- about Close, the others are named for what they are about.
--
-- Bounds. Nothing runs on fuel but the schedules themselves: where an event is repeated a number of
-- times, the number is compared with `budget`, the steps that the goroutine has left with what it has
-- in hand and in the queue, and the theorems show that so many are enough. The loop over a slice in
-- Rocket.Removal runs as often as the slice was long at its start. Numbers that may be negative are
-- the integers of Prelude.Int; the conversions that lose
-- bits, int32(x), uint16(x) and uint(x), are to_int32 and to_word there.
--
-- Assumed of the libraries. A call of Disconnect by the MQTT client calls no handler, and none comes
-- behind it; handlers come for a client that was made; a sent message is one whose send call returned no error, or that the
-- input channel of the Kafka library took; EnqueueBatch puts messages in up to the first refused one.
--
-- Not modelled: log lines and their adapters, what handlers do with a message, the getters of one field,
-- the setters of one field of RabbitMQ, the text of a configuration for logs, sleeps and
-- timeouts but for the expiry that Close waits for. A second call of Start on one Kafka producer, or of
-- SyncSubscribe on one consumer, which would run a second set of goroutines, is left out: where the
-- model reads a second call as no move, the theorems on the RocketMQ consumers ask for one call at most.
-- Start of the MQTT client with its blocking Connect is one event, and so are the calls in Close of the
-- RocketMQ push consumer up to its wait.
pub mod Prelude
pub mod RingBuffer
pub mod Pump
pub mod KList
pub mod Rabbit
pub mod Mqtt
pub mod Rocket
pub mod Kafka
pub mod Nats
pub mod Redis
mod Tests
