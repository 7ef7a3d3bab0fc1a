-- ===== src/Kafka/Session.antt =====
-- The group handler of the Kafka consumer (kafkamq/sub.go, privateConsumerGroupHandler): the offsets
-- that Setup resets, and the loop of ConsumeClaim as the moves of a claim.
pub mod Fits
use kmq_utils.Prelude.{Bool, true, false, ◌&&◌, String, List, [], ◌∷◌, ◌++◌, str_eq, if◌then◌else◌}
use kmq_utils.Prelude.Int.{ℤ, pos, leb_ℤ, is_in}
use kmq_utils.Kafka.Topics.{Topic}
use kmq_utils.Kafka.Producer.{KafkaMessage}

-- Where a claim stands. It spins on a message, has seen open contexts, or has put the message in and
-- not marked it; `over` holds the message that it dropped.
pub data Stand : Type 0 where
  waiting : Stand
  spinning cleared entered : KafkaMessage → Stand
  over : List KafkaMessage → Stand

-- A claim with the messages that it read from its channel, that the queue took, and that it marked.
pub record Claim : Type 0 where
  pub stand : Stand
  pub received : List KafkaMessage
  pub taken : List KafkaMessage
  pub marked : List KafkaMessage

abbrev pub new_claim : Claim
new_claim = record { stand = waiting; received = []; taken = []; marked = [] }

-- The range over the channel.
unfoldable pub receive_one : KafkaMessage → Claim → Claim
receive_one m c = elim c.stand [
  | waiting ↦ record c { stand = spinning m; received = c.received ++ m ∷ [] }
  | _ ↦ c
]

-- The test of the contexts; a message that is not put in ends the claim.
unfoldable pub look_one : Bool → Claim → Claim
look_one stop c = elim c.stand [
  | spinning m ↦ record c { stand = if stop then over (m ∷ []) else cleared m }
  | _ ↦ c
]

-- MarkMessage.
unfoldable pub mark_one : Claim → Claim
mark_one c = elim c.stand [
  | entered m ↦ record c { stand = waiting; marked = c.marked ++ m ∷ [] }
  | _ ↦ c
]

-- The resets of one topic, in the order of its map.
unfoldable pub resets_of : Topic → List ℤ → List (ℤ × ℤ) → List (String × (ℤ × ℤ))
resets_of t claimed [] = []
resets_of t claimed (e ∷ es) =
    let rest = resets_of t claimed es in
    (if is_in e.0 claimed && leb_ℤ (pos 0) e.1 then (t.name, e) ∷ rest else rest)

unfoldable pub resets_by_name : List Topic → String → List ℤ → List (String × (ℤ × ℤ))
unfolding resets_of
resets_by_name [] name claimed = []
resets_by_name (t ∷ ts) name claimed =
    let rest = resets_by_name ts name claimed in
    (if str_eq t.name name then resets_of t claimed t.partition ++ rest else rest)

unfoldable pub resets_for : List Topic → List (String × List ℤ) → List (String × (ℤ × ℤ))
unfolding resets_by_name
resets_for ts [] = []
resets_for ts (c ∷ cs) = resets_by_name ts c.0 c.1 ++ resets_for ts cs
