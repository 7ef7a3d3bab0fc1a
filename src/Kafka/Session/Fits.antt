-- ===== src/Kafka/Session/Fits.antt =====
-- How the histories of a claim of the Kafka consumer hang together (kafkamq/sub.go, ConsumeClaim).
use mathlib.Core.Path.{subst}
use kmq_utils.Prelude.{◌≡◌, Bool, true, false, List, [], ◌∷◌, ◌++◌, arith}
use kmq_utils.Kafka.Producer.{KafkaMessage}
use kmq_utils.Kafka.Session.{
  Stand, waiting, spinning, cleared, entered, over, Claim, receive_one, look_one, mark_one,
}

-- What the three histories of a claim have to do with each other, by where it stands.
abbrev pub Fits : Stand → List KafkaMessage → List KafkaMessage → List KafkaMessage → Type 0
Fits waiting received taken marked = (received ≡ taken) × (taken ≡ marked)
Fits (spinning m) received taken marked = (received ≡ taken ++ m ∷ []) × (taken ≡ marked)
Fits (cleared m) received taken marked = (received ≡ taken ++ m ∷ []) × (taken ≡ marked)
Fits (entered m) received taken marked = (received ≡ taken) × (taken ≡ marked ++ m ∷ [])
Fits (over dropped) received taken marked = (received ≡ taken ++ dropped) × (taken ≡ marked)

abbrev pub IsFitting : Claim → Type 0
IsFitting c = Fits c.stand c.received c.taken c.marked

pub receive_one-IsFitting :
    (m : KafkaMessage) (t : Stand) (r k d : List KafkaMessage)
    → Fits t r k d
    → IsFitting (receive_one m (record { stand = t; received = r; taken = k; marked = d }))
unfolding receive_one
receive_one-IsFitting m waiting r k d v = ground (arith, v)
receive_one-IsFitting m (spinning x) r k d v = v
receive_one-IsFitting m (cleared x) r k d v = v
receive_one-IsFitting m (entered x) r k d v = v
receive_one-IsFitting m (over x) r k d v = v

pub look_one-IsFitting :
    (stop : Bool) (t : Stand) (r k d : List KafkaMessage)
    → Fits t r k d
    → IsFitting (look_one stop (record { stand = t; received = r; taken = k; marked = d }))
unfolding look_one
look_one-IsFitting stop waiting r k d v = v
look_one-IsFitting true (spinning x) r k d v = v
look_one-IsFitting false (spinning x) r k d v = v
look_one-IsFitting stop (cleared x) r k d v = v
look_one-IsFitting stop (entered x) r k d v = v
look_one-IsFitting stop (over x) r k d v = v

pub mark_one-IsFitting :
    (t : Stand) (r k d : List KafkaMessage)
    → Fits t r k d
    → IsFitting (mark_one (record { stand = t; received = r; taken = k; marked = d }))
unfolding mark_one
mark_one-IsFitting waiting r k d v = v
mark_one-IsFitting (spinning x) r k d v = v
mark_one-IsFitting (cleared x) r k d v = v
mark_one-IsFitting (entered x) r k d v = v
mark_one-IsFitting (over x) r k d v = v

pub Fits-as : (t u : Stand) (r k d : List KafkaMessage) → t ≡ u → Fits t r k d → Fits u r k d
Fits-as t u r k d e f = subst (λ x. Fits x r k d) e f
