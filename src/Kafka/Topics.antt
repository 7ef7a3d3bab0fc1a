-- ===== src/Kafka/Topics.antt =====
-- The topics of a Kafka configuration with the offset of each partition, and their look-up at the
-- brokers (kafkamq/config_sarama.go, Topic and QueryTopics). A map is a list of pairs in the order of
-- its iteration, with one pair for a key; a missing key reads as 0, as in the source.
pub mod Resolved
use kmq_utils.Prelude.{Bool, true, String, Option, none, some, List, [], ◌∷◌, map, if◌then◌else◌}
use kmq_utils.Prelude.Int.{ℤ, pos, negsuc, eqb_ℤ, ltb_ℤ}

pub record Topic : Type 0 where
  pub name : String
  pub partition : List (ℤ × ℤ)

-- KAFKA_OFFSET_NEWEST, KAFKA_OFFSET_OLDEST.
abbrev pub offset_newest : ℤ
offset_newest = negsuc 0

abbrev pub offset_oldest : ℤ
offset_oldest = negsuc 1

-- What the client of the library answers: Partitions, and GetOffset by topic, partition and time.
pub record Brokers : Type 0 where
  pub partitions : String → Option (List ℤ)
  pub get_offset : String → ℤ → ℤ → ℤ

-- A read of the map, and a write to it.
unfoldable pub offset_at : ℤ → List (ℤ × ℤ) → ℤ
offset_at p [] = pos 0
offset_at p (e ∷ es) = if eqb_ℤ e.0 p then e.1 else offset_at p es

unfoldable pub put_offset : ℤ → ℤ → List (ℤ × ℤ) → List (ℤ × ℤ)
put_offset p o [] = (p, o) ∷ []
put_offset p o (e ∷ es) =
    let rest = put_offset p o es in (if eqb_ℤ e.0 p then (p, o) ∷ es else e ∷ rest)

unfoldable pub new_topic : String → Topic
new_topic name = record { name = name; partition = (pos 0, offset_newest) ∷ [] }

unfoldable pub set_offset : ℤ → ℤ → Topic → Topic
unfolding put_offset
set_offset partition offset t = record t {
  partition =
      put_offset partition (if ltb_ℤ offset offset_oldest then offset_oldest else offset)
        t.partition;
}

-- The switch of QueryTopics.
unfoldable pub query_partition : Brokers → ℤ → Topic → Topic
unfolding set_offset offset_at
query_partition b p t =
    if eqb_ℤ (offset_at p t.partition) offset_newest
    then set_offset p (b.get_offset t.name p offset_newest) t
    else if eqb_ℤ (offset_at p t.partition) offset_oldest
    then set_offset p (b.get_offset t.name p offset_oldest) t
    else t

unfoldable pub query_partitions : Brokers → List ℤ → Topic → Topic
unfolding query_partition
query_partitions b [] t = t
query_partitions b (p ∷ ps) t = query_partitions b ps (query_partition b p t)

unfoldable pub query_topic : Brokers → Topic → Topic
unfolding query_partitions
query_topic b t = elim (b.partitions t.name) [ none ↦ t | some ps ↦ query_partitions b ps t ]

unfoldable pub query_topics : Brokers → List Topic → List Topic
unfolding query_topic
query_topics b ts = map (query_topic b) ts
