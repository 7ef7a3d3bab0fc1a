-- ===== src/Kafka/Topics/Resolved.antt =====
-- What the look-up at the brokers makes of the offsets of a topic (kafkamq/config_sarama.go,
-- SetOffset and QueryTopics).
use kmq_utils.Prelude.{
  ◌≡◌, refl, inl, inr, true, Bool-cases, String, some, List, [], ◌∷◌, arith, if◌then◌else◌,
}
use kmq_utils.Prelude.Int.{ℤ, pos, ◌≤ℤ◌, eqb_ℤ, eqb_ℤ-eq, is_in}
use kmq_utils.Kafka.Topics.{
  Topic, Brokers, offset_newest, offset_oldest, offset_at, put_offset, set_offset, query_partition,
  query_partitions, query_topic,
}

eqb_ℤ-refl : (a : ℤ) → eqb_ℤ a a ≡ true
eqb_ℤ-refl a = ground arith

offset_at-put :
    (q p o : ℤ) (m : List (ℤ × ℤ))
    → offset_at q (put_offset p o m) ≡ (if eqb_ℤ p q then o else offset_at q m)
unfolding offset_at put_offset
offset_at-put q p o [] = refl
offset_at-put q p o ((k, v) ∷ m) = elim (Bool-cases (eqb_ℤ k p)) [
  | inl e ↦ ground (arith, eqb_ℤ-eq k p e)
  | inr e ↦ ground (arith, offset_at-put q p o m)
]

-- The offset that a look-up makes of a configured one.
unfoldable pub resolved : Brokers → String → ℤ → ℤ → ℤ
resolved b name p o =
    if eqb_ℤ o offset_newest
    then b.get_offset name p offset_newest
    else if eqb_ℤ o offset_oldest
    then b.get_offset name p offset_oldest
    else o

module _ (b : Brokers)
    (real : (name : String) (p time : ℤ) → pos 0 ≤ℤ b.get_offset name p time) where
  resolved-again :
      (name : String) (p o : ℤ) → resolved b name p (resolved b name p o) ≡ resolved b name p o
  unfolding resolved
  resolved-again name p o = ground (arith, real name p offset_newest, real name p offset_oldest)

  query_partition-name : (p : ℤ) (t : Topic) → (query_partition b p t).name ≡ t.name
  unfolding query_partition set_offset
  query_partition-name p t = ground arith

  put_resolved :
      (q p o : ℤ) (t : Topic)
      → pos 0 ≤ℤ o
      → offset_at q (set_offset p o t).partition
        ≡ (if eqb_ℤ p q then o else offset_at q t.partition)
  unfolding set_offset
  put_resolved q p o t h = ground (arith, offset_at-put q p o t.partition, h)

  offset_at-query_partition :
      (q p : ℤ) (t : Topic)
      → offset_at q (query_partition b p t).partition ≡ (
          if eqb_ℤ p q
          then resolved b t.name q (offset_at q t.partition)
          else offset_at q t.partition)
  unfolding query_partition resolved
  offset_at-query_partition q p t = ground (
    arith,
    eqb_ℤ-eq p q,
    put_resolved q p (b.get_offset t.name p offset_newest) t (real t.name p offset_newest),
    put_resolved q p (b.get_offset t.name p offset_oldest) t (real t.name p offset_oldest),
  )

  offset_at-query_partitions :
      (q : ℤ) (ps : List ℤ) (t : Topic)
      → offset_at q (query_partitions b ps t).partition ≡ (
          if is_in q ps
          then resolved b t.name q (offset_at q t.partition)
          else offset_at q t.partition)
  unfolding query_partitions
  offset_at-query_partitions q [] t = refl
  offset_at-query_partitions q (p ∷ ps) t =
      let t' = query_partition b p t in
      ground (
        arith,
        offset_at-query_partitions q ps t',
        query_partition-name p t,
        offset_at-query_partition q p t,
        resolved-again t.name q (offset_at q t.partition),
      )

  -- Where the brokers answer with offsets from 0 on and know the partitions ps of the topic, the
  -- look-up replaces "newest" and "oldest" by the answer for each partition among ps, however often
  -- ps names it, and keeps each other offset, also that of a partition that is not among ps.
  pub query_topic_offsets :
      (q : ℤ) (ps : List ℤ) (t : Topic)
      → b.partitions t.name ≡ some ps
      → offset_at q (query_topic b t).partition ≡ (
          if is_in q ps
          then resolved b t.name q (offset_at q t.partition)
          else offset_at q t.partition)
  unfolding query_topic
  query_topic_offsets q ps t h = rw (h, query_topic) (offset_at-query_partitions q ps t)
