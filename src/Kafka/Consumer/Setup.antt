-- ===== src/Kafka/Consumer/Setup.antt =====
-- What Setup of the group handler resets (kafkamq/sub.go).
use kmq_utils.Prelude.{
  ◌≡◌, refl, sym, ap, ◌∙◌, inl, inr, Bool, Bool-cases, true, false, ◌&&◌, ◌||◌, String, List, [],
  ◌∷◌, ◌++◌, arith, str_eq, eq_iff,
}
use kmq_utils.Prelude.Int.{ℤ, pos, leb_ℤ, eqb_ℤ, eqb_ℤ-eq, is_in}
use kmq_utils.RingBuffer.{RingBuffer}
use kmq_utils.Kafka.Topics.{Topic}
use kmq_utils.Kafka.Producer.{KafkaMessage}
use kmq_utils.Kafka.Consumer.{ConsumerGroup, Event, setup, set_up, step, run}
use kmq_utils.Kafka.Consumer.Keeps.{run-Keeps}
use kmq_utils.Kafka.Session.{resets_of, resets_by_name, resets_for}

-- Whether a session claims a partition of a topic.
unfoldable pub has_claim : List (String × List ℤ) → String → ℤ → Bool
has_claim [] name p = false
has_claim (c ∷ cs) name p = (str_eq c.0 name && is_in p c.1) || has_claim cs name p

-- Whether the map of a topic holds a pair of a partition and an offset.
unfoldable pub has_entry : ℤ × ℤ → List (ℤ × ℤ) → Bool
has_entry e [] = false
has_entry e (x ∷ xs) = (eqb_ℤ x.0 e.0 && eqb_ℤ x.1 e.1) || has_entry e xs

-- Whether a topic of that name asks for that offset of that partition.
unfoldable pub asks : List Topic → String × (ℤ × ℤ) → Bool
unfolding has_entry
asks [] r = false
asks (t ∷ ts) r = (str_eq t.name r.0 && has_entry r.1 t.partition) || asks ts r

-- Whether a reset stands in a list.
unfoldable pub listed : String × (ℤ × ℤ) → List (String × (ℤ × ℤ)) → Bool
listed r [] = false
listed r (x ∷ xs) = (str_eq x.0 r.0 && (eqb_ℤ x.1.0 r.1.0 && eqb_ℤ x.1.1 r.1.1)) || listed r xs

listed-append :
    (r : String × (ℤ × ℤ)) (xs ys : List (String × (ℤ × ℤ)))
    → listed r (xs ++ ys) ≡ (listed r xs || listed r ys)
unfolding listed
listed-append r [] ys = refl
listed-append r (x ∷ xs) ys = ground (arith, listed-append r xs ys)

apart : (a b : String) → str_eq a b ≡ false → str_eq a b ≡ true → ⊥
apart a b h k = cc

named : (a b : String) → str_eq a b ≡ true → a ≡ b
named a b h = ground (arith, eq_iff a b)

other_name : (a b c : String) → str_eq a b ≡ false → (str_eq a c && str_eq b c) ≡ false
other_name a b c h = elim (Bool-cases (str_eq a c)) [
  | inl x ↦ elim (Bool-cases (str_eq b c)) [
    | inl y ↦ absurd (apart a b h (ground (arith, eq_iff a b, named a c x ∙ sym (named b c y))))
    | inr y ↦ rw (x, y) refl
  ]
  | inr x ↦ rw x refl
]

-- A pair that is kept or not.
one_entry :
    (e r : ℤ × ℤ) (claimed : List ℤ)
    → (eqb_ℤ e.0 r.0 && eqb_ℤ e.1 r.1) ≡ true
    → (is_in e.0 claimed && leb_ℤ (pos 0) e.1) ≡ (is_in r.0 claimed && leb_ℤ (pos 0) r.1)
one_entry e r claimed h =
    let p = eqb_ℤ-eq e.0 r.0 (ground (arith, h)) in
    let q = eqb_ℤ-eq e.1 r.1 (ground (arith, h)) in
    ap (λ a. is_in a claimed && leb_ℤ (pos 0) e.1) p
    ∙ ap (λ b. is_in r.0 claimed && leb_ℤ (pos 0) b) q

resets_of-listed :
    (t : Topic) (claimed : List ℤ) (es : List (ℤ × ℤ)) (r : String × (ℤ × ℤ))
    → listed r (resets_of t claimed es)
      ≡ (str_eq t.name r.0 && (has_entry r.1 es && (is_in r.1.0 claimed && leb_ℤ (pos 0) r.1.1)))
unfolding resets_of listed has_entry
resets_of-listed t claimed [] r = ground arith
resets_of-listed t claimed (e ∷ es) r = elim (Bool-cases (eqb_ℤ e.0 r.1.0 && eqb_ℤ e.1 r.1.1)) [
  | inl y ↦ elim (Bool-cases (is_in e.0 claimed && leb_ℤ (pos 0) e.1)) [
    | inl k ↦
        rw (k, y, resets_of-listed t claimed es r)
          (rw (sym (one_entry e r.1 claimed y), k) (ground arith))
    | inr k ↦
        rw (k, y, resets_of-listed t claimed es r)
          (rw (sym (one_entry e r.1 claimed y), k) (ground arith))
  ]
  | inr n ↦ elim (Bool-cases (is_in e.0 claimed && leb_ℤ (pos 0) e.1)) [
    | inl k ↦ rw (k, n, resets_of-listed t claimed es r) (ground arith)
    | inr k ↦ rw (k, n, resets_of-listed t claimed es r) (ground arith)
  ]
]

resets_by_name-listed :
    (ts : List Topic) (name : String) (claimed : List ℤ) (r : String × (ℤ × ℤ))
    → listed r (resets_by_name ts name claimed)
      ≡ (asks ts r && ((str_eq name r.0 && is_in r.1.0 claimed) && leb_ℤ (pos 0) r.1.1))
unfolding resets_by_name asks listed
resets_by_name-listed [] name claimed r = refl
resets_by_name-listed (t ∷ ts) name claimed r = elim (Bool-cases (str_eq t.name name)) [
  | inl y ↦
      rw
        (
          y,
          listed-append r (resets_of t claimed t.partition) (resets_by_name ts name claimed),
          resets_of-listed t claimed t.partition r,
          resets_by_name-listed ts name claimed r,
          named t.name name y,
        )
        (ground arith)
  | inr n ↦
      rw (n, resets_by_name-listed ts name claimed r) (ground (arith, other_name t.name name r.0 n))
]

resets_for-listed :
    (ts : List Topic) (cs : List (String × List ℤ)) (r : String × (ℤ × ℤ))
    → listed r (resets_for ts cs) ≡ (asks ts r && (has_claim cs r.0 r.1.0 && leb_ℤ (pos 0) r.1.1))
unfolding resets_for has_claim listed
resets_for-listed ts [] r = ground arith
resets_for-listed ts (c ∷ cs) r =
    rw
      (
        listed-append r (resets_by_name ts c.0 c.1) (resets_for ts cs),
        resets_by_name-listed ts c.0 c.1 r,
        resets_for-listed ts cs r,
      )
      (ground arith)

module _ {B : RingBuffer KafkaMessage} where
  set_up-first :
      (cs : List (String × List ℤ)) (s : ConsumerGroup B)
      → s.consuming ≡ true
      → s.setup_done ≡ false
      → s.resets ≡ []
      → ((set_up cs s).setup_done ≡ true) × ((set_up cs s).resets ≡ resets_for s.topics cs)
  unfolding set_up
  set_up-first cs s c d e = ground arith

  -- The first session that the library sets up resets, for all time, what the topics ask for of the
  -- claims of that session: whatever happens after it, later sessions included, the resets are those
  -- of that session; and a partition of a topic was reset to an offset exactly where a topic of that
  -- name asks for that offset there, the session claims the partition, and the offset is not negative.
  pub resets_once :
      (cs : List (String × List ℤ)) (s : ConsumerGroup B) (es : List Event) (r : String × (ℤ × ℤ))
      → s.consuming ≡ true
      → s.setup_done ≡ false
      → s.resets ≡ []
      → let t = run s (setup cs ∷ es) in
        (t.resets ≡ resets_for s.topics cs)
        × (listed r t.resets ≡ (asks s.topics r && (has_claim cs r.0 r.1.0 && leb_ℤ (pos 0) r.1.1)))
  unfolding run step
  resets_once cs s es r c d e =
      let first = set_up-first cs s c d e in
      let all = ((run-Keeps (set_up cs s) es).resets first.0).1 ∙ first.1 in
      (all, ap (listed r) all ∙ resets_for-listed s.topics cs r)
