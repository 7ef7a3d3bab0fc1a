-- ===== src/Kafka/Config/Known.antt =====
-- What the library is asked for after any calls of the setters of the consumer and the producer
-- (kafkamq/config_sarama.go).
use kmq_utils.Prelude.{◌≡◌, ◌≢◌, refl, ◌⊎◌, inl, inr, String, none, List, [], ◌∷◌, eq_iff, arith}
use kmq_utils.Prelude.Int.{ℤ}
use kmq_utils.Kafka.Config.{
  ConsumerConfig, new_consumer, set_assignor, get_assignor, native_auto_commit, disable_auto_commit,
  set_fetch, set_initial_offset,
}

-- A call of a setter of the consumer.
pub data ConsumerCall : Type 0 where
  assignor : String → ConsumerCall
  auto_commit : ℤ → ConsumerCall
  manual_commit : ConsumerCall
  fetch : ℤ → ℤ → ℤ → ℤ → ConsumerCall
  initial_offset : ℤ → ConsumerCall

unfoldable pub call : ConsumerConfig → ConsumerCall → ConsumerConfig
unfolding set_assignor native_auto_commit disable_auto_commit set_fetch set_initial_offset
call c (assignor s) = set_assignor s c
call c (auto_commit interval) = native_auto_commit interval c
call c manual_commit = disable_auto_commit c
call c (fetch low high val wait) = set_fetch low high val wait c
call c (initial_offset o) = set_initial_offset o c

unfoldable pub calls : ConsumerConfig → List ConsumerCall → ConsumerConfig
unfolding call
calls c [] = c
calls c (k ∷ ks) = calls (call c k) ks

-- The name of a strategy, and a mode of committing that the package knows.
pub record IsKnown (c : ConsumerConfig) : Type 0 where
  pub strategy : (c.assignor ≡ "sticky") ⊎ ((c.assignor ≡ "roundrobin") ⊎ (c.assignor ≡ "range"))
  pub commits : (c.auto_commit ≡ "native") ⊎ (c.auto_commit ≡ "none")

set_assignor-strategy :
    (s : String) (c : ConsumerConfig)
    → ((set_assignor s c).assignor ≡ "sticky")
      ⊎ (((set_assignor s c).assignor ≡ "roundrobin") ⊎ ((set_assignor s c).assignor ≡ "range"))
unfolding set_assignor
set_assignor-strategy s c =
    ground (arith, eq_iff s "sticky", eq_iff s "roundrobin", eq_iff s "range")

call-IsKnown : (c : ConsumerConfig) (k : ConsumerCall) → IsKnown c → IsKnown (call c k)
unfolding call set_assignor
call-IsKnown c (assignor s) v = record { strategy = set_assignor-strategy s c; commits = v.commits }
call-IsKnown c (auto_commit interval) v = record { strategy = v.strategy; commits = inl refl }
call-IsKnown c manual_commit v = record { strategy = v.strategy; commits = inr refl }
call-IsKnown c (fetch low high val wait) v = record { strategy = v.strategy; commits = v.commits }
call-IsKnown c (initial_offset o) v = record { strategy = v.strategy; commits = v.commits }

calls-IsKnown : (c : ConsumerConfig) (ks : List ConsumerCall) → IsKnown c → IsKnown (calls c ks)
unfolding calls
calls-IsKnown c [] v = v
calls-IsKnown c (k ∷ ks) v = calls-IsKnown (call c k) ks (call-IsKnown c k v)

IsKnown-get_assignor : (c : ConsumerConfig) → IsKnown c → get_assignor c ≢ none
unfolding get_assignor
IsKnown-get_assignor c v e = ground (
  arith,
  v.strategy,
  eq_iff c.assignor "sticky",
  eq_iff c.assignor "roundrobin",
  eq_iff c.assignor "range",
)

-- After any calls of the setters on a new consumer configuration the assignor is one of the three
-- names, so that GetAssignor never answers nil, and the mode of committing is native or none.
pub consumer-IsKnown :
    (ks : List ConsumerCall)
    → (get_assignor (calls new_consumer ks) ≢ none) × IsKnown (calls new_consumer ks)
unfolding new_consumer
consumer-IsKnown ks =
    let v =
      calls-IsKnown new_consumer ks record { strategy = inr (inr refl); commits = inl refl } in
    (IsKnown-get_assignor (calls new_consumer ks) v, v)
