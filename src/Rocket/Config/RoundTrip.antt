-- ===== src/Rocket/Config/RoundTrip.antt =====
-- Adding a topic or a server and removing it again, in the configuration of RocketMQ.
use kmq_utils.Prelude.{
  ℕ, zero, suc, ◌≡◌, ◌≢◌, refl, ap, ◌∙◌, String, some, List, [], ◌∷◌, ◌++◌, length, arith,
}
use kmq_utils.Rocket.Config.{
  ConsumerConfig, ProducerConfig, Config, add_consumer_topic, remove_consumer_topic,
  add_producer_topic, remove_producer_topic, add_server, remove_server,
}
use kmq_utils.Rocket.Removal.{get_elem?, remove_item}
use kmq_utils.Rocket.Removal.Single.{CleanFrom, erase_at, remove_item_once}

get_elem?-last : (t : String) (xs : List String) → get_elem? (xs ++ t ∷ []) (length xs) ≡ some t
get_elem?-last t [] = refl
get_elem?-last t (x ∷ xs) = get_elem?-last t xs

erase_at-last : (t : String) (xs : List String) → erase_at (length xs) (xs ++ t ∷ []) ≡ xs
erase_at-last t [] = refl
erase_at-last t (x ∷ xs) = ap (◌∷◌ x) (erase_at-last t xs)

get_elem?-other :
    (t : String) (xs : List String) (j : ℕ)
    → CleanFrom t 0 xs
    → j ≢ length xs
    → get_elem? (xs ++ t ∷ []) j ≢ some t
get_elem?-other t [] zero c h e = absurd (h refl)
get_elem?-other t [] (suc j) c h e = cc
get_elem?-other t (x ∷ xs) zero c h e = c zero (omega arith) e
get_elem?-other t (x ∷ xs) (suc j) c h e =
    get_elem?-other t xs j (λ k b. c (suc k) (omega arith)) (λ q. h (ap suc q)) e

remove_added :
    (t : String) (xs : List String) → CleanFrom t 0 xs → remove_item t (xs ++ t ∷ []) ≡ some xs
remove_added t xs c =
    remove_item_once t (xs ++ t ∷ []) (length xs) (get_elem?-last t xs)
      (λ j h. get_elem?-other t xs j c h)
    ∙ ap some (erase_at-last t xs)

-- A topic of the consumer, a topic of the producer or a server that is not there yet, once added and
-- then removed, leaves the configuration as it was, and the removal does not panic.
pub added_removed :
    (t : String) (c : ConsumerConfig) (p : ProducerConfig) (f : Config)
    → CleanFrom t 0 c.topics
    → CleanFrom t 0 p.topics
    → CleanFrom t 0 f.servers
    → (remove_consumer_topic t (add_consumer_topic t c) ≡ some c)
      × (remove_producer_topic t (add_producer_topic t p) ≡ some p)
      × (remove_server t (add_server t f) ≡ some f)
unfolding remove_consumer_topic add_consumer_topic remove_producer_topic add_producer_topic
    remove_server add_server
added_removed t c p f ct pt fs = (
  rw (remove_added t c.topics ct, remove_consumer_topic) refl,
  rw (remove_added t p.topics pt, remove_producer_topic) refl,
  rw (remove_added t f.servers fs, remove_server) refl,
)
