-- ===== src/Mqtt/Config/Topics.antt =====
-- The topic list of the MQTT configuration as a set of topics.
use kmq_utils.Prelude.{
  ◌≡◌, refl, sym, ◌∙◌, Bool, false, ◌||◌, String, List, [], ◌∷◌, ◌++◌, arith, str_eq, eq_iff,
  if◌then◌else◌, append_assoc, append-nil,
}
use kmq_utils.KList.{KList, Laws, rest_of, has_any}
use kmq_utils.Mqtt.Config.{
  Config, add_topic, set_topics, remove_topic, exists_topic, clear_topics, topic_slice,
}

has_any-append :
    {A : Type 0} (p : A → Bool) (xs ys : List A)
    → has_any p (xs ++ ys) ≡ (has_any p xs || has_any p ys)
has_any-append p [] ys = refl
has_any-append p (x ∷ xs) ys = ground (arith, has_any-append p xs ys)

has_any-rest_of :
    (t u : String) (xs : List String)
    → has_any (λ v. str_eq v u) (rest_of (λ v. str_eq v t) xs)
      ≡ (if str_eq t u then false else has_any (λ v. str_eq v u) xs)
has_any-rest_of t u [] = ground arith
has_any-rest_of t u (x ∷ xs) =
    ground (arith, has_any-rest_of t u xs, eq_iff x t, eq_iff x u, eq_iff t u)

module _ {K : KList String} (L : Laws K) where
  -- AddTopic makes a topic exist and changes no other, RemoveTopic removes every copy of it and
  -- changes no other, and after ClearTopics none exists.
  pub topics_as_set :
      (t u : String) (c : Config K)
      → (exists_topic u (add_topic t c) ≡ (str_eq t u || exists_topic u c))
        × (exists_topic u (remove_topic t c) ≡ (if str_eq t u then false else exists_topic u c))
        × (exists_topic u (clear_topics c) ≡ false)
  unfolding exists_topic add_topic remove_topic clear_topics
  topics_as_set t u c = (
    rw (L.finds, L.slice_push, has_any-append, L.finds) (ground arith),
    rw (L.finds, L.slice_pop_all, has_any-rest_of t u (K.to_slice c.topics), L.finds) refl,
    rw (L.finds, L.slice_clear) refl,
  )

  -- SetTopics does not replace the topics: it appends its arguments, in order, to those that are
  -- there.
  pub set_topics_appends :
      (ts : List String) (c : Config K) → topic_slice (set_topics ts c) ≡ topic_slice c ++ ts
  unfolding set_topics topic_slice
  set_topics_appends [] c = sym (append-nil (K.to_slice c.topics))
  set_topics_appends (t ∷ ts) c =
      set_topics_appends ts (add_topic t c)
      ∙ rw L.slice_push (append_assoc (K.to_slice c.topics) (t ∷ []) ts)
