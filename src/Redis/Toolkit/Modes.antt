-- ===== src/Redis/Toolkit/Modes.antt =====
-- The toolkit of Redis is one server, a cluster, or stopped (redismq/rediskit.go).
use mathlib.Core.Path.{subst}
use kmq_utils.Prelude.{
  ◌≡◌, refl, ap, ◌∙◌, Bool, false, String, Option, some, none, List, [], ◌∷◌, is_empty,
  if◌then◌else◌,
}
use kmq_utils.Prelude.Int.{ℤ}
use kmq_utils.Redis.Publisher.{RedisMessage}
use kmq_utils.Redis.Config.{RedisConfig}
use kmq_utils.Redis.Toolkit
use kmq_utils.Redis.Toolkit.{Library, Wrapper, RedisToolkit}

-- A call of the toolkit, and its answer.
pub data Call : Type 0 where
  ping ping_e stop : Call
  publish_array publish_array_with_ctx : List RedisMessage → Call

pub data Reply (E : Type 0) : Type 0 where
  flag : Bool → Reply E
  error : Option E → Reply E
  errors : List E → Reply E
  done : Reply E

-- What the toolkit is to its callers.
pub data Mode (K : Library) : Type 0 where
  single : K.Single → Mode K
  clustered : K.Cluster → Mode K
  stopped : Mode K

module _ {K : Library} where
  reply : RedisToolkit K → Call → Reply K.Error
  reply t ping = flag (Toolkit.ping t)
  reply t ping_e = error (Toolkit.ping_e t)
  reply t stop = done
  reply t (publish_array ms) = errors (Toolkit.publish_array ms t)
  reply t (publish_array_with_ctx ms) = errors (Toolkit.publish_array_with_ctx ms t)

  after : RedisToolkit K → Call → RedisToolkit K
  after t stop = Toolkit.stop t
  after t _ = t

  -- The answers to calls one after the other.
  unfoldable pub replies : RedisToolkit K → List Call → List (Reply K.Error)
  unfolding reply after
  replies t [] = []
  replies t (c ∷ cs) = reply t c ∷ replies (after t c) cs

  by_mode : {C : Type 0} → Mode K → (K.Single → C) → (K.Cluster → C) → C → C
  by_mode (single c) f g z = f c
  by_mode (clustered c) f g z = g c
  by_mode stopped f g z = z

  mode_reply : Mode K → Call → Reply K.Error
  mode_reply m stop = done
  mode_reply m ping = flag (by_mode m K.ping K.ping_cluster false)
  mode_reply m ping_e = error (by_mode m K.ping_e K.ping_e_cluster (some K.wrap_error))
  mode_reply m (publish_array ms) = errors (
      by_mode m (λ c. K.publish_array c ms) (λ c. K.publish_array_cluster c ms) (K.wrap_error ∷ []))
  mode_reply m (publish_array_with_ctx ms) = errors (
      by_mode m (λ c. K.publish_array_with_ctx c ms) (λ c. K.publish_array_with_ctx_cluster c ms)
        (K.wrap_error ∷ []))

  mode_after : Mode K → Call → Mode K
  mode_after m stop = stopped
  mode_after m _ = m

  unfoldable pub mode_replies : Mode K → List Call → List (Reply K.Error)
  unfolding mode_reply mode_after by_mode
  mode_replies m [] = []
  mode_replies m (c ∷ cs) = mode_reply m c ∷ mode_replies (mode_after m c) cs

  -- The mode that addresses ask for.
  unfoldable pub mode_of : List String → String → ℤ → Mode K
  mode_of [] password db = stopped
  mode_of (a ∷ []) password db = single (K.new_single a password db)
  mode_of (a ∷ b ∷ rest) password db = clustered (K.new_cluster (a ∷ b ∷ rest) password db)

  abbrev clients : Mode K → Option K.Single
  clients (single c) = some c
  clients _ = none

  abbrev clusters : Mode K → Option K.Cluster
  clusters (clustered c) = some c
  clusters _ = none

  dispatched :
      {C : Type 0} (m : Mode K) (f : K.Single → C) (g : K.Cluster → C) (z : C)
      → Toolkit.dispatch (clients m) (clusters m) f g z ≡ by_mode m f g z
  unfolding by_mode
  dispatched (single c) f g z = refl
  dispatched (clustered c) f g z = refl
  dispatched stopped f g z = refl

  record IsIn (m : Mode K) (t : RedisToolkit K) : Type 0 where
    client : t.handler.client ≡ clients m
    cluster : t.handler.cluster_client ≡ clusters m
    named : is_empty t.conf.addrs ≡ false

  guarded :
      {C : Type 0} (m : Mode K) (e : Bool) (a : Option K.Single) (b : Option K.Cluster)
      → (f : K.Single → C) (g : K.Cluster → C) (z y : C) → e ≡ false
      → a ≡ clients m
      → b ≡ clusters m
      → (if e then y else Toolkit.dispatch a b f g z) ≡ by_mode m f g z
  guarded m e a b f g z y h i j =
      ap (λ x. if x then y else Toolkit.dispatch a b f g z) h
      ∙ ap (λ x. Toolkit.dispatch x b f g z) i
      ∙ ap (λ x. Toolkit.dispatch (clients m) x f g z) j
      ∙ dispatched m f g z

  reply-IsIn : (m : Mode K) (t : RedisToolkit K) (c : Call) → IsIn m t → reply t c ≡ mode_reply m c
  unfolding reply mode_reply Toolkit.ping Toolkit.ping_e Toolkit.publish_array
      Toolkit.publish_array_with_ctx Toolkit.wrapper_ping Toolkit.wrapper_ping_e
      Toolkit.wrapper_publish_array Toolkit.wrapper_publish_array_with_ctx
  reply-IsIn m t ping v =
      ap flag (guarded m _ _ _ K.ping K.ping_cluster false false v.named v.client v.cluster)
  reply-IsIn m t ping_e v = ap error (
      guarded m _ _ _ K.ping_e K.ping_e_cluster (some K.wrap_error) (some K.empty_addrs) v.named
        v.client v.cluster)
  reply-IsIn m t stop v = refl
  reply-IsIn m t (publish_array ms) v = ap errors (
      guarded m _ _ _ (λ c. K.publish_array c ms) (λ c. K.publish_array_cluster c ms)
        (K.wrap_error ∷ []) (K.empty_addrs ∷ []) v.named v.client v.cluster)
  reply-IsIn m t (publish_array_with_ctx ms) v = ap errors (
      guarded m _ _ _ (λ c. K.publish_array_with_ctx c ms)
        (λ c. K.publish_array_with_ctx_cluster c ms) (K.wrap_error ∷ []) (K.empty_addrs ∷ [])
        v.named v.client v.cluster)

  after-IsIn :
      (m : Mode K) (t : RedisToolkit K) (c : Call) → IsIn m t → IsIn (mode_after m c) (after t c)
  unfolding after mode_after Toolkit.stop Toolkit.wrapper_stop
  after-IsIn m t stop v = record { client = refl; cluster = refl; named = v.named }
  after-IsIn m t _ v = v

  replies-IsIn :
      (m : Mode K) (t : RedisToolkit K) (cs : List Call)
      → IsIn m t
      → replies t cs ≡ mode_replies m cs
  unfolding replies mode_replies
  replies-IsIn m t [] v = refl
  replies-IsIn m t (c ∷ cs) v =
      ap (λ x. x ∷ replies (after t c) cs) (reply-IsIn m t c v)
      ∙ ap (λ xs. mode_reply m c ∷ xs)
          (replies-IsIn (mode_after m c) (after t c) cs (after-IsIn m t c v))

  new-IsIn :
      (addrs : List String) (password : String) (db : ℤ) (conf : RedisConfig) (t : RedisToolkit K)
      → conf.addrs ≡ addrs
      → Toolkit.with_handler conf (Toolkit.wrapper_of addrs password db) ≡ some t
      → IsIn (mode_of addrs password db) t
  unfolding Toolkit.wrapper_of Toolkit.with_handler mode_of
  new-IsIn [] password db conf t e h = cc
  new-IsIn (a ∷ []) password db conf t e h =
      let made : RedisToolkit K = record {
        handler = record {
          client = some (K.new_single a password db);
          cluster_client = none;
          stopped = [];
          stopped_clusters = [];
        };
        conf = conf;
      } in
      let same : made ≡ t = cc in
      subst (IsIn (single (K.new_single a password db))) same
        (record { client = refl; cluster = refl; named = ap is_empty e })
  new-IsIn (a ∷ b ∷ rest) password db conf t e h =
      let made : RedisToolkit K = record {
        handler = record {
          client = none;
          cluster_client = some (K.new_cluster (a ∷ b ∷ rest) password db);
          stopped = [];
          stopped_clusters = [];
        };
        conf = conf;
      } in
      let same : made ≡ t = cc in
      subst (IsIn (clustered (K.new_cluster (a ∷ b ∷ rest) password db))) same
        (record { client = refl; cluster = refl; named = ap is_empty e })

  -- A new toolkit answers every sequence of calls as the client of the one server that its addresses
  -- name, or as the client of the cluster where they are several, and behind the first Stop every call
  -- is answered by a false ping or by ErrWrapError, further Stops included.
  pub toolkit_refines_mode :
      (conf : RedisConfig) (t : RedisToolkit K) (cs : List Call)
      → Toolkit.new_toolkit conf ≡ some t
      → replies t cs ≡ mode_replies (mode_of conf.addrs conf.password conf.db) cs
  unfolding Toolkit.new_toolkit Toolkit.new_wrapper
  toolkit_refines_mode conf t cs h =
      replies-IsIn (mode_of conf.addrs conf.password conf.db) t cs
        (new-IsIn conf.addrs conf.password conf.db conf t refl h)
