-- ===== src/Redis/Toolkit.antt =====
-- The toolkit of Redis (redismq/rediskit.go): a wrapper over the client of one server or that of a
-- cluster, whichever the addresses ask for. The clients of kredis are a parameter.
-- Not modelled: the log lines and the contexts.
pub mod Modes
use kmq_utils.Prelude.{
  ℕ, Bool, true, false, String, Option, none, some, List, [], ◌∷◌, ◌++◌, is_empty, is_some,
  if◌then◌else◌,
}
use kmq_utils.Prelude.Int.{ℤ}
use kmq_utils.Redis.Config.{RedisConfig}
use kmq_utils.Redis.Publisher.{RedisMessage}

-- The two clients of kredis, their errors, and the two errors of redismq/config.go.
pub record Library : Type 1 where
  pub Single : Type 0
  pub Cluster : Type 0
  pub Error : Type 0
  pub empty_addrs : Error
  pub wrap_error : Error
  pub new_single : String → String → ℤ → Single
  pub new_cluster : List String → String → ℤ → Cluster
  pub ping : Single → Bool
  pub ping_cluster : Cluster → Bool
  pub ping_e : Single → Option Error
  pub ping_e_cluster : Cluster → Option Error
  pub publish : Single → String → String → Option Error
  pub publish_cluster : Cluster → String → String → Option Error
  pub publish_array : Single → List RedisMessage → List Error
  pub publish_array_cluster : Cluster → List RedisMessage → List Error
  pub publish_array_with_ctx : Single → List RedisMessage → List Error
  pub publish_array_with_ctx_cluster : Cluster → List RedisMessage → List Error

-- ClientHandlerWrapper, with the clients that were stopped.
pub record Wrapper (K : Library) : Type 0 where
  pub client : Option K.Single
  pub cluster_client : Option K.Cluster
  pub stopped : List K.Single
  pub stopped_clusters : List K.Cluster

pub record RedisToolkit (K : Library) : Type 0 where
  pub handler : Wrapper K
  pub conf : RedisConfig

-- The single client first, then the cluster's, then neither.
abbrev dispatch : {A B C : Type 0} → Option A → Option B → (A → C) → (B → C) → C → C
dispatch (some a) o f g z = f a
dispatch none (some b) f g z = g b
dispatch none none f g z = z

abbrev to_list : {A : Type 0} → Option A → List A
to_list none = []
to_list (some a) = a ∷ []

module _ {K : Library} where
  wrapper_of : List String → String → ℤ → Option (Wrapper K)
  wrapper_of [] password db = none
  wrapper_of (a ∷ []) password db = some (record {
    client = some (K.new_single a password db);
    cluster_client = none;
    stopped = [];
    stopped_clusters = [];
  })
  wrapper_of (a ∷ b ∷ rest) password db = some (record {
    client = none;
    cluster_client = some (K.new_cluster (a ∷ b ∷ rest) password db);
    stopped = [];
    stopped_clusters = [];
  })

  -- NewClientHandlerWrapper.
  unfoldable pub new_wrapper : RedisConfig → Option (Wrapper K)
  unfolding wrapper_of
  new_wrapper conf = wrapper_of conf.addrs conf.password conf.db

  unfoldable pub wrapper_ping : Wrapper K → Bool
  wrapper_ping w = dispatch w.client w.cluster_client K.ping K.ping_cluster false

  unfoldable pub wrapper_ping_e : Wrapper K → Option K.Error
  wrapper_ping_e w =
      dispatch w.client w.cluster_client K.ping_e K.ping_e_cluster (some K.wrap_error)

  unfoldable pub wrapper_publish : String → String → Wrapper K → Option K.Error
  wrapper_publish topic message w =
      dispatch w.client w.cluster_client (λ c. K.publish c topic message)
        (λ c. K.publish_cluster c topic message) (some K.wrap_error)

  unfoldable pub wrapper_publish_array : List RedisMessage → Wrapper K → List K.Error
  wrapper_publish_array ms w =
      dispatch w.client w.cluster_client (λ c. K.publish_array c ms)
        (λ c. K.publish_array_cluster c ms) (K.wrap_error ∷ [])

  unfoldable pub wrapper_publish_array_with_ctx : List RedisMessage → Wrapper K → List K.Error
  wrapper_publish_array_with_ctx ms w =
      dispatch w.client w.cluster_client (λ c. K.publish_array_with_ctx c ms)
        (λ c. K.publish_array_with_ctx_cluster c ms) (K.wrap_error ∷ [])

  -- Stop of the wrapper.
  unfoldable pub wrapper_stop : Wrapper K → Wrapper K
  wrapper_stop w = record {
    client = none;
    cluster_client = none;
    stopped = w.stopped ++ to_list w.client;
    stopped_clusters = w.stopped_clusters ++ to_list w.cluster_client;
  }

  with_handler : RedisConfig → Option (Wrapper K) → Option (RedisToolkit K)
  with_handler conf none = none
  with_handler conf (some w) = some (record { handler = w; conf = conf })

  -- NewRedisToolkit, which is nil where there is no address.
  unfoldable pub new_toolkit : RedisConfig → Option (RedisToolkit K)
  unfolding with_handler new_wrapper
  new_toolkit conf = with_handler conf (new_wrapper conf)

  unfoldable pub ping : RedisToolkit K → Bool
  unfolding wrapper_ping
  ping t = if is_empty t.conf.addrs then false else wrapper_ping t.handler

  unfoldable pub ping_e : RedisToolkit K → Option K.Error
  unfolding wrapper_ping_e
  ping_e t = if is_empty t.conf.addrs then some K.empty_addrs else wrapper_ping_e t.handler

  unfoldable pub publish_array : List RedisMessage → RedisToolkit K → List K.Error
  unfolding wrapper_publish_array
  publish_array ms t =
      if is_empty t.conf.addrs then K.empty_addrs ∷ [] else wrapper_publish_array ms t.handler

  unfoldable pub publish_array_with_ctx : List RedisMessage → RedisToolkit K → List K.Error
  unfolding wrapper_publish_array_with_ctx
  publish_array_with_ctx ms t =
      if is_empty t.conf.addrs
      then K.empty_addrs ∷ []
      else wrapper_publish_array_with_ctx ms t.handler

  unfoldable pub stop : RedisToolkit K → RedisToolkit K
  unfolding wrapper_stop
  stop t = record t { handler = wrapper_stop t.handler }
