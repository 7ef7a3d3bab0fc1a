-- ===== src/Nats/Connect.antt =====
-- What Start of the NATS core client asks of the library (natsmq/nats_core.go, doConnect and
-- syncSubscriptions): the options of the connection and the subscriptions, with the answers of the
-- library and of the file system in a `World`.
use kmq_utils.Prelude.{
  ℕ, ◌⊎◌, inl, inr, Bool, not, ◌&&◌, String, Option, none, some, List, [], ◌∷◌, str_eq,
  if◌then◌else◌,
}
use kmq_utils.Prelude.Int.{ℤ, to_word}
use kmq_utils.KList.{KList}
use kmq_utils.Nats.Config.{ConnConfig, CoreConfig}

pub data StartError : Type 0 where
  key_pair_error connect_error : StartError

pub data Auth : Type 0 where
  anonymous : Auth
  user_info : String → String → Auth
  token : String → Auth

-- A certificate file, its key file, the lowest version, and whether any certificate is taken.
pub record Tls : Type 0 where
  pub client_cert : String
  pub key : String
  pub min_version : ℕ
  pub skip_verify : Bool

pub record Reconnect : Type 0 where
  pub max_reconnects : ℤ
  pub wait : ℤ
  pub buf_size : ℤ

-- The options given to nats.Connect that depend on the configuration.
pub record Options : Type 0 where
  pub urls : List String
  pub name : String
  pub auth : Auth
  pub secure : Option Tls
  pub reconnect : Option Reconnect
  pub ping_interval : ℤ
  pub max_pings_out : ℤ

-- What a subscription to a topic comes to.
pub data SubAnswer : Type 0 where
  subscribed refused_sub limits_error : SubAnswer

-- What the file system and the library answer to Start.
pub record World : Type 0 where
  pub key_pair : String → String → Bool
  pub connects : Options → Bool
  pub is_connected : Bool
  pub subscribes : String → ℤ → String → SubAnswer  -- by queue group, pending limit and topic

-- `that.subs[topic] = sub`, over the keys.
unfoldable pub add_sub : String → List String → List String
add_sub t [] = t ∷ []
add_sub t (u ∷ us) = if str_eq u t then u ∷ us else u ∷ add_sub t us

-- A failed subscription is only logged.
unfoldable pub subscribe_all : (String → SubAnswer) → List String → List String → List String
unfolding add_sub
subscribe_all answer [] subs = subs
subscribe_all answer (t ∷ ts) subs = elim (answer t) [
  | subscribed ↦ subscribe_all answer ts (add_sub t subs)
  | refused_sub ↦ subscribe_all answer ts subs
  | limits_error ↦ subscribe_all answer ts subs
]

-- syncSubscriptions; an empty group stands for a plain Subscribe.
unfoldable pub subscribe_core :
    {K : KList String}
    → (String → ℤ → String → SubAnswer)
    → Option (CoreConfig K)
    → List String
    → List String
unfolding subscribe_all
subscribe_core answer none subs = subs
subscribe_core {K} answer (some c) subs =
    subscribe_all (answer c.queue_group c.max_pending) (K.to_slice c.topics) subs

module _ {K : KList String} where
  unfoldable pub auth_of : ConnConfig K → Auth
  auth_of c =
      if not (str_eq c.user "") && not (str_eq c.password "")
      then user_info c.user c.password
      else if str_eq c.user "" && not (str_eq c.password "")
      then token c.password
      else anonymous

  -- doConnect up to nats.Connect.
  unfoldable pub options : ConnConfig K → Options
  unfolding auth_of to_word
  options c = record {
    urls = K.to_slice c.servers;
    name = c.name;
    auth = auth_of c;
    secure =
        if c.use_tls
        then some (record {
          client_cert = c.tls_client_cert;
          key = c.key_path;
          min_version = to_word 65536 c.min_tls_ver;
          skip_verify = c.insecure_skip_verify;
        })
        else none;
    reconnect =
        if c.allow_reconnect
        then some (record {
          max_reconnects = c.max_reconnect;
          wait = c.reconnect_wait;
          buf_size = c.reconnect_buf_size;
        })
        else none;
    ping_interval = c.ping_interval;
    max_pings_out = c.max_pings_out;
  }

  -- doConnect: the options of the connection, or an error.
  unfoldable pub do_connect : World → ConnConfig K → StartError ⊎ Options
  unfolding options
  do_connect w c =
      if c.use_tls && not (w.key_pair c.tls_client_cert c.key_path)
      then inl key_pair_error
      else if w.connects (options c)
      then inr (options c)
      else inl connect_error
