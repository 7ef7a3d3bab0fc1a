-- ===== src/Nats/Config.antt =====
-- The configuration of NATS (natsmq/config.go): the connection, the core client, and the choice
-- between the core client and JetStream. A duration is a number of nanoseconds. The warnings that the
-- setters print are left out. The settings of JetStream are in Stream.
pub mod Valid
use kmq_utils.Prelude.{
  ℕ, zero, suc, Bool, true, false, ◌&&◌, ◌||◌, not, String, Option, none, some, List, [], ◌∷◌,
  str_eq, starts_with, if◌then◌else◌,
}
use kmq_utils.Prelude.Int.{ℤ, pos, negsuc, ltb_ℤ, eqb_ℤ}
use kmq_utils.KList.{KList}
use kmq_utils.Nats.Stream.{StreamConfig}

pub record ConnConfig (K : KList String) : Type 0 where
  pub servers : K.L
  pub user : String
  pub password : String
  pub allow_reconnect : Bool
  pub max_reconnect : ℤ
  pub reconnect_wait : ℤ
  pub reconnect_buf_size : ℤ
  pub connect_timeout : ℤ
  pub use_tls : Bool
  pub ca_cert_path : String
  pub tls_client_cert : String
  pub key_path : String
  pub insecure_skip_verify : Bool
  pub min_tls_ver : ℤ
  pub name : String
  pub ping_interval : ℤ
  pub max_pings_out : ℤ

pub record CoreConfig (K : KList String) : Type 0 where
  pub topics : K.L
  pub queue_group : String
  pub max_pending : ℤ
  pub has_handler : Bool

pub record Config (K : KList String) : Type 0 where
  pub nats : ConnConfig K
  pub core_nats : Option (CoreConfig K)
  pub jet_stream : Option (StreamConfig K)
  pub on_error : Bool
  pub on_exit : Bool
  pub on_ready : Bool

abbrev pub version_tls10 : ℤ
version_tls10 = pos 769

-- `validVersions`: TLS 1.0 to 1.3.
abbrev pub is_version : ℤ → Bool
is_version v = eqb_ℤ v (pos 769) || (eqb_ℤ v (pos 770) || (eqb_ℤ v (pos 771) || eqb_ℤ v (pos 772)))

abbrev pub default_ping_interval : ℤ
default_ping_interval = pos 120000

abbrev pub default_max_pings_out : ℤ
default_max_pings_out = pos 3

-- The test of AddServers.
abbrev pub has_scheme : String → Bool
has_scheme url = starts_with url "nats://" || starts_with url "tls://"

module _ {K : KList String} where
  unfoldable pub new_conn : String → ConnConfig K
  new_conn name = record {
    servers = K.empty;
    user = "";
    password = "";
    allow_reconnect = false;
    max_reconnect = pos 0;
    reconnect_wait = pos 0;
    reconnect_buf_size = negsuc 0;
    connect_timeout = pos 0;
    use_tls = false;
    ca_cert_path = "";
    tls_client_cert = "";
    key_path = "";
    insecure_skip_verify = true;
    min_tls_ver = version_tls10;
    name = name;
    ping_interval = default_ping_interval;
    max_pings_out = default_max_pings_out;
  }

  unfoldable pub add_servers : List String → ConnConfig K → ConnConfig K
  add_servers [] c = c
  add_servers (url ∷ urls) c =
      add_servers urls
        (if has_scheme url then record c { servers = K.push_back url c.servers } else c)

  unfoldable pub set_user_password : String → String → ConnConfig K → ConnConfig K
  set_user_password user password c = record c { user = user; password = password }

  unfoldable pub set_token : String → ConnConfig K → ConnConfig K
  set_token token c = record c { password = token }

  unfoldable pub enable_reconnect : ℤ → ℤ → ℤ → ℤ → ConnConfig K → ConnConfig K
  enable_reconnect max_reconnect buf_size timeout wait c = record c {
    allow_reconnect = true;
    max_reconnect = max_reconnect;
    connect_timeout = timeout;
    reconnect_wait = wait;
    reconnect_buf_size = buf_size;
  }

  unfoldable pub disable_reconnect : ConnConfig K → ConnConfig K
  disable_reconnect c = record c {
    allow_reconnect = false;
    max_reconnect = pos 0;
    connect_timeout = pos 0;
    reconnect_wait = pos 0;
    reconnect_buf_size = negsuc 0;
  }

  unfoldable pub enable_tls : String → String → String → Bool → ℤ → ConnConfig K → ConnConfig K
  enable_tls ca cert key skip version c = record c {
    use_tls = true;
    min_tls_ver = if not (is_version version) then version_tls10 else version;
    ca_cert_path = ca;
    tls_client_cert = cert;
    key_path = key;
    insecure_skip_verify = skip;
  }

  unfoldable pub disable_tls : ConnConfig K → ConnConfig K
  disable_tls c = record c {
    use_tls = false;
    ca_cert_path = "";
    tls_client_cert = "";
    key_path = "";
    insecure_skip_verify = false;
    min_tls_ver = version_tls10;
  }

  unfoldable pub set_name : String → ConnConfig K → ConnConfig K
  set_name name c = record c { name = name }

  unfoldable pub set_ping : ℤ → ℤ → ConnConfig K → ConnConfig K
  set_ping interval retry c = record c {
    ping_interval = if ltb_ℤ interval (pos 0) then default_ping_interval else interval;
    max_pings_out = if ltb_ℤ retry (pos 1) then default_max_pings_out else retry;
  }

  unfoldable pub new_core : CoreConfig K
  new_core = record { topics = K.empty; queue_group = ""; max_pending = pos 0; has_handler = false }

  unfoldable pub add_topics : List String → CoreConfig K → CoreConfig K
  add_topics [] c = c
  add_topics (t ∷ ts) c =
      add_topics ts (if str_eq t "" then c else record c { topics = K.push_back t c.topics })

  unfoldable pub set_queue_group : String → CoreConfig K → CoreConfig K
  set_queue_group group c = record c { queue_group = group }

  unfoldable pub set_max_pending : ℤ → CoreConfig K → CoreConfig K
  set_max_pending max c = record c { max_pending = if ltb_ℤ max (pos 0) then pos 0 else max }

  unfoldable pub new_config : Config K
  unfolding new_conn
  new_config = record {
    nats = new_conn "";
    core_nats = none;
    jet_stream = none;
    on_error = false;
    on_exit = false;
    on_ready = false;
  }

  unfoldable pub set_nats : ConnConfig K → Config K → Config K
  set_nats n c = record c { nats = n }

  unfoldable pub set_core_nats : Option (CoreConfig K) → Config K → Config K
  set_core_nats core c = record c { core_nats = core; jet_stream = none }

  unfoldable pub set_jet_stream : Option (StreamConfig K) → Config K → Config K
  set_jet_stream js c = record c { jet_stream = js; core_nats = none }
