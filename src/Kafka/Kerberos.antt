-- ===== src/Kafka/Kerberos.antt =====
-- Kerberos for the Kafka clients (kafkamq/kerberos_samara.go): the options from the environment or from
-- the files of the project, their validation, and what they set in the configuration of the library.
-- The environment is a function from names to values, empty where a name is not set, and os.Stat is a
-- function from paths to its answer.
pub mod Principal
use Prim.Native.Char.{Char, code}
use Prim.Native.String.{[] as no_text, ◌∷◌ as ◌⊳◌}
use kmq_utils.Prelude.{
  ℕ, ◌==◌, ◌⊎◌, inl, inr, Bool, true, false, ◌||◌, String, Option, none, some, List, [], ◌∷◌,
  str_eq, str_append, if◌then◌else◌,
}

pub record KerberosOptions : Type 0 where
  pub krb5_conf_path : String
  pub keytab_path : String
  pub principal : String
  pub service_name : String
  pub disable_pafxfast : Bool

-- The part Net.SASL of the library's configuration; the mechanism is GSSAPI with a keytab.
pub record Sasl : Type 0 where
  pub enable : Bool
  pub handshake : Bool
  pub gssapi : Bool
  pub keytab_auth : Bool
  pub username : String
  pub realm : String
  pub service_name : String
  pub kerberos_config_path : String
  pub keytab_path : String
  pub disable_pafxfast : Bool

pub data Failure : Type 0 where
  nil_config incomplete invalid_principal : Failure
  conf_not_found conf_unreadable keytab_not_found keytab_unreadable : Failure

-- What os.Stat answers.
pub data Stat : Type 0 where
  present not_exist inaccessible : Stat

-- The code point of '@'.
abbrev at_sign : ℕ
at_sign = 64

prepend : Char → List String → List String
prepend c [] = (c ⊳ no_text) ∷ []
prepend c (p ∷ ps) = (c ⊳ p) ∷ ps

-- strings.Split by "@".
unfoldable pub split_at : String → List String
unfolding prepend
split_at no_text = no_text ∷ []
split_at (c ⊳ s) =
    let rest = split_at s in (if code c == at_sign then no_text ∷ rest else prepend c rest)

two_parts : List String → Option (String × String)
two_parts [] = none
two_parts (a ∷ []) = none
two_parts (a ∷ b ∷ []) = some (a, b)
two_parts (a ∷ b ∷ c ∷ rest) = none

unfoldable pub parse_principal : String → Option (String × String)
unfolding two_parts split_at
parse_principal p = two_parts (split_at p)

is_incomplete : KerberosOptions → Bool
is_incomplete k = str_eq k.principal "" || (str_eq k.krb5_conf_path "" || str_eq k.keytab_path "")

-- ApplyKerberos behind the parser.
with_principal : KerberosOptions → Option (String × String) → Sasl → Failure ⊎ Sasl
with_principal k none g = inl invalid_principal
with_principal k (some (username, realm)) g = inr (record {
  enable = true;
  handshake = true;
  gssapi = true;
  keytab_auth = true;
  username = username;
  realm = realm;
  service_name = if str_eq k.service_name "" then "kafka" else k.service_name;
  kerberos_config_path = k.krb5_conf_path;
  keytab_path = k.keytab_path;
  disable_pafxfast = k.disable_pafxfast;
})

-- ApplyKerberos, on what the configuration holds before.
unfoldable pub apply_kerberos : Sasl → KerberosOptions → Failure ⊎ Sasl
unfolding is_incomplete with_principal parse_principal
apply_kerberos g k =
    if is_incomplete k then inl incomplete else with_principal k (parse_principal k.principal) g

check_conf : Stat → Option Failure
check_conf present = none
check_conf not_exist = some conf_not_found
check_conf inaccessible = some conf_unreadable

check_keytab : Stat → Option Failure
check_keytab present = none
check_keytab not_exist = some keytab_not_found
check_keytab inaccessible = some keytab_unreadable

check_files : Option (String × String) → Stat → Stat → Option Failure
unfolding check_conf check_keytab
check_files none conf keytab = some invalid_principal
check_files (some parts) conf keytab = elim (check_conf conf) [
  | some f ↦ some f
  | none ↦ check_keytab keytab
]

-- ValidateKerberosOptions.
unfoldable pub validate_kerberos_options : (String → Stat) → KerberosOptions → Option Failure
unfolding is_incomplete check_files parse_principal
validate_kerberos_options stat k =
    if is_incomplete k
    then some incomplete
    else check_files (parse_principal k.principal) (stat k.krb5_conf_path) (stat k.keytab_path)

applied : (String → Stat) → Sasl → KerberosOptions → Failure ⊎ Sasl
unfolding apply_kerberos validate_kerberos_options
applied stat g k = elim (validate_kerberos_options stat k) [
  | some f ↦ inl f
  | none ↦ apply_kerberos g k
]

-- applyKerberosProjectFiles; no configuration is a nil one.
unfoldable pub apply_kerberos_project_files : (String → Stat) → Option Sasl → Failure ⊎ Sasl
unfolding applied
apply_kerberos_project_files stat none = inl nil_config
apply_kerberos_project_files stat (some g) = applied stat g (record {
  krb5_conf_path = "kerberos/krb5.conf";
  keytab_path = "kerberos/jt_zhxny.keytab";
  principal = "jt_zhxny@TDH";
  service_name = "kafka";
  disable_pafxfast = false;
})

-- The values that disable PA-FX-FAST.
unfoldable pub is_yes : String → Bool
is_yes s =
    (str_eq s "true" || (str_eq s "True" || str_eq s "TRUE"))
    || (str_eq s "1" || (str_eq s "yes" || (str_eq s "Yes" || str_eq s "YES")))

-- The options from the variables whose names begin with a prefix.
from_env : (String → String) → String → KerberosOptions
unfolding is_yes
from_env env prefix = record {
  krb5_conf_path = env (str_append prefix "_KRB5_CONF");
  keytab_path = env (str_append prefix "_KRB5_KEYTAB");
  principal = env (str_append prefix "_KRB5_PRINCIPAL");
  service_name = env (str_append prefix "_KRB5_SERVICE");
  disable_pafxfast = is_yes (env (str_append prefix "_KRB5_DISABLEPAFXFAST"));
}

apply_env : (String → String) → (String → Stat) → String → Option Sasl → Failure ⊎ Sasl
unfolding from_env applied is_incomplete
apply_env env stat prefix none = inl nil_config
apply_env env stat prefix (some g) =
    if is_incomplete (from_env env prefix) then inr g else applied stat g (from_env env prefix)

unfoldable pub apply_consumer_kerberos_env :
    (String → String) → (String → Stat) → Option Sasl → Failure ⊎ Sasl
unfolding apply_env
apply_consumer_kerberos_env env stat g = apply_env env stat "CONSUMER" g

unfoldable pub apply_producer_kerberos_env :
    (String → String) → (String → Stat) → Option Sasl → Failure ⊎ Sasl
unfolding apply_env
apply_producer_kerberos_env env stat g = apply_env env stat "PRODUCER" g
