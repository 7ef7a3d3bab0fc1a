-- ===== src/Mqtt/Config/Fields.antt =====
-- The setters of a single field of the MQTT configuration (mqtt/config.go).
use kmq_utils.Prelude.{ℕ, Bool, String}
use kmq_utils.Prelude.Int.{ℤ}
use kmq_utils.KList.{KList}
use kmq_utils.Mqtt.Config.{Config}

module _ {K : KList String} where
  unfoldable pub add_broker : String → Config K → Config K
  add_broker x c = record c { broker = x }

  unfoldable pub set_client_id : String → Config K → Config K
  set_client_id x c = record c { client_id = x }

  unfoldable pub set_username : String → Config K → Config K
  set_username x c = record c { username = x }

  unfoldable pub set_password : String → Config K → Config K
  set_password x c = record c { password = x }

  unfoldable pub set_keep_alive : ℤ → Config K → Config K
  set_keep_alive x c = record c { keep_alive = x }

  unfoldable pub set_clean_session : Bool → Config K → Config K
  set_clean_session x c = record c { clean_session = x }

  unfoldable pub set_qos : ℕ → Config K → Config K
  set_qos x c = record c { qos = x }

  unfoldable pub set_will_topic : String → Config K → Config K
  set_will_topic x c = record c { will_topic = x }

  unfoldable pub set_will_payload : String → Config K → Config K
  set_will_payload x c = record c { will_payload = x }

  unfoldable pub set_will_qos : ℕ → Config K → Config K
  set_will_qos x c = record c { will_qos = x }

  unfoldable pub set_will_retain : Bool → Config K → Config K
  set_will_retain x c = record c { will_retain = x }

  unfoldable pub set_version : ℤ → Config K → Config K
  set_version x c = record c { version = x }

  unfoldable pub set_timeout : ℤ → Config K → Config K
  set_timeout x c = record c { timeout = x }

  unfoldable pub set_use_tls : Bool → Config K → Config K
  set_use_tls x c = record c { use_tls = x }

  unfoldable pub set_ca_cert_path : String → Config K → Config K
  set_ca_cert_path x c = record c { ca_cert_path = x }

  unfoldable pub set_ready_callback : Bool → Config K → Config K
  set_ready_callback x c = record c { on_ready = x }
