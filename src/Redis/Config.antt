-- ===== src/Redis/Config.antt =====
-- The configuration of Redis (redismq/config.go). Callbacks stand for whether they are set.
use kmq_utils.Prelude.{Bool, false, String, List, [], ◌∷◌, ◌++◌}
use kmq_utils.Prelude.Int.{ℤ, pos}

pub record RedisConfig : Type 0 where
  pub addrs : List String
  pub password : String
  pub db : ℤ
  pub retry : ℤ
  pub topics : List String
  pub on_error : Bool
  pub on_exit : Bool
  pub on_ready : Bool
  pub has_handler : Bool

unfoldable pub new_config : RedisConfig
new_config = record {
  addrs = "127.0.0.1:6379" ∷ [];
  password = "";
  db = pos 0;
  retry = pos 5;
  topics = [];
  on_error = false;
  on_exit = false;
  on_ready = false;
  has_handler = false;
}

unfoldable pub set_addrs : List String → RedisConfig → RedisConfig
set_addrs xs c = record c { addrs = xs }

unfoldable pub set_password : String → RedisConfig → RedisConfig
set_password p c = record c { password = p }

unfoldable pub set_db : ℤ → RedisConfig → RedisConfig
set_db n c = record c { db = n }

unfoldable pub set_retry : ℤ → RedisConfig → RedisConfig
set_retry n c = record c { retry = n }

unfoldable pub set_topics : List String → RedisConfig → RedisConfig
set_topics xs c = record c { topics = xs }

unfoldable pub add_topic : String → RedisConfig → RedisConfig
add_topic t c = record c { topics = c.topics ++ t ∷ [] }

unfoldable pub set_error_callback : Bool → RedisConfig → RedisConfig
set_error_callback b c = record c { on_error = b }

unfoldable pub set_exit_callback : Bool → RedisConfig → RedisConfig
set_exit_callback b c = record c { on_exit = b }

unfoldable pub set_ready_callback : Bool → RedisConfig → RedisConfig
set_ready_callback b c = record c { on_ready = b }

unfoldable pub set_message_handler : Bool → RedisConfig → RedisConfig
set_message_handler b c = record c { has_handler = b }
