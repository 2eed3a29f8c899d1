-- ===== src/Client/Config.antt =====
-- client/src/config/AppConfig.h and AppConfig.cpp. The YAML library and the file are a parameter.
pub mod Saved
use nova_chat.Prelude.{ℕ, Bool, true, false, List, Option, none, some, [], ◌∷◌, if◌then◌else◌}
use nova_chat.Prelude.Text.{Text, bytes}
use nova_chat.Prelude.Int.{ℤ, pos}

pub record ServerConfig : Type 0 where
  pub host : Text
  pub port : ℕ
  pub heartbeat_interval_sec : ℤ
  pub reconnect_interval_sec : ℤ

pub record LogConfig : Type 0 where
  pub file : Text
  pub level : Text

pub record AppConfig : Type 0 where
  pub server : ServerConfig
  pub log : LogConfig

abbrev pub default_config : AppConfig
default_config = record {
  server = record {
    host = bytes "127.0.0.1";
    port = 9527;
    heartbeat_interval_sec = pos 30;
    reconnect_interval_sec = pos 5;
  };
  log = record { file = bytes "novachat.log"; level = bytes "debug" };
}

-- yaml-cpp: `parse` of a file's text is `none` where LoadFile throws, `get` of a node and a key is
-- `none` where the brackets throw, `is_defined` is the node's test for a Bool, the three `as` are
-- `none` where the value is not there or is no such value, and then the fallback is taken.
-- `text_node`, `port_node` and `int_node` are nodes of a value, `put` is the assignment to a key, `emit` the stream operator.
pub record Yaml : Type 1 where
  pub Node : Type 0
  pub parse : Text → Option Node
  pub get : Node → Text → Option Node
  pub is_defined : Node → Bool
  pub as_text : Node → Option Text
  pub as_port : Node → Option ℕ
  pub as_int : Node → Option ℤ
  pub empty : Node
  pub text_node : Text → Node
  pub port_node : ℕ → Node
  pub int_node : ℤ → Node
  pub put : Node → Text → Node → Node
  pub emit : Node → Text

-- An assignment of load, and where the exception of its brackets is thrown.
abbrev Step : Type 0
Step = AppConfig → Option AppConfig

-- The assignments up to the first that throws; the test says whether none did.
unfoldable pub run_steps : List Step → AppConfig → AppConfig × Bool
run_steps [] c = (c, true)
run_steps (step ∷ steps) c = elim (step c) [ none ↦ (c, false) | some c' ↦ run_steps steps c' ]

-- as<T>(fallback)
abbrev pub or_fallback {ℓ} : {A : Type ℓ} → A → Option A → A
or_fallback fallback none = fallback
or_fallback fallback (some v) = v

module _ (yaml : Yaml) where
  -- target = s[key].as<T>(target), with `assign` for the assignment
  abbrev pub field {ℓ} :
      {A : Type ℓ}
      → Text
      → (yaml.Node → Option A)
      → (AppConfig → A)
      → (A → AppConfig → AppConfig)
      → yaml.Node
      → Step
  field key as_value current assign s c = elim (yaml.get s key) [
    | none ↦ none
    | some n ↦ some (assign (or_fallback (current c) (as_value n)) c)
  ]

  unfoldable pub server_steps : yaml.Node → List Step
  server_steps s =
      field (bytes "host") yaml.as_text (λ c. c.server.host)
        (λ v c. record c { server = record c.server { host = v } }) s
      ∷ field (bytes "port") yaml.as_port (λ c. c.server.port)
          (λ v c. record c { server = record c.server { port = v } }) s
      ∷ field (bytes "heartbeat_interval_sec") yaml.as_int (λ c. c.server.heartbeat_interval_sec)
          (λ v c. record c { server = record c.server { heartbeat_interval_sec = v } }) s
      ∷ field (bytes "reconnect_interval_sec") yaml.as_int (λ c. c.server.reconnect_interval_sec)
          (λ v c. record c { server = record c.server { reconnect_interval_sec = v } }) s
      ∷ []

  unfoldable pub log_steps : yaml.Node → List Step
  log_steps l =
      field (bytes "file") yaml.as_text (λ c. c.log.file)
        (λ v c. record c { log = record c.log { file = v } }) l
      ∷ field (bytes "level") yaml.as_text (λ c. c.log.level)
          (λ v c. record c { log = record c.log { level = v } }) l
      ∷ []

  -- if (auto s = cfg[key]) { the steps }
  unfoldable pub load_section :
      Text → (yaml.Node → List Step) → yaml.Node → AppConfig → AppConfig × Bool
  unfolding run_steps
  load_section key steps cfg c = elim (yaml.get cfg key) [
    | none ↦ (c, false)
    | some s ↦ if yaml.is_defined s then run_steps (steps s) c else (c, true)
  ]

  unfoldable pub load_node : yaml.Node → AppConfig → AppConfig
  unfolding load_section server_steps log_steps
  load_node cfg c =
      let (c', ok) = load_section (bytes "server") server_steps cfg c in
      if ok then (load_section (bytes "log") log_steps cfg c').0 else c'

  -- the file's text, or `none` where it cannot be read; an exception keeps what was assigned
  unfoldable pub load : Option Text → AppConfig → AppConfig
  unfolding load_node
  load none c = c
  load (some file) c = elim (yaml.parse file) [ none ↦ c | some cfg ↦ load_node cfg c ]

  unfoldable pub server_node : ServerConfig → yaml.Node
  server_node s =
      yaml.put
        (yaml.put
          (yaml.put (yaml.put yaml.empty (bytes "host") (yaml.text_node s.host)) (bytes "port")
            (yaml.port_node s.port))
          (bytes "heartbeat_interval_sec") (yaml.int_node s.heartbeat_interval_sec))
        (bytes "reconnect_interval_sec") (yaml.int_node s.reconnect_interval_sec)

  unfoldable pub log_node : LogConfig → yaml.Node
  log_node l =
      yaml.put (yaml.put yaml.empty (bytes "file") (yaml.text_node l.file)) (bytes "level")
        (yaml.text_node l.level)

  unfoldable pub config_node : AppConfig → yaml.Node
  unfolding server_node log_node
  config_node c =
      yaml.put (yaml.put yaml.empty (bytes "server") (server_node c.server)) (bytes "log")
        (log_node c.log)

  -- what the file holds afterwards
  unfoldable pub save : AppConfig → Text
  unfolding config_node
  save c = yaml.emit (config_node c)
