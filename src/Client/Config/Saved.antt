-- ===== src/Client/Config/Saved.antt =====
-- What is saved is loaded again.
use nova_chat.Prelude.{ℕ, ◌^◌, ◌<◌, ◌≡◌, refl, ◌∙◌, true, false, List, Option, some}
use nova_chat.Prelude.Text.{Text, bytes, text_eq}
use nova_chat.Prelude.Int.{ℤ}
use nova_chat.Client.Config.{
  AppConfig, ServerConfig, LogConfig, Yaml, field, run_steps, load_section, load_node, load,
  server_steps, log_steps, server_node, log_node, config_node, save,
}

-- What the code relies on: a node gives back what was put under a key, and what it had under the
-- others; a map is defined; a value is read back as it was written.
pub record IsFaithful (yaml : Yaml) : Type 0 where
  pub get_put : (n : yaml.Node) (k : Text) (v : yaml.Node) → yaml.get (yaml.put n k v) k ≡ some v
  pub get_put_other :
      (n : yaml.Node) (k l : Text) (v : yaml.Node)
      → text_eq k l ≡ false
      → yaml.get (yaml.put n k v) l ≡ yaml.get n l
  pub is_defined_put :
      (n : yaml.Node) (k : Text) (v : yaml.Node) → yaml.is_defined (yaml.put n k v) ≡ true
  pub as_text_node : (t : Text) → yaml.as_text (yaml.text_node t) ≡ some t
  pub as_port_node : (p : ℕ) → p < 2 ^ 16 → yaml.as_port (yaml.port_node p) ≡ some p
  pub as_int_node : (i : ℤ) → yaml.as_int (yaml.int_node i) ≡ some i

module _ (yaml : Yaml) (v : IsFaithful yaml) where
  server-saved :
      (s : ServerConfig) (c : AppConfig)
      → s.port < 2 ^ 16
      → run_steps (server_steps yaml (server_node yaml s)) c ≡ (record c { server = s }, true)
  unfolding run_steps server_steps server_node text_eq
  server-saved s c small =
      let host_key : Text = bytes "host" in
      let port_key : Text = bytes "port" in
      let beat_key : Text = bytes "heartbeat_interval_sec" in
      let last_key : Text = bytes "reconnect_interval_sec" in
      let n1 : yaml.Node = yaml.put yaml.empty host_key (yaml.text_node s.host) in
      let n2 : yaml.Node = yaml.put n1 port_key (yaml.port_node s.port) in
      let n3 : yaml.Node = yaml.put n2 beat_key (yaml.int_node s.heartbeat_interval_sec) in
      let last : yaml.Node = yaml.int_node s.reconnect_interval_sec in
      let n4 : yaml.Node = yaml.put n3 last_key last in
      let host : yaml.get n4 host_key ≡ some (yaml.text_node s.host) =
        v.get_put_other n3 last_key host_key last refl
        ∙ v.get_put_other n2 beat_key host_key (yaml.int_node s.heartbeat_interval_sec) refl
        ∙ v.get_put_other n1 port_key host_key (yaml.port_node s.port) refl
        ∙ v.get_put yaml.empty host_key (yaml.text_node s.host) in
      let port : yaml.get n4 port_key ≡ some (yaml.port_node s.port) =
        v.get_put_other n3 last_key port_key last refl
        ∙ v.get_put_other n2 beat_key port_key (yaml.int_node s.heartbeat_interval_sec) refl
        ∙ v.get_put n1 port_key (yaml.port_node s.port) in
      let beat : yaml.get n4 beat_key ≡ some (yaml.int_node s.heartbeat_interval_sec) =
        v.get_put_other n3 last_key beat_key last refl
        ∙ v.get_put n2 beat_key (yaml.int_node s.heartbeat_interval_sec) in
      rw
        (
          host,
          port,
          beat,
          v.get_put n3 last_key last,
          v.as_text_node s.host,
          v.as_port_node s.port small,
          v.as_int_node s.heartbeat_interval_sec,
          v.as_int_node s.reconnect_interval_sec,
          run_steps,
          field,
        )
        refl

  log-saved :
      (l : LogConfig) (c : AppConfig)
      → run_steps (log_steps yaml (log_node yaml l)) c ≡ (record c { log = l }, true)
  unfolding run_steps log_steps log_node text_eq
  log-saved l c =
      let file_key : Text = bytes "file" in
      let level_key : Text = bytes "level" in
      let n1 : yaml.Node = yaml.put yaml.empty file_key (yaml.text_node l.file) in
      let level : yaml.Node = yaml.text_node l.level in
      let file : yaml.get (yaml.put n1 level_key level) file_key ≡ some (yaml.text_node l.file) =
        v.get_put_other n1 level_key file_key level refl
        ∙ v.get_put yaml.empty file_key (yaml.text_node l.file) in
      rw
        (
          file,
          v.get_put n1 level_key level,
          v.as_text_node l.file,
          v.as_text_node l.level,
          run_steps,
          field,
        )
        refl

  section_lem :
      (key : Text) (steps : yaml.Node → List (AppConfig → Option AppConfig)) (cfg n : yaml.Node)
      (c c' : AppConfig)
      → yaml.get cfg key ≡ some n
      → yaml.is_defined n ≡ true
      → run_steps (steps n) c ≡ (c', true)
      → load_section yaml key steps cfg c ≡ (c', true)
  unfolding load_section
  section_lem key steps cfg n c c' h d r = rw (h, d, load_section) r

  load_node-config_node :
      (c before : AppConfig)
      → c.server.port < 2 ^ 16
      → load_node yaml (config_node yaml c) before ≡ c
  unfolding load_node config_node text_eq server_node log_node
  load_node-config_node c before small =
      let server_key : Text = bytes "server" in
      let log_key : Text = bytes "log" in
      let cfg : yaml.Node = config_node yaml c in
      let server : yaml.Node = server_node yaml c.server in
      let log : yaml.Node = log_node yaml c.log in
      let first : yaml.Node = yaml.put yaml.empty server_key server in
      let half : AppConfig = record before { server = c.server } in
      let server_loaded : load_section yaml server_key (server_steps yaml) cfg before
          ≡ (half, true) =
        section_lem server_key (server_steps yaml) cfg server before half
          (v.get_put_other first log_key server_key log refl
            ∙ v.get_put yaml.empty server_key server)
          (v.is_defined_put _ _ _) (server-saved c.server before small) in
      let log_loaded : load_section yaml log_key (log_steps yaml) cfg half ≡ (c, true) =
        section_lem log_key (log_steps yaml) cfg log half c (v.get_put first log_key log)
          (v.is_defined_put _ _ _) (log-saved c.log half) in
      rw (server_loaded, log_loaded, load_node) refl

-- If the YAML library gives back what it was given and parses the file that it has printed of the
-- configuration, a configuration that was saved is loaded again, whatever was configured before;
-- its port is below 2 ^ 16.
pub load-save :
    (yaml : Yaml) (c before : AppConfig)
    → IsFaithful yaml
    → c.server.port < 2 ^ 16
    → yaml.parse (save yaml c) ≡ some (config_node yaml c)
    → load yaml (some (save yaml c)) before ≡ c
unfolding load
load-save yaml c before v small parsed =
    rw (parsed, load) (load_node-config_node yaml v c before small)
