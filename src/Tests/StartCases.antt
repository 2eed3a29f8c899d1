-- ===== src/Tests/StartCases.antt =====
-- The start of the client, logins and logouts, and the file of the configuration.
use nova_chat.Prelude.{
  ◌≢◌, List, ℕ, ◌≡◌, refl, false, true, Bool, Option, none, some, [], ◌∷◌, arith, if◌then◌else◌,
}
use nova_chat.Prelude.Text.{Text, bytes, text_eq, text_eq_refl}
use nova_chat.Prelude.Int.{ℤ}
use nova_chat.Client.IoThread.{io_steps, tasks, IsOff, attempt_succeeded, wait_over}
use nova_chat.Client.TcpClient.{TcpClient, connected, closed}
use nova_chat.Client.Db.Tables.{select_one}
use nova_chat.Client.Db.Users
use nova_chat.Client.App.{App, Callback, login_succeeded}
use nova_chat.Client.AuthService.{store_login}
use nova_chat.Client.Config.{AppConfig, Yaml, default_config, config_node, save, load}
use nova_chat.Client.Config.Saved.{IsFaithful, load-save}
use nova_chat.Client.Ui.LoginWindow.{LoginWindow, new_window, on_login_clicked}
use nova_chat.Client.Start.{
  Desktop, handle_auth_expired, launch_main, start, on_logout, take_event, take_signal,
}
use nova_chat.Client.Start.{
  Launch, running, run_main, profile_of, acquire_single_instance_lock, LocalServers, server_name,
  db_filename, log_file,
}
use nova_chat.Client.Ui.MainWindow.{MainWindow}
use nova_chat.Client.Process.{act, searches_contacts, told, with_main, Run, done, more, acts}
use nova_chat.Client.Home.{IsHome}
use nova_chat.Client.Runs.{Run-IsHome}
use nova_chat.Client.Profiles.{ListenAnswers, run_main_apart}
use nova_chat.Client.Restart.{
  user_from, start-store_login, logout_signs_in, login_asks_nothing, handle_auth_expired-IsOff,
}
use nova_chat.Tests.Data.{test_wire}
use nova_chat.Tests.ClientData.{app, logged_in, test_qt}

abbrev bare : App
bare = record app { db = record app.db { local_accounts = [] } }

abbrev desktop : Desktop
desktop = record {
  app = bare;
  login = some new_window;
  opens_main = true;
  main = none;
  launched = false;
}

start-store_login_example :
    (start test_qt test_wire default_config (record app {
      db = (store_login test_wire (bytes "alice") logged_in app).db;
    })).app.current_user
    ≡ user_from (bytes "alice") logged_in
start-store_login_example =
    (start-store_login test_qt test_wire default_config (bytes "alice") logged_in app
      (record app { db = (store_login test_wire (bytes "alice") logged_in app).db }) refl).0

abbrev signed_in : Desktop
signed_in =
    launch_main test_qt test_wire (user_from (bytes "alice") logged_in)
      (record desktop { app = store_login test_wire (bytes "alice") logged_in bare })

-- the client that is started on that database, and a search in its contact panel
abbrev remembering : App
remembering = record app { db = (store_login test_wire (bytes "alice") logged_in app).db }

abbrev opened : Desktop
opened = start test_qt test_wire default_config remembering

opened_window : (w : MainWindow) × (opened.main ≡ some w)
opened_window =
    let (w, e, user) =
      (start-store_login test_qt test_wire default_config (bytes "alice") logged_in app remembering
        refl).2 in
    (w, e)

abbrev searched : Desktop
searched = told test_qt test_wire (
    with_main opened
      (act test_qt test_wire (searches_contacts (bytes "b")) opened_window.0 opened.app))

searched-Run : Run test_qt test_wire opened searched
searched-Run = more (acts opened_window.0 (searches_contacts (bytes "b")) opened_window.1) done

Run-IsHome_example : IsHome test_qt searched
Run-IsHome_example =
    Run-IsHome test_qt test_wire refl default_config remembering searched refl searched-Run

logout_signs_in_example : (on_logout test_qt test_wire signed_in).app.tcp ≡ signed_in.app.tcp
logout_signs_in_example =
    (logout_signs_in test_qt test_wire default_config (bytes "alice") logged_in desktop
      (on_logout test_qt test_wire signed_in).app refl).0

bare_has_none : Users.find_active bare.db ≡ none
unfolding Users.find_active select_one
bare_has_none = refl

login_asks_nothing_example :
    (take_event test_qt test_wire (login_succeeded (user_from (bytes "alice") logged_in)) (
      take_signal test_qt test_wire connected
        (start test_qt test_wire default_config bare))).app.tcp
    ≡ (start test_qt test_wire default_config bare).app.tcp
login_asks_nothing_example =
    (login_asks_nothing test_qt test_wire default_config bare (user_from (bytes "alice") logged_in)
      bare_has_none).0

abbrev filled : LoginWindow
filled = record new_window { username = bytes "alice"; password = bytes "a" }

-- the socket's connection comes about and a wait ends behind the click
abbrev late : TcpClient Callback
late =
    io_steps (attempt_succeeded ∷ wait_over ∷ [])
      (on_login_clicked test_qt test_wire filled (handle_auth_expired desktop).app).1.tcp

handle_auth_expired-IsOff_example :
    (Users.find_active (handle_auth_expired desktop).app.db ≡ none)
    × IsOff late
    × ((io_steps (tasks late.posted) late).posted ≡ [])
    × ((io_steps (tasks late.posted) late).socket ≡ closed)
    × ((io_steps (tasks late.posted) late).reconnect_timer ≡ none)
handle_auth_expired-IsOff_example =
    handle_auth_expired-IsOff test_qt test_wire desktop filled (attempt_succeeded ∷ wait_over ∷ [])
      refl

-- A YAML library whose nodes are trees, and that parses every file to what was saved last.
data Tree : Type 0 where
  nothing : Tree
  text_leaf : Text → Tree
  port_leaf : ℕ → Tree
  int_leaf : ℤ → Tree
  branch : Tree → Text → Tree → Tree

find_key : Tree → Text → Option Tree
find_key (branch n k v) l = if text_eq k l then some v else find_key n l
find_key other l = none

is_branch : Tree → Bool
is_branch (branch n k v) = true
is_branch other = false

text_of : Tree → Option Text
text_of (text_leaf t) = some t
text_of other = none

port_of : Tree → Option ℕ
port_of (port_leaf p) = some p
port_of other = none

int_of : Tree → Option ℤ
int_of (int_leaf i) = some i
int_of other = none

abbrev trees : Tree → Yaml
trees saved = record {
  Node = Tree;
  parse = λ t. some saved;
  get = find_key;
  is_defined = is_branch;
  as_text = text_of;
  as_port = port_of;
  as_int = int_of;
  empty = nothing;
  text_node = text_leaf;
  port_node = port_leaf;
  int_node = int_leaf;
  put = branch;
  emit = λ n. [];
}

trees-IsFaithful : (saved : Tree) → IsFaithful (trees saved)
unfolding find_key is_branch text_of port_of int_of
trees-IsFaithful saved = record {
  get_put = λ n k v. rw (text_eq_refl k) refl;
  get_put_other = λ n k l v e. rw e refl;
  is_defined_put = λ n k v. refl;
  as_text_node = λ t. refl;
  as_port_node = λ p h. refl;
  as_int_node = λ i. refl;
}

abbrev file : Tree
file = config_node (trees nothing) default_config

abbrev other_config : AppConfig
other_config = record default_config { log = record { file = bytes "a.log"; level = [] } }

load-save_example :
    load (trees file) (some (save (trees file) default_config)) other_config ≡ default_config
unfolding config_node
load-save_example =
    load-save (trees file) default_config other_config (trees-IsFaithful file) (omega arith) refl

abbrev desktop_of : Desktop
desktop_of = start test_qt test_wire default_config app

-- the names that listen; each listen succeeds
is_listening : Text → List Text → Bool
is_listening name [] = false
is_listening name (n ∷ ns) =
    let later = is_listening name ns in if text_eq n name then true else later

abbrev local_servers : LocalServers (List Text)
local_servers = record {
  answers = is_listening;
  remove = λ name ns. ns;
  listen = λ name ns. (true, name ∷ ns);
}

listened : ListenAnswers local_servers
unfolding is_listening
listened name ns h = rw (text_eq_refl name) refl

abbrev runs_as : Text → List Text → Launch (List Text)
runs_as value servers =
    run_main test_qt test_wire local_servers value servers default_config (λ name. some app.db) app

alice_runs :
    runs_as (bytes "alice") []
    ≡ running desktop_of
        (server_name (bytes "alice") ∷ [])
        (db_filename (bytes "alice"))
        (log_file (bytes "alice"))
unfolding run_main profile_of acquire_single_instance_lock is_listening server_name
alice_runs = refl

bob_runs :
    runs_as (bytes "bob") (server_name (bytes "alice") ∷ [])
    ≡ running desktop_of
        (server_name (bytes "bob") ∷ server_name (bytes "alice") ∷ [])
        (db_filename (bytes "bob"))
        (log_file (bytes "bob"))
unfolding run_main profile_of acquire_single_instance_lock is_listening server_name text_eq
bob_runs = refl

run_main_apart_example :
    (db_filename (bytes "alice") ≢ db_filename (bytes "bob"))
    × (log_file (bytes "alice") ≢ log_file (bytes "bob"))
run_main_apart_example =
    run_main_apart local_servers test_qt test_wire (bytes "alice") (bytes "bob") []
      (server_name (bytes "alice") ∷ [])
      (server_name (bytes "bob") ∷ server_name (bytes "alice") ∷ []) default_config default_config
      (λ name. some app.db) (λ name. some app.db) app app desktop_of desktop_of
      (db_filename (bytes "alice")) (log_file (bytes "alice")) (db_filename (bytes "bob"))
      (log_file (bytes "bob")) listened refl alice_runs bob_runs
