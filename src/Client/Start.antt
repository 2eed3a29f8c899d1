-- ===== src/Client/Start.antt =====
-- client/src/main.cpp: which windows there are, what opens and closes them, and how the signals of
-- the services reach them. The slots of the windows are those of client/src/ui.
use nova_chat.Prelude.{Bool, true, false, Option, none, some, ◌++◌, if◌then◌else◌}
use nova_chat.Prelude.Text.{Text, bytes, text_eq, is_empty}
use nova_chat.Proto.{Wire}
use nova_chat.Client.TcpClient.{Signal, connected, connect_to_server, disconnect_from_server}
use nova_chat.Client.Db.Tables.{Db, LocalAccount}
use nova_chat.Client.Db.Users
use nova_chat.Client.App.{App, User, Event, auth_has_expired}
use nova_chat.Client.AuthService
use nova_chat.Client.AuthService.{logout}
use nova_chat.Client.ContactService
use nova_chat.Client.ChatService
use nova_chat.Client.ContactService.{sync_contacts}
use nova_chat.Client.ChatService.{sync_conversations}
use nova_chat.Client.EventLoop
use nova_chat.Client.Config.{AppConfig}
use nova_chat.Client.Ui.{Qt}
use nova_chat.Client.Ui.LoginWindow
use nova_chat.Client.Ui.LoginWindow.{LoginWindow, new_window}
use nova_chat.Client.Ui.SettingsDialog.{SettingsDialog, accept}
use nova_chat.Client.Ui.MainWindow
use nova_chat.Client.Ui.MainWindow.{MainWindow, new_main}

-- The windows on the screen. `opens_main` says whether the login window's loginSucceeded is
-- connected to `launch_main`; `launched` whether `launch_main` has run, whose connections outlive
-- the main window. The AuthService whose user `auth_user` is, is the one of the open window.
pub record Desktop : Type 0 where
  pub app : App
  pub login : Option LoginWindow
  pub opens_main : Bool
  pub main : Option MainWindow
  pub launched : Bool

-- What main comes to: it returns with a message box, or it runs with the windows, the local servers,
-- the database's file name and the log's.
pub data Launch (S : Type 0) : Type 0 where
  already_running : Launch S
  no_database : Launch S
  running : Desktop → S → Text → Text → Launch S

-- The profile and the names of its files.
unfoldable pub profile_of : Qt → Text → Text
profile_of qt value = if is_empty (qt.trimmed value) then bytes "default" else qt.trimmed value

unfoldable pub log_file : Text → Text
log_file profile =
    if text_eq profile (bytes "default")
    then bytes "novachat.log"
    else bytes "novachat_" ++ (profile ++ bytes ".log")

unfoldable pub db_filename : Text → Text
db_filename profile =
    if text_eq profile (bytes "default")
    then bytes "novachat.db"
    else bytes "novachat_" ++ (profile ++ bytes ".db")

-- kServerName of acquireSingleInstanceLock
unfoldable pub server_name : Text → Text
server_name profile = bytes "NovaChatInstance_" ++ profile

-- QLocalServer and QLocalSocket: what stands in the system under these names, whether a server of a
-- name answers the probe within its 200 ms, what removeServer leaves, and whether listen succeeds.
pub record LocalServers (S : Type 0) : Type 0 where
  pub answers : Text → S → Bool
  pub remove : Text → S → S
  pub listen : Text → S → Bool × S

-- What listen returns is not looked at: the lock is taken whether a server listens then or not.
unfoldable pub acquire_single_instance_lock : {S : Type 0} → LocalServers S → Text → S → Option S
unfolding server_name
acquire_single_instance_lock os profile servers =
    if os.answers (server_name profile) servers
    then none
    else some (os.listen (server_name profile) (os.remove (server_name profile) servers)).1

-- the user that is made of the active account
unfoldable pub user_of : LocalAccount → User
user_of active = record {
  server_id = active.server_id;
  username = active.username;
  display_name = active.display_name;
  avatar_url = active.avatar_url;
  token = active.token;
}

-- handle_auth_expired; the new login window's signals are connected to nothing
unfoldable pub handle_auth_expired : Desktop → Desktop
handle_auth_expired d = record d {
  app = record d.app { db = Users.clear_active d.app.db; tcp = disconnect_from_server d.app.tcp };
  login = some new_window;
  opens_main = false;
  main = none;
}

module _ (qt : Qt) (wire : Wire) where
  unfoldable pub launch_main : User → Desktop → Desktop
  launch_main user d =
      let a =
        ChatService.new_service user
          (ContactService.new_service user (AuthService.new_service d.app)) in
      record d { app = a; main = some (new_main qt user a); launched = true }

  -- the two branches of the selection, by the active account
  unfoldable pub open_window : Option LocalAccount → Desktop → Desktop
  unfolding user_of launch_main
  open_window (some active) d = launch_main (user_of active) d
  open_window none d = record d {
    app = AuthService.new_service d.app;
    login = some new_window;
    opens_main = true;
  }

  unfoldable pub select_window : App → Desktop
  unfolding open_window
  select_window a =
      open_window (Users.find_active a.db)
        (record { app = a; login = none; opens_main = false; main = none; launched = false })

  -- from the selection of the window to the event loop
  unfoldable pub start : AppConfig → App → Desktop
  unfolding select_window
  start config a =
      let d = select_window a in
      record d {
        app = record d.app {
          tcp = connect_to_server config.server.host config.server.port d.app.tcp;
        };
      }

  -- MainWindow::onLogout
  unfoldable pub on_logout : Desktop → Desktop
  on_logout d = record d {
    app = logout wire d.app;
    login = some new_window;
    opens_main = false;
    main = none;
  }

  -- the dialog's button Log Out, whose signal is connected to onLogout
  unfoldable pub on_log_out_clicked : SettingsDialog → Desktop → SettingsDialog × Desktop
  unfolding accept on_logout
  on_log_out_clicked dialog d = (accept dialog, on_logout d)

  -- what the login window's loginSucceeded is connected to
  abbrev login_succeeds : Option User → Desktop → Desktop
  login_succeeds none d = d
  login_succeeds (some user) d = if d.opens_main then launch_main user d else d

  unfoldable pub tell_login : Event → Option LoginWindow → Desktop → Desktop
  tell_login e none d = d
  tell_login e (some w) d =
      let (w', user) = LoginWindow.take_event e w in
      let told = login_succeeds user d in record told { login = if w'.shown then some w' else none }

  unfoldable pub tell_main : Event → Option MainWindow → Desktop → Desktop
  tell_main e none d = d
  tell_main e (some w) d = record d { main = some (MainWindow.take_event qt d.app e w) }

  -- a signal of a service; authExpired is taken after the slots that run at once
  unfoldable pub take_event : Event → Desktop → Desktop
  unfolding tell_login tell_main handle_auth_expired
  take_event auth_has_expired d = if d.launched then handle_auth_expired d else d
  take_event e d = tell_login e d.login (tell_main e d.main d)

  -- the connections of launch_main to TcpClient::connected
  unfoldable pub on_connected : Signal → App → App
  on_connected connected a = sync_conversations wire (sync_contacts wire a)
  on_connected other a = a

  -- a signal of TcpClient on the main thread: the main window, the chat service that launch_main
  -- made, and the two slots that it connected
  unfoldable pub take_signal : Signal → Desktop → Desktop
  unfolding on_connected
  take_signal s d = record d {
    app = if d.launched then on_connected s (EventLoop.take_signal wire s d.app) else d.app;
    main = elim d.main [ none ↦ none | some w ↦ some (MainWindow.take_signal qt s w) ];
  }

  -- main up to the event loop: how the process ends before it, or the desktop, the local servers that
  -- listen then and the log file. `value` is the profile option's value, `open_db` opens the database
  -- of a file name in the data directory; a DatabaseException is `none`.
  unfoldable pub run_main :
      {S : Type 0} → LocalServers S → Text → S → AppConfig → (Text → Option Db) → App → Launch S
  unfolding profile_of acquire_single_instance_lock
  run_main os value servers config open_db a =
      let profile = profile_of qt value in
      elim (acquire_single_instance_lock os profile servers) [
        | none ↦ already_running
        | some servers' ↦ elim (open_db (db_filename profile)) [
          | none ↦ no_database
          | some db ↦
              running (start config (record a { db = db })) servers' (db_filename profile)
                (log_file profile)
        ]
      ]
