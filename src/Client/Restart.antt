-- ===== src/Client/Restart.antt =====
-- The windows of client/src/main.cpp across login, logout, the end of a token and the next start.
use nova_chat.Prelude.{
  ◌≡◌, refl, ap, subst, ◌∙◌, inl, inr, true, false, none, some, List, [], ◌||◌, ℕ, Bool-cases,
}
use nova_chat.Prelude.Text.{Text, is_empty}
use nova_chat.Proto.{Wire, LoginResponse}
use nova_chat.Client.TcpClient.{
  TcpClient, closed, connect_to_server, find_callback, next_seq_id, send_packet, send_request,
  on_connection_lost, disconnect_from_server, connected,
}
use nova_chat.Client.IoThread.{
  IoEvent, io_steps, io_steps-IsOff, IsOff, IsOff-settled, tasks, disconnect_is_final,
}
use nova_chat.Client.Requests.{callbacks_cleared}
use nova_chat.Client.Resync.{Resyncs, take_signal-Resyncs}
use nova_chat.Client.Db.Tables.{LocalAccount}
use nova_chat.Client.Db.Users
use nova_chat.Client.App.{App, Callback, User, Event, login_succeeded, login_failed, request}
use nova_chat.Client.AuthService.{store_login, logout, login}
use nova_chat.Client.AuthService
use nova_chat.Client.ContactService
use nova_chat.Client.ChatService
use nova_chat.Client.ContactService.{sync_contacts}
use nova_chat.Client.ChatService.{sync_conversations}
use nova_chat.Client.Session.{Holds, cleared, store_login-active}
use nova_chat.Client.Config.{AppConfig}
use nova_chat.Client.Ui.{Qt}
use nova_chat.Client.Ui.MainWindow.{MainWindow, new_main}
use nova_chat.Client.Ui.LoginWindow
use nova_chat.Client.Ui.LoginWindow.{LoginWindow, new_window, on_login_clicked}
use nova_chat.Client.Start.{
  Desktop, user_of, handle_auth_expired, launch_main, open_window, select_window, start, on_logout,
  take_event, take_signal, tell_login, tell_main,
}

-- A main window is open for this user, whom the services act for.
abbrev pub IsSignedIn : User → Desktop → Type 0
IsSignedIn user d =
    (d.app.current_user ≡ user)
    × (d.login ≡ none)
    × ((w : MainWindow) × (d.main ≡ some w) × (w.user ≡ user))

abbrev pub user_from : Text → LoginResponse → User
user_from username lr = record {
  server_id = lr.user_id;
  username = username;
  display_name = lr.display_name;
  avatar_url = lr.avatar_url;
  token = lr.token;
}

user_of_lem :
    (username : Text) (lr : LoginResponse) (r : LocalAccount)
    → Holds lr username r
    → user_of r ≡ user_from username lr
unfolding user_of
user_of_lem username lr r (i, n, d, v, t, active) = rw (i, n, d, v, t) refl

module _ (qt : Qt) (wire : Wire) where
  start-active :
      (config : AppConfig) (b : App) (r : LocalAccount)
      → Users.find_active b.db ≡ some r
      → IsSignedIn (user_of r) (start qt wire config b)
  unfolding start select_window open_window launch_main ChatService.new_service
      ContactService.new_service new_main user_of
  start-active config b r h = rw h (refl, refl, (_, refl, refl))

  -- A start on a database in which a login was stored opens the main window for the user who
  -- logged in, with what the server sent for that user.
  pub start-store_login :
      (config : AppConfig) (username : Text) (lr : LoginResponse) (a b : App)
      → b.db ≡ (store_login wire username lr a).db
      → IsSignedIn (user_from username lr) (start qt wire config b)
  start-store_login config username lr a b kept =
      let (only, r, found, same) = store_login-active wire username lr a in
      subst (λ u. IsSignedIn u (start qt wire config b)) (user_of_lem username lr r same)
        (start-active config b r (ap Users.find_active kept ∙ found))

  -- A logout from the main window that follows a login sends nothing, and the next start on its
  -- database signs the same user in again: the AuthService of the window has no user, so its logout
  -- returns before it does anything.
  pub logout_signs_in :
      (config : AppConfig) (username : Text) (lr : LoginResponse) (d : Desktop) (b : App)
      → let signed_in : Desktop =
          launch_main qt wire
            (user_from username lr)
            (record d { app = store_login wire username lr d.app }) in
        b.db ≡ (on_logout qt wire signed_in).app.db
        → ((on_logout qt wire signed_in).app.tcp ≡ signed_in.app.tcp)
          × IsSignedIn (user_from username lr) (start qt wire config b)
  unfolding on_logout launch_main logout AuthService.new_service ContactService.new_service
      ChatService.new_service
  logout_signs_in config username lr d b kept =
      (refl, start-store_login config username lr d.app b kept)

  -- Where no account is active, the start shows a login window. The signal of the connection and
  -- then that of a login that succeeded open the main window of that user, but send nothing. At a
  -- signal of a connection after that, the contacts and the conversations are asked for.
  pub login_asks_nothing :
      (config : AppConfig) (b : App) (user : User)
      → Users.find_active b.db ≡ none
      → let d : Desktop = start qt wire config b in
        let d' : Desktop =
          take_event qt wire (login_succeeded user) (take_signal qt wire connected d) in
        (d'.app.tcp ≡ d.app.tcp)
        × IsSignedIn user d'
        × Resyncs d'.app (take_signal qt wire connected d').app
  unfolding take_event take_signal tell_login tell_main start select_window open_window launch_main
      ChatService.new_service ContactService.new_service new_main LoginWindow.take_event
      connect_to_server AuthService.new_service
  login_asks_nothing config b user h =
      let d' : Desktop =
        take_event qt wire (login_succeeded user)
          (take_signal qt wire connected (start qt wire config b)) in
      let launched : d'.launched ≡ true = rw h refl in
      let signed_in : IsSignedIn user d' = rw h (refl, refl, (_, refl, refl)) in
      (rw h refl, signed_in, take_signal-Resyncs qt wire d' launched)

  -- The login window that stands in the place of the main window, after a logout or after a token
  -- expired, closes when the login succeeds, and no other window opens.
  pub login_opens_nothing :
      (d : Desktop) (user : User)
      → let out : Desktop = take_event qt wire (login_succeeded user) (on_logout qt wire d) in
        let expired : Desktop = take_event qt wire (login_succeeded user) (handle_auth_expired d) in
        ((out.login ≡ none) × (out.main ≡ none)) × ((expired.login ≡ none) × (expired.main ≡ none))
  unfolding take_event tell_login tell_main on_logout handle_auth_expired LoginWindow.take_event
  login_opens_nothing d user = ((refl, refl), (refl, refl))

  login-IsOff :
      (username password : Text) (a : App)
      → IsOff a.tcp
      → IsOff (login wire username password a).tcp
  unfolding login request send_request send_packet next_seq_id
  login-IsOff username password a v = record {
    by_hand = v.by_hand;
    unchecked = v.unchecked;
    shut = v.shut;
    no_wait = v.no_wait;
  }

  on_login_clicked-IsOff :
      (w : LoginWindow) (a : App) → IsOff a.tcp → IsOff (on_login_clicked qt wire w a).1.tcp
  unfolding on_login_clicked
  on_login_clicked-IsOff w a v =
      elim (Bool-cases (is_empty (qt.trimmed w.username) || is_empty w.password)) [
        | inl blank ↦ rw blank v
        | inr filled ↦ rw filled (login-IsOff (qt.trimmed w.username) w.password a v)
      ]

  -- When a token has expired no account is active any more. After that, whatever is typed into the
  -- login window and whatever happens on the io thread, the client stays disconnected by hand, and
  -- when all that is posted then has run, its socket is closed and no wait for another attempt is
  -- left; if no handler of the reconnect timer stood between its question and its call of doConnect.
  pub handle_auth_expired-IsOff :
      (d : Desktop) (w : LoginWindow) (es : List IoEvent)
      → d.app.tcp.checked ≡ false
      → let a : App = (handle_auth_expired d).app in
        let t : TcpClient Callback = io_steps es (on_login_clicked qt wire w a).1.tcp in
        let u : TcpClient Callback = io_steps (tasks t.posted) t in
        (Users.find_active a.db ≡ none)
        × IsOff t
        × (u.posted ≡ [])
        × (u.socket ≡ closed)
        × (u.reconnect_timer ≡ none)
  unfolding handle_auth_expired Users.find_active Users.clear_active on_login_clicked login request
      disconnect_from_server io_steps
  handle_auth_expired-IsOff d w es unchecked =
      let off : IsOff (io_steps es (on_login_clicked qt wire w (handle_auth_expired d).app).1.tcp) =
        io_steps-IsOff es _ (
          on_login_clicked-IsOff w (handle_auth_expired d).app
            (disconnect_is_final [] d.app.tcp unchecked)) in
      let t : TcpClient Callback =
        io_steps es (on_login_clicked qt wire w (handle_auth_expired d).app).1.tcp in
      let (posted, socket, timer) = IsOff-settled t.posted t refl off in
      (cleared d.app.db.local_accounts, off, posted, socket, timer)

  stays_off :
      (e : Event) (w : LoginWindow)
      → w.can_login ≡ false
      → ((reason : Text) → ¬ (e ≡ login_failed reason))
      → (LoginWindow.take_event e w).0.can_login ≡ false
  unfolding LoginWindow.take_event
  stays_off (login_failed reason) w off other = absurd (other reason refl)
  stays_off e w off other = off

  -- A click on Login with a name that is not blank and a password disables the button and asks the
  -- server. If the connection is lost while the answer is waited for, no callback is left to run,
  -- and no signal of the services but a failed login enables the button again.
  pub lost_login :
      (w : LoginWindow) (a : App) (e : Event)
      → is_empty (qt.trimmed w.username) ≡ false
      → is_empty w.password ≡ false
      → ((reason : Text) → ¬ (e ≡ login_failed reason))
      → let (w', a') = on_login_clicked qt wire w a in
        (a' ≡ login wire (qt.trimmed w.username) w.password a)
        × ((k : ℕ) → find_callback (on_connection_lost a'.tcp).callbacks k ≡ none)
        × (w'.can_login ≡ false)
        × ((LoginWindow.take_event e w').0.can_login ≡ false)
  unfolding on_login_clicked
  lost_login w a e named secret other =
      rw (named, secret)
        (
          refl,
          λ k. (callbacks_cleared (login wire (qt.trimmed w.username) w.password a).tcp k).1,
          refl,
          stays_off e (record w { can_login = false; error = none }) refl other,
        )
