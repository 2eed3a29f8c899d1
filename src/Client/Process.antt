-- ===== src/Client/Process.antt =====
-- The client as a process: what Qt's event loop may run next (client/src/main.cpp, the windows of
-- client/src/ui and the io thread of client/src/network), one slot or handler at a time.
use nova_chat.Prelude.{Bool, true, ◌≡◌, some, List, [], ◌∷◌}
use nova_chat.Prelude.Text.{Text}
use nova_chat.Prelude.Int.{ℤ}
use nova_chat.Proto.{Wire}
use nova_chat.Client.TcpClient.{Signal}
use nova_chat.Client.IoThread.{IoEvent, io_step}
use nova_chat.Client.Db.Tables.{Contact}
use nova_chat.Client.App.{App, Event, auth_has_expired}
use nova_chat.Client.EventLoop.{run_next}
use nova_chat.Client.Ui.{Qt}
use nova_chat.Client.Ui.ChatView.{ChatView, on_scrolled, on_send_clicked, on_key}
use nova_chat.Client.Ui.ContactPanel.{Entry, on_search_changed, on_remove_friend}
use nova_chat.Client.Ui.AddFriendDialog.{AddFriendDialog, on_search_clicked, on_add_clicked}
use nova_chat.Client.Ui.RegisterDialog.{RegisterDialog, on_register_clicked}
use nova_chat.Client.Ui.LoginWindow.{LoginWindow, on_login_clicked}
use nova_chat.Client.Ui.MainWindow.{MainWindow, on_conversation_selected, on_contact_selected}
use nova_chat.Client.Start.{Desktop, take_event, take_signal, handle_auth_expired, on_logout}

-- What the user does in the main window; a dialog is what stands in its fields then.
pub data Act : Type 0 where
  selects_conversation : Text → Act
  selects_contact : Contact → Act
  types : Text → Act
  scrolls : Bool → Act
  clicks_send : Act
  presses : Bool → Bool → Act
  searches_contacts : Text → Act
  removes_friend : Bool → Entry → Act
  searches_user : AddFriendDialog → Act
  adds_friend : ℤ → AddFriendDialog → Act

-- a slot of the chat view, in the window that holds it
abbrev pub in_view : MainWindow → ChatView × App → MainWindow × App
in_view w (view, a) = (record w { chat_view = view }, a)

-- what a slot leaves, on the desktop
abbrev pub with_login : Desktop → LoginWindow × App → Desktop
with_login d (w, a) = record d { login = some w; app = a }

abbrev pub with_main : Desktop → MainWindow × App → Desktop
with_main d (w, a) = record d { main = some w; app = a }

module _ (qt : Qt) (wire : Wire) where
  -- the slot that the act runs
  unfoldable pub act : Act → MainWindow → App → MainWindow × App
  unfolding on_conversation_selected on_contact_selected on_scrolled on_send_clicked on_key
      on_search_changed on_remove_friend on_search_clicked on_add_clicked
  act (selects_conversation id) w a = on_conversation_selected wire id w a
  act (selects_contact c) w a = on_contact_selected wire c w a
  act (types text) w a = (record w { chat_view = record w.chat_view { input = text } }, a)
  act (scrolls at_top) w a = in_view w (on_scrolled wire at_top w.chat_view a)
  act clicks_send w a = in_view w (on_send_clicked wire qt w.chat_view a)
  act (presses is_return shift) w a = in_view w (on_key wire qt is_return shift w.chat_view a).1
  act (searches_contacts text) w a =
      (record w { contact_panel = on_search_changed qt text w.contact_panel }, a)
  act (removes_friend agreed item) w a = (w, on_remove_friend wire agreed item a)
  act (searches_user dialog) w a = (w, (on_search_clicked qt wire dialog a).1)
  act (adds_friend row dialog) w a = (w, (on_add_clicked wire row dialog a).1)

  -- The slots of a signal that a service emits run at once, but those of authExpired are queued.
  unfoldable pub tell : Event → Desktop → Desktop
  unfolding take_event
  tell auth_has_expired d = d
  tell e d = take_event qt wire e d

  unfoldable pub tell_all : List Event → Desktop → Desktop
  unfolding tell
  tell_all [] d = d
  tell_all (e ∷ es) d = tell_all es (tell e d)

  -- what a slot has emitted is told, with what the slot left of the services
  unfoldable pub told : Desktop → Desktop
  unfolding tell_all
  told d = tell_all d.app.events (record d { app = record d.app { events = [] } })

  -- One step: a handler of the io thread, a callback or signal that it posted, the queued end of a
  -- token (which may come whenever a main window was launched), or something that the user does. A
  -- callback that ends the process has no step.
  pub data Step : Desktop → Desktop → Type 0 where
    handles_io :
        {d : Desktop} (e : IoEvent)
        → Step d (record d { app = record d.app { tcp = io_step e d.app.tcp } })
    runs_callback :
        {d : Desktop} (a : App)
        → run_next wire d.app ≡ some a
        → Step d (told (record d { app = a }))
    takes_signal :
        {d : Desktop} (s : Signal) (rest : List Signal)
        → d.app.tcp.signals ≡ s ∷ rest
        → Step d (
            told (
              take_signal qt wire s
                (record d { app = record d.app { tcp = record d.app.tcp { signals = rest } } })))
    token_expired : {d : Desktop} → d.launched ≡ true → Step d (handle_auth_expired d)
    fills_login :
        {d : Desktop} (w : LoginWindow) (username password : Text)
        → d.login ≡ some w
        → Step d (record d { login = some (record w { username = username; password = password }) })
    clicks_login :
        {d : Desktop} (w : LoginWindow)
        → d.login ≡ some w
        → Step d (told (with_login d (on_login_clicked qt wire w d.app)))
    registers :
        {d : Desktop} (w : LoginWindow) (dialog : RegisterDialog)
        → d.login ≡ some w
        → Step d (told (record d { app = (on_register_clicked qt wire dialog d.app).1 }))
    acts :
        {d : Desktop} (w : MainWindow) (what : Act)
        → d.main ≡ some w
        → Step d (told (with_main d (act what w d.app)))
    logs_out :
        {d : Desktop} (w : MainWindow) → d.main ≡ some w → Step d (told (on_logout qt wire d))

  pub data Run : Desktop → Desktop → Type 0 where
    done : {d : Desktop} → Run d d
    more : {d e f : Desktop} → Step d e → Run e f → Run d f
