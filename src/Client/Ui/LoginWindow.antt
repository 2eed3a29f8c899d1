-- ===== src/Client/Ui/LoginWindow.antt =====
-- client/src/ui/LoginWindow.h and LoginWindow.cpp
use nova_chat.Prelude.{Bool, true, false, ◌||◌, Option, none, some, [], if◌then◌else◌}
use nova_chat.Prelude.Text.{Text, bytes, is_empty}
use nova_chat.Proto.{Wire}
use nova_chat.Client.App.{App, User, Event, login_succeeded, login_failed}
use nova_chat.Client.AuthService.{login}
use nova_chat.Client.Ui.{Qt}

-- The texts of the fields; `error` is the label's text where it is shown; `shown` ends with close().
pub record LoginWindow : Type 0 where
  pub username : Text
  pub password : Text
  pub can_login : Bool
  pub error : Option Text
  pub shown : Bool

abbrev pub new_window : LoginWindow
new_window = record { username = []; password = []; can_login = true; error = none; shown = true }

module _ (qt : Qt) (wire : Wire) where
  unfoldable pub on_login_clicked : LoginWindow → App → LoginWindow × App
  on_login_clicked w a =
      let username = qt.trimmed w.username in
      if is_empty username || is_empty w.password
      then (record w { error = some (bytes "Please enter username and password") }, a)
      else (record w { can_login = false; error = none }, login wire username w.password a)

unfoldable pub on_login_failed : Text → LoginWindow → LoginWindow
on_login_failed reason w = record w { error = some reason; can_login = true }

-- the connections of the constructor, and the user that the window's own loginSucceeded is emitted
-- with before it closes
unfoldable pub take_event : Event → LoginWindow → LoginWindow × Option User
unfolding on_login_failed
take_event (login_succeeded user) w = (record w { shown = false }, some user)
take_event (login_failed reason) w = (on_login_failed reason w, none)
take_event other w = (w, none)
