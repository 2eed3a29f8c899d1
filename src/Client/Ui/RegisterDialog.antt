-- ===== src/Client/Ui/RegisterDialog.antt =====
-- client/src/ui/RegisterDialog.cpp
use nova_chat.Prelude.{Bool, true, false, not, ◌||◌, Option, none, some, [], if◌then◌else◌}
use nova_chat.Prelude.Text.{Text, bytes, text_eq, is_empty}
use nova_chat.Proto.{Wire}
use nova_chat.Client.App.{App, Event, register_succeeded, register_failed}
use nova_chat.Client.AuthService.{register_user}
use nova_chat.Client.Ui.{Qt}

-- The texts of the fields; `error` is the label's text where it is shown; `shown` ends with accept().
pub record RegisterDialog : Type 0 where
  pub username : Text
  pub display_name : Text
  pub password : Text
  pub confirm : Text
  pub can_register : Bool
  pub error : Option Text
  pub shown : Bool

abbrev pub new_dialog : RegisterDialog
new_dialog = record {
  username = [];
  display_name = [];
  password = [];
  confirm = [];
  can_register = true;
  error = none;
  shown = true;
}

module _ (qt : Qt) (wire : Wire) where
  unfoldable pub on_register_clicked : RegisterDialog → App → RegisterDialog × App
  on_register_clicked d a =
      let username = qt.trimmed d.username in
      if is_empty username || is_empty d.password
      then (record d { error = some (bytes "Username and password are required") }, a)
      else if not (text_eq d.password d.confirm)
      then (record d { error = some (bytes "Passwords do not match") }, a)
      else (
        record d { can_register = false; error = none },
        register_user wire username d.password (qt.trimmed d.display_name) a,
      )

unfoldable pub on_register_succeeded : RegisterDialog → RegisterDialog
on_register_succeeded d = record d { shown = false }

unfoldable pub on_register_failed : Text → RegisterDialog → RegisterDialog
on_register_failed reason d = record d { error = some reason; can_register = true }

-- the connections of the constructor
unfoldable pub take_event : Event → RegisterDialog → RegisterDialog
unfolding on_register_succeeded on_register_failed
take_event register_succeeded d = on_register_succeeded d
take_event (register_failed reason) d = on_register_failed reason d
take_event other d = d
