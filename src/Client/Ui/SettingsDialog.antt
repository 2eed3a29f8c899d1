-- ===== src/Client/Ui/SettingsDialog.antt =====
-- client/src/ui/SettingsDialog.cpp. The dialog is modal: while it is shown the main window takes no
-- clicks.
use nova_chat.Prelude.{Bool, true, false, List, [], ◌∷◌, if◌then◌else◌}
use nova_chat.Prelude.Text.{Text, bytes, is_empty}
use nova_chat.Client.App.{User}

-- `rows` are those of the form, each with its label.
pub record SettingsDialog : Type 0 where
  pub rows : List (Text × Text)
  pub shown : Bool

-- the constructor
unfoldable pub new_dialog : User → SettingsDialog
new_dialog user = record {
  rows =
      (bytes "User ID:", user.server_id)
      ∷ (bytes "Username:", user.username)
      ∷ (bytes "Display name:", user.display_name)
      ∷ (if is_empty user.avatar_url then [] else (bytes "Avatar URL:", user.avatar_url) ∷ []);
  shown = true;
}

-- what both buttons do, and the second one besides it in Client.Start.on_log_out_clicked
unfoldable pub accept : SettingsDialog → SettingsDialog
accept dialog = record dialog { shown = false }
