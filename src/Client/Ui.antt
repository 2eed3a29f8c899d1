-- ===== src/Client/Ui.antt =====
-- client/src/ui: what the windows hold and what their slots do. A slot that calls a service is a
-- function of the window and of what the services share, and gives both back; a signal of a service
-- is taken by the function `take_event` of each window that is connected to it. Layout, painting
-- and scroll positions are left out. A QString is its text in UTF-8.
pub mod ChatView
pub mod ConversationList
pub mod ContactPanel
pub mod AddFriendDialog
pub mod RegisterDialog
pub mod LoginWindow
pub mod SettingsDialog
pub mod MainWindow
pub mod MessageBubbleDelegate
pub mod Transcript
pub mod Failure
pub mod Panels
pub mod Mirror
pub mod Shown
pub mod Layout
use nova_chat.Prelude.{Bool, [], ◌∷◌}
use nova_chat.Prelude.Text.{Text}
use nova_chat.Prelude.Int.{ℤ}

-- The functions of Qt that the slots call: QString::trimmed, QString::contains without regard to
-- case, QString::arg with one and with two texts, and the time of a QDateTime in a format.
pub record Qt : Type 0 where
  pub trimmed : Text → Text
  pub contains_insensitive : Text → Text → Bool
  pub arg : Text → Text → Text
  pub arg_two : Text → Text → Text → Text
  pub time_text : Text → ℤ → Text

-- "…", "—", "●", "○" and the warning sign with the two blanks behind it
abbrev pub ellipsis : Text
ellipsis = 226 ∷ 128 ∷ 166 ∷ []

abbrev pub long_dash : Text
long_dash = 226 ∷ 128 ∷ 148 ∷ []

abbrev pub full_dot : Text
full_dot = 226 ∷ 151 ∷ 143 ∷ []

abbrev pub empty_dot : Text
empty_dot = 226 ∷ 151 ∷ 139 ∷ []

abbrev pub warning_sign : Text
warning_sign = 226 ∷ 154 ∷ 160 ∷ 32 ∷ 32 ∷ []
