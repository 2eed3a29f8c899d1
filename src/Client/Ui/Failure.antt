-- ===== src/Client/Ui/Failure.antt =====
-- A message that was refused, in the database and in the chat view.
use nova_chat.Prelude.{◌≡◌, refl, ap, ◌∙◌, some, []}
use nova_chat.Prelude.Text.{Text, bytes, text_eq}
use mathlib.Core.Option
use nova_chat.Prelude.Branches.{either}
use nova_chat.MessageType.{error_response}
use nova_chat.Codec.{Packet}
use nova_chat.Proto.{Wire, ErrorResponse}
use nova_chat.Client.Db.Tables.{Db, Message, failed, sending}
use nova_chat.Client.Db.Tables.Rows.{select-update_same}
use nova_chat.Client.Db.Messages
use nova_chat.Client.Db.Messages.{has_id}
use nova_chat.Client.App.{App, emit, with_db, message_failed, is_auth_expired, check_auth_expired}
use nova_chat.Client.ChatService.{message_answered}
use nova_chat.Client.Ui.{Qt}
use nova_chat.Client.Ui.ChatView.{ChatView, item_of, take_event}
use nova_chat.Client.Ui.Transcript.{take_events}
use nova_chat.Client.Ui.MessageBubbleDelegate.{foot, status_code}

marked :
    (id : Text) (db : Db) (m : Message)
    → Messages.find_by_id id db ≡ some m
    → Messages.find_by_id id (Messages.update_status id failed db)
      ≡ some (record m { status = failed })
unfolding Messages.find_by_id Messages.update_status
marked id db m found =
    select-update_same (has_id id) (λ r. record r { status = failed }) db.messages (λ r h. h)
    ∙ ap (Option.map (λ (r : Message). record r { status = failed })) found

same_db : (er : ErrorResponse) (a : App) → (check_auth_expired er a).db ≡ a.db
unfolding check_auth_expired
same_db er a = either (λ (x : App). x.db ≡ a.db) (is_auth_expired er) refl refl

told :
    (id : Text) (er : ErrorResponse) (db : Db) (a : App) (v : ChatView)
    → a.events ≡ []
    → take_events (check_auth_expired er (emit (with_db a db) (message_failed id))).events v ≡ v
unfolding check_auth_expired take_event
told id er db a v quiet =
    either (λ (x : App). take_events x.events v ≡ v) (is_auth_expired er) (rw quiet refl)
      (rw quiet refl)

foot_of_sending :
    (qt : Qt) (own : Text) (m : Message)
    → m.status ≡ sending
    → foot qt (item_of own m) ≡ qt.time_text (bytes "HH:mm") m.timestamp_ms
unfolding foot item_of status_code
foot_of_sending qt own m here = rw here (
    either (λ t. t ≡ qt.time_text (bytes "HH:mm") m.timestamp_ms) (text_eq m.sender_id own) refl
      refl)

-- When the server refuses a message, its row in the database gets the status Failed, but the chat
-- view does not change for it: what the services announce leaves every row as it was, and the row
-- of the message, which was made while it was being sent, goes on showing its time without
-- `Failed`.
pub refused_unseen :
    (qt : Qt) (wire : Wire) (m : Message) (resp : Packet) (a : App) (v : ChatView)
    → a.events ≡ []
    → resp.type ≡ error_response
    → m.status ≡ sending
    → Messages.find_by_id m.message_id a.db ≡ some m
    → let a' : App = message_answered wire m.message_id resp a in
      (Messages.find_by_id m.message_id a'.db ≡ some (record m { status = failed }))
      × (take_events a'.events v ≡ v)
      × (foot qt (item_of v.own_user_id m) ≡ qt.time_text (bytes "HH:mm") m.timestamp_ms)
unfolding message_answered
refused_unseen qt wire m resp a v quiet error here found =
    let er = wire.error_content resp.payload in
    let db : Db = Messages.update_status m.message_id failed a.db in
    rw error (
      ap (Messages.find_by_id m.message_id)
            (same_db er (emit (with_db a db) (message_failed m.message_id)))
          ∙ marked m.message_id a.db m found,
      told m.message_id er db a v quiet,
      foot_of_sending qt v.own_user_id m here,
    )
