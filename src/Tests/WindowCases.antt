-- ===== src/Tests/WindowCases.antt =====
-- The windows of one user.
use nova_chat.Prelude.{
  ℕ, ◌+◌, ◌-◌, ◌*◌, ◌/◌, ◌≤◌, min, ◌↔◌, arith, length, ◌≡◌, refl, false, true, some, [], ◌∷◌,
}
use nova_chat.Prelude.Text.{Text, bytes, text_eq, text_lt}
use nova_chat.Prelude.Int.{pos}
use nova_chat.MessageType.{error_response}
use nova_chat.Client.Db.Tables.{Message, select_one, text, sent}
use nova_chat.Client.App.{history_loaded, message_received}
use nova_chat.Client.ChatService.{load_history, message_answered, send_message, make_conv_id}
use nova_chat.Client.Ui.ChatView.{Item, ChatView, item_of, on_scrolled, on_send_clicked}
use nova_chat.Client.Ui.Transcript.{take_events, take_events_lem, on_send_clicked_lem, failed_page}
use nova_chat.Client.Ui.MessageBubbleDelegate.{Metrics, Box, paint, size_hint}
use nova_chat.Client.Ui.Layout.{paint-size_hint}
use nova_chat.Client.Db.Messages
use nova_chat.Client.Ui.Failure.{refused_unseen}
use nova_chat.Tests.Data.{test_wire, packet}
use nova_chat.Tests.ClientData.{app, outgoing, test_qt}

abbrev said : Text → Text → ℕ → Message
said id sender ts = record {
  message_id = id;
  conversation_id = bytes "u1:u2";
  sender_id = sender;
  content = bytes "hi";
  type = text;
  timestamp_ms = pos ts;
  status = sent;
}

abbrev view : ChatView
view = record {
  own_user_id = bytes "u1";
  current_conv_id = bytes "u1:u2";
  rows = item_of (bytes "u1") (said (bytes "m2") (bytes "u1") 6) ∷ [];
  input = bytes "hello";
  has_more = true;
  loading_history = false;
}

take_events_lem_example :
    (take_events
      (message_received (said (bytes "m3") (bytes "u2") 7)
        ∷ history_loaded (bytes "u1:u2") (said (bytes "m1") (bytes "u2") 5 ∷ []) false
        ∷ [])
      view).rows
    ≡ item_of (bytes "u1") (said (bytes "m1") (bytes "u2") 5)
      ∷ item_of (bytes "u1") (said (bytes "m2") (bytes "u1") 6)
      ∷ item_of (bytes "u1") (said (bytes "m3") (bytes "u2") 7)
      ∷ []
unfolding text_eq
take_events_lem_example =
    take_events_lem
      (message_received (said (bytes "m3") (bytes "u2") 7)
        ∷ history_loaded (bytes "u1:u2") (said (bytes "m1") (bytes "u2") 5 ∷ []) false
        ∷ [])
      view

on_send_clicked_lem_example :
    on_send_clicked test_wire test_qt view app
    ≡ (record view { input = [] }, send_message test_wire (bytes "u2") (bytes "hello") app)
unfolding make_conv_id text_lt
on_send_clicked_lem_example =
    on_send_clicked_lem test_qt test_wire view app (bytes "u2") (refl, (refl, tt))
      (refl, (refl, tt)) refl refl

failed_page_example :
    (on_scrolled test_wire true view app).1 ≡ load_history test_wire (bytes "u1:u2") (pos 6) app
unfolding item_of
failed_page_example =
    (failed_page test_wire view app app (item_of (bytes "u1") (said (bytes "m2") (bytes "u1") 6)) []
      (packet error_response) refl refl refl refl).0

-- letters of seven by fourteen pixels
abbrev plain_font : Metrics
plain_font = record {
  width = λ at t. min at (7 * length t);
  height = λ at t. 14 * (7 * length t / at + 1);
}

-- one line for sizeHint, two for paint
abbrev bubble : Item
bubble = record (item_of (bytes "u1") (said (bytes "m2") (bytes "u1") 6)) {
  content = bytes "abcdefghijklmnopqrstuvwx";
}

paint-size_hint_example :
    (b : Box) × (under : Box) × (height : ℕ) × (paint plain_font 300 bubble ≡ some (b, under))
    × (size_hint plain_font 300 40 bubble ≡ some (300, height))
    × (8 ≤ b.x)
    × (b.x + b.width + 8 ≤ 300)
    × (b.width * 100 ≤ 300 * 65)
    × ((under.y + under.height ≤ height) ↔ (
        plain_font.height ((300 - 16) * 65 / 100 - 24) bubble.content
        ≤ plain_font.height (300 * 65 / 100 - 24) bubble.content + 5))
paint-size_hint_example = paint-size_hint plain_font 300 40 bubble (omega arith) (omega arith)

outgoing_found : Messages.find_by_id (bytes "l1") app.db ≡ some outgoing
unfolding Messages.find_by_id select_one text_eq
outgoing_found = refl

refused_unseen_example :
    take_events (message_answered test_wire (bytes "l1") (packet error_response) app).events view
    ≡ view
refused_unseen_example =
    (refused_unseen test_qt test_wire outgoing (packet error_response) app view refl refl refl
      outgoing_found).1
