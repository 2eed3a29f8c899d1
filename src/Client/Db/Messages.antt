-- ===== src/Client/Db/Messages.antt =====
-- client/src/storage/MessageRepository.cpp: the messages that this machine knows.
pub mod Saved
pub mod Page
use nova_chat.Prelude.{ℕ, Bool, ◌&&◌, Option, List, if◌then◌else◌, filter, take}
use nova_chat.Prelude.Text.{Text, text_eq}
use nova_chat.Prelude.Int.{ℤ, pos, lt_int, eq_int}
use nova_chat.Client.Db.Tables.{
  Db, Message, MessageStatus, sent, select_one, update_where, exists_where, insert_or_ignore,
  order_by,
}
use mathlib.Core.List.{reverse}

abbrev pub has_id : Text → Message → Bool
has_id id r = text_eq r.message_id id

unfoldable pub save : Message → Db → Db
save m db = record db { messages = insert_or_ignore (has_id m.message_id) m db.messages }

-- message_id is UNIQUE: where another row has the server's id already the UPDATE fails.
unfoldable pub confirm_sent : Text → Text → ℤ → Db → Db
confirm_sent local_id server_id server_ts db =
    let confirm : Message → Message =
      λ r. record r { message_id = server_id; timestamp_ms = server_ts; status = sent } in
    if exists_where (has_id server_id) db.messages
    then (if text_eq local_id server_id
        then record db { messages = update_where (has_id local_id) confirm db.messages }
        else db)
    else record db { messages = update_where (has_id local_id) confirm db.messages }

unfoldable pub update_status : Text → MessageStatus → Db → Db
update_status message_id status db = record db {
  messages = update_where (has_id message_id) (λ r. record r { status = status }) db.messages;
}

unfoldable pub newest_first : List Message → List Message
newest_first = order_by λ a b. lt_int b.timestamp_ms a.timestamp_ms

-- LIMIT binds an int, and a negative one is no limit; the callers' limits are not negative.
unfoldable pub find_by_conversation : Text → ℤ → ℕ → Db → List Message
find_by_conversation conv_id before_ts limit db =
    if eq_int before_ts (pos 0)
    then reverse
        (take limit (newest_first (filter (λ r. text_eq r.conversation_id conv_id) db.messages)))
    else reverse (
        take limit (
          newest_first (
            filter (λ r. text_eq r.conversation_id conv_id && lt_int r.timestamp_ms before_ts)
              db.messages)))

unfoldable pub find_by_id : Text → Db → Option Message
find_by_id message_id db = select_one (has_id message_id) db.messages
