-- ===== src/Client/Db/Conversations.antt =====
-- client/src/storage/ConversationRepository.cpp: the conversation list of each account.
use nova_chat.Prelude.{◌+◌, Bool, ◌&&◌, List, filter}
use nova_chat.Prelude.Text.{Text, text_eq}
use nova_chat.Prelude.Int.{ℤ, lt_int}
use nova_chat.Client.Db.Tables.{Db, Conversation, update_where, upsert, order_by}

abbrev pub is_conversation : Text → Text → Conversation → Bool
is_conversation owner_id conv_id r =
    text_eq r.owner_id owner_id && text_eq r.conversation_id conv_id

unfoldable pub save_or_update : Conversation → Db → Db
save_or_update c db = record db {
  conversations =
      upsert (is_conversation c.owner_id c.conversation_id)
        (λ r. record r {
          target_id = c.target_id;
          last_message_preview = c.last_message_preview;
          last_message_time = c.last_message_time;
          unread_count = c.unread_count;
        })
        c db.conversations;
}

unfoldable pub update_last_message : Text → Text → Text → ℤ → Db → Db
update_last_message owner_id conv_id preview ts db = record db {
  conversations =
      update_where (is_conversation owner_id conv_id)
        (λ r. record r { last_message_preview = preview; last_message_time = ts }) db.conversations;
}

unfoldable pub increment_unread : Text → Text → Db → Db
increment_unread owner_id conv_id db = record db {
  conversations =
      update_where (is_conversation owner_id conv_id)
        (λ r. record r { unread_count = r.unread_count + 1 }) db.conversations;
}

unfoldable pub clear_unread : Text → Text → Db → Db
clear_unread owner_id conv_id db = record db {
  conversations =
      update_where (is_conversation owner_id conv_id) (λ r. record r { unread_count = 0 })
        db.conversations;
}

unfoldable pub find_all : Text → Db → List Conversation
find_all owner_id db =
    order_by (λ a b. lt_int b.last_message_time a.last_message_time)
      (filter (λ r. text_eq r.owner_id owner_id) db.conversations)
