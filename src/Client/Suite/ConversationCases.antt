-- ===== src/Client/Suite/ConversationCases.antt =====
-- client/tests/storage/test_conversation_repository.cpp
use nova_chat.Prelude.{ℕ, ◌≡◌, refl, Bool, true, false, ◌&&◌, List, [], ◌∷◌, ◌==◌, map}
use nova_chat.Prelude.Text.{Text, bytes, text_eq}
use nova_chat.Prelude.Int.{pos, eq_int}
use nova_chat.Client.Db.Tables.{Db, Conversation, update_where, exists_where, upsert, order_by}
use nova_chat.Client.Db.Statements.{create_schema}
use nova_chat.Client.Db.Conversations.{
  save_or_update, find_all, update_last_message, increment_unread, clear_unread,
}
use nova_chat.Client.Suite.MessageCases.{same_texts}

abbrev make_conv : Text → Text → Text → ℕ → ℕ → Conversation
make_conv owner conv_id target ts unread = record {
  conversation_id = conv_id;
  owner_id = owner;
  target_id = target;
  last_message_preview = bytes "last msg";
  last_message_time = pos ts;
  unread_count = unread;
}

abbrev with_alice : Db
with_alice =
    save_or_update (make_conv (bytes "o1") (bytes "c1") (bytes "alice") 1000 0) create_schema

-- there is one row, and it passes
abbrev only : (Conversation → Bool) → List Conversation → Bool
only p [] = false
only p (c ∷ []) = p c
only p (c ∷ d ∷ cs) = false

-- there is a first row, and it passes
abbrev first : (Conversation → Bool) → List Conversation → Bool
first p [] = false
first p (c ∷ cs) = p c

abbrev save_find_all : Bool
save_find_all = only (λ c. text_eq c.target_id (bytes "alice")) (find_all (bytes "o1") with_alice)

save_find_all_passes : save_find_all ≡ true
unfolding save_or_update find_all create_schema upsert exists_where order_by text_eq
save_find_all_passes = refl

abbrev save_updates : Bool
save_updates =
    only (λ c. eq_int c.last_message_time (pos 2000) && (c.unread_count == 3))
      (find_all (bytes "o1")
        (save_or_update (make_conv (bytes "o1") (bytes "c1") (bytes "alice") 2000 3) with_alice))

save_updates_passes : save_updates ≡ true
unfolding save_or_update find_all create_schema upsert exists_where update_where order_by text_eq
save_updates_passes = refl

abbrev newest_on_top : Bool
newest_on_top =
    let db = save_or_update (make_conv (bytes "o1") (bytes "c2") (bytes "bob") 3000 0) with_alice in
    let db' = save_or_update (make_conv (bytes "o1") (bytes "c3") (bytes "carol") 2000 0) db in
    same_texts (map (λ (c : Conversation). c.conversation_id) (find_all (bytes "o1") db'))
      (bytes "c2" ∷ bytes "c3" ∷ bytes "c1" ∷ [])

newest_on_top_passes : newest_on_top ≡ true
unfolding save_or_update find_all create_schema upsert exists_where order_by text_eq
newest_on_top_passes = refl

abbrev last_message_updated : Bool
last_message_updated =
    only
      (λ c.
        text_eq c.last_message_preview (bytes "new preview")
        && eq_int c.last_message_time (pos 9999))
      (find_all (bytes "o1")
        (update_last_message (bytes "o1") (bytes "c1") (bytes "new preview") (pos 9999) with_alice))

last_message_updated_passes : last_message_updated ≡ true
unfolding save_or_update update_last_message find_all create_schema upsert exists_where update_where
    order_by text_eq
last_message_updated_passes = refl

abbrev unread_counted : Bool
unread_counted =
    let db =
      increment_unread (bytes "o1") (bytes "c1")
        (increment_unread (bytes "o1") (bytes "c1") with_alice) in
    first (λ c. c.unread_count == 2) (find_all (bytes "o1") db)
    && first (λ c. c.unread_count == 0)
        (find_all (bytes "o1") (clear_unread (bytes "o1") (bytes "c1") db))

unread_counted_passes : unread_counted ≡ true
unfolding save_or_update increment_unread clear_unread find_all create_schema upsert exists_where
    update_where order_by text_eq
unread_counted_passes = refl
