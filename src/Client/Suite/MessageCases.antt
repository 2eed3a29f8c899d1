-- ===== src/Client/Suite/MessageCases.antt =====
-- client/tests/storage/test_message_repository.cpp
use nova_chat.Prelude.{
  ℕ, ◌≡◌, refl, Bool, true, false, not, ◌&&◌, none, some, is_some, List, [], ◌∷◌, ◌++◌, ◌==◌,
  length, map,
}
use nova_chat.Prelude.Text.{Text, bytes, text_eq}
use nova_chat.Prelude.Int.{pos, eq_int}
use nova_chat.Client.Db.Tables.{
  Db, Message, MessageStatus, sending, sent, failed, text, select_one, update_where, exists_where,
  insert_or_ignore, order_by,
}
use nova_chat.Client.Db.Statements.{create_schema}
use nova_chat.Client.Db.Messages.{
  save, find_by_id, find_by_conversation, newest_first, update_status, confirm_sent,
}

abbrev make_msg : Text → Text → Text → ℕ → Message
make_msg id conv sender ts = record {
  message_id = id;
  conversation_id = conv;
  sender_id = sender;
  content = bytes "Hello from " ++ sender;
  type = text;
  timestamp_ms = pos ts;
  status = sending;
}

abbrev is_sent : MessageStatus → Bool
is_sent sending = false
is_sent sent = true
is_sent failed = false

abbrev ids : List Message → List Text
ids = map λ (m : Message). m.message_id

abbrev pub same_texts : List Text → List Text → Bool
same_texts [] [] = true
same_texts [] (t ∷ ts) = false
same_texts (s ∷ ss) [] = false
same_texts (s ∷ ss) (t ∷ ts) = text_eq s t && same_texts ss ts

abbrev save_find_by_id : Bool
save_find_by_id =
    let db = save (make_msg (bytes "m1") (bytes "conv_a") (bytes "alice") 1000) create_schema in
    elim (find_by_id (bytes "m1") db) [
      | none ↦ false
      | some found ↦
          text_eq found.content (bytes "Hello from alice") && eq_int found.timestamp_ms (pos 1000)
    ]

save_find_by_id_passes : save_find_by_id ≡ true
unfolding save find_by_id create_schema insert_or_ignore exists_where select_one text_eq
save_find_by_id_passes = refl

abbrev duplicate_ignored : Bool
duplicate_ignored =
    let db = save (make_msg (bytes "m1") (bytes "conv_a") (bytes "alice") 1000) create_schema in
    let db' = save (make_msg (bytes "m1") (bytes "conv_a") (bytes "alice") 2000) db in
    elim (find_by_id (bytes "m1") db') [
      | none ↦ false
      | some found ↦ eq_int found.timestamp_ms (pos 1000)
    ]

duplicate_ignored_passes : duplicate_ignored ≡ true
unfolding save find_by_id create_schema insert_or_ignore exists_where select_one text_eq
duplicate_ignored_passes = refl

abbrev ascending_order : Bool
ascending_order =
    let db = save (make_msg (bytes "m3") (bytes "conv_a") (bytes "alice") 3000) create_schema in
    let db' = save (make_msg (bytes "m1") (bytes "conv_a") (bytes "bob") 1000) db in
    let db'' = save (make_msg (bytes "m2") (bytes "conv_a") (bytes "alice") 2000) db' in
    same_texts (ids (find_by_conversation (bytes "conv_a") (pos 0) 50 db''))
      (bytes "m1" ∷ bytes "m2" ∷ bytes "m3" ∷ [])

ascending_order_passes : ascending_order ≡ true
unfolding save find_by_conversation newest_first create_schema insert_or_ignore exists_where text_eq
    order_by
ascending_order_passes = refl

-- the loop from 1 to 5
abbrev five : Db
five = save (make_msg (bytes "m5") (bytes "conv_a") (bytes "alice") 5000) (
    save (make_msg (bytes "m4") (bytes "conv_a") (bytes "alice") 4000) (
      save (make_msg (bytes "m3") (bytes "conv_a") (bytes "alice") 3000) (
        save (make_msg (bytes "m2") (bytes "conv_a") (bytes "alice") 2000)
          (save (make_msg (bytes "m1") (bytes "conv_a") (bytes "alice") 1000) create_schema))))

abbrev pagination : Bool
pagination =
    same_texts (ids (find_by_conversation (bytes "conv_a") (pos 4000) 2 five))
      (bytes "m2" ∷ bytes "m3" ∷ [])

pagination_passes : pagination ≡ true
unfolding save find_by_conversation newest_first create_schema insert_or_ignore exists_where text_eq
    order_by
pagination_passes = refl

abbrev status_updated : Bool
status_updated =
    let db = save (make_msg (bytes "m1") (bytes "conv_a") (bytes "alice") 1000) create_schema in
    elim (find_by_id (bytes "m1") (update_status (bytes "m1") sent db)) [
      | none ↦ false
      | some found ↦ is_sent found.status
    ]

status_updated_passes : status_updated ≡ true
unfolding save find_by_id update_status create_schema insert_or_ignore exists_where select_one
    update_where text_eq
status_updated_passes = refl

abbrev confirm_replaces_id : Bool
confirm_replaces_id =
    let db =
      save (make_msg (bytes "local_tmp_001") (bytes "conv_a") (bytes "alice") 1000) create_schema in
    let db' = confirm_sent (bytes "local_tmp_001") (bytes "server_abc") (pos 9999) db in
    not (is_some (find_by_id (bytes "local_tmp_001") db'))
    && (elim (find_by_id (bytes "server_abc") db') [
      | none ↦ false
      | some found ↦ eq_int found.timestamp_ms (pos 9999) && is_sent found.status
    ])

confirm_replaces_id_passes : confirm_replaces_id ≡ true
unfolding save find_by_id confirm_sent create_schema insert_or_ignore exists_where select_one
    update_where text_eq
confirm_replaces_id_passes = refl

abbrev conversations_isolated : Bool
conversations_isolated =
    let db = save (make_msg (bytes "m1") (bytes "conv_a") (bytes "alice") 1000) create_schema in
    let db' = save (make_msg (bytes "m2") (bytes "conv_b") (bytes "bob") 1000) db in
    (length (find_by_conversation (bytes "conv_a") (pos 0) 50 db') == 1)
    && (length (find_by_conversation (bytes "conv_b") (pos 0) 50 db') == 1)
    && (length (find_by_conversation (bytes "conv_c") (pos 0) 50 db') == 0)

conversations_isolated_passes : conversations_isolated ≡ true
unfolding save find_by_conversation newest_first create_schema insert_or_ignore exists_where text_eq
    order_by
conversations_isolated_passes = refl
