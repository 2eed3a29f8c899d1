-- ===== src/Client/Suite/ContactCases.antt =====
-- client/tests/storage/test_contact_repository.cpp
use nova_chat.Prelude.{
  ◌≡◌, refl, Bool, true, false, ◌&&◌, none, some, List, [], ◌∷◌, ◌++◌, ◌==◌, length, map,
}
use nova_chat.Prelude.Text.{Text, bytes, text_eq, text_lt, contains}
use nova_chat.Client.Db.Tables.{
  Db, Contact, select_one, update_where, exists_where, upsert, delete_where, order_by,
}
use nova_chat.Client.Db.Statements.{create_schema}
use nova_chat.Client.Db.Contacts.{
  save, save_row, save_rows, find_by_id, find_all, fold_case, remove, replace_all,
}
use nova_chat.Client.Suite.MessageCases.{same_texts}

abbrev make_contact : Text → Text → Text → Contact
make_contact owner uid name = record {
  user_id = uid;
  owner_id = owner;
  username = name;
  display_name = name ++ bytes "_display";
  avatar_url = [];
}

abbrev usernames : List Contact → List Text
usernames = map λ (c : Contact). c.username

abbrev display_names : List Contact → List Text
display_names = map λ (c : Contact). c.display_name

abbrev save_find_by_id : Bool
save_find_by_id =
    let db = save (make_contact (bytes "owner1") (bytes "u001") (bytes "alice")) create_schema in
    elim (find_by_id (bytes "owner1") (bytes "u001") db) [
      | none ↦ false
      | some found ↦
          text_eq found.username (bytes "alice")
          && text_eq found.display_name (bytes "alice_display")
    ]

save_find_by_id_passes : save_find_by_id ≡ true
unfolding save save_row find_by_id create_schema upsert exists_where select_one text_eq
save_find_by_id_passes = refl

abbrev unknown_owner : Bool
unknown_owner = length (find_all (bytes "owner_nobody") create_schema) == 0

unknown_owner_passes : unknown_owner ≡ true
unfolding find_all create_schema order_by
unknown_owner_passes = refl

abbrev ordered_by_name : Bool
ordered_by_name =
    let db = save (make_contact (bytes "o1") (bytes "u3") (bytes "charlie")) create_schema in
    let db' = save (make_contact (bytes "o1") (bytes "u1") (bytes "alice")) db in
    let db'' = save (make_contact (bytes "o1") (bytes "u2") (bytes "bob")) db' in
    same_texts (usernames (find_all (bytes "o1") db''))
      (bytes "alice" ∷ bytes "bob" ∷ bytes "charlie" ∷ [])

ordered_by_name_passes : ordered_by_name ≡ true
unfolding save save_row find_all fold_case create_schema upsert exists_where order_by text_eq
    text_lt
ordered_by_name_passes = refl

abbrev duplicate_updates : Bool
duplicate_updates =
    let db = save (make_contact (bytes "o1") (bytes "u1") (bytes "alice")) create_schema in
    let db' = save (make_contact (bytes "o1") (bytes "u1") (bytes "alice_renamed")) db in
    same_texts (display_names (find_all (bytes "o1") db')) (bytes "alice_renamed_display" ∷ [])

duplicate_updates_passes : duplicate_updates ≡ true
unfolding save save_row find_all fold_case create_schema upsert exists_where update_where order_by
    text_eq
duplicate_updates_passes = refl

abbrev two_friends : Db
two_friends =
    save (make_contact (bytes "o1") (bytes "u2") (bytes "bob"))
      (save (make_contact (bytes "o1") (bytes "u1") (bytes "alice")) create_schema)

abbrev removed : Bool
removed =
    same_texts
      (map (λ (c : Contact). c.user_id)
        (find_all (bytes "o1") (remove (bytes "o1") (bytes "u1") two_friends)))
      (bytes "u2" ∷ [])

removed_passes : removed ≡ true
unfolding save save_row remove find_all fold_case create_schema upsert exists_where delete_where
    order_by text_eq
removed_passes = refl

abbrev replaced : Bool
replaced =
    let new_list =
      make_contact (bytes "o1") (bytes "u3") (bytes "charlie")
      ∷ make_contact (bytes "o1") (bytes "u4") (bytes "dave")
      ∷ [] in
    elim (replace_all (bytes "o1") new_list two_friends) [
      | none ↦ false
      | some db ↦
          same_texts (usernames (find_all (bytes "o1") db)) (bytes "charlie" ∷ bytes "dave" ∷ [])
    ]

replaced_passes : replaced ≡ true
unfolding save save_row save_rows replace_all find_all fold_case create_schema upsert exists_where
    delete_where order_by text_eq text_lt contains
replaced_passes = refl

abbrev owners_isolated : Bool
owners_isolated =
    let db = save (make_contact (bytes "owner_a") (bytes "u1") (bytes "alice")) create_schema in
    let db' = save (make_contact (bytes "owner_b") (bytes "u1") (bytes "alice_b")) db in
    same_texts (display_names (find_all (bytes "owner_a") db')) (bytes "alice_display" ∷ [])
    && same_texts (display_names (find_all (bytes "owner_b") db')) (bytes "alice_b_display" ∷ [])

owners_isolated_passes : owners_isolated ≡ true
unfolding save save_row find_all fold_case create_schema upsert exists_where order_by text_eq
owners_isolated_passes = refl
