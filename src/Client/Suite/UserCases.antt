-- ===== src/Client/Suite/UserCases.antt =====
-- client/tests/storage/test_user_repository.cpp
use nova_chat.Prelude.{◌≡◌, refl, Bool, true, false, not, ◌&&◌, none, some, is_some, [], ◌++◌}
use nova_chat.Prelude.Text.{Text, bytes, text_eq}
use nova_chat.Client.Db.Tables.{Db, LocalAccount, select_one, update_where, exists_where, upsert}
use nova_chat.Client.Db.Statements.{create_schema}
use nova_chat.Client.Db.Users.{
  save, find_by_id, find_active, set_active, clear_active, update_token,
}

-- save gives the row its number
abbrev make_account : Text → Text → Text → LocalAccount
make_account id name token = record {
  id = 0;
  server_id = id;
  username = name;
  display_name = name ++ bytes "_display";
  avatar_url = [];
  token = token;
  is_active = false;
}

abbrev alice_only : Db
alice_only = save (make_account (bytes "u001") (bytes "alice") (bytes "tok_a")) create_schema

abbrev alice_and_bob : Db
alice_and_bob = save (make_account (bytes "u002") (bytes "bob") (bytes "tok_b")) alice_only

abbrev save_find_by_id : Bool
save_find_by_id = elim (find_by_id (bytes "u001") alice_only) [
  | none ↦ false
  | some found ↦
      text_eq found.username (bytes "alice")
      && text_eq found.display_name (bytes "alice_display")
      && text_eq found.token (bytes "tok_a")
      && not found.is_active
]

save_find_by_id_passes : save_find_by_id ≡ true
unfolding save find_by_id create_schema upsert exists_where select_one text_eq
save_find_by_id_passes = refl

abbrev none_active : Bool
none_active = not (is_some (find_active alice_only))

none_active_passes : none_active ≡ true
unfolding save find_active create_schema upsert exists_where select_one text_eq
none_active_passes = refl

abbrev active_found : Bool
active_found = elim (find_active (set_active (bytes "u001") alice_and_bob)) [
  | none ↦ false
  | some active ↦ text_eq active.server_id (bytes "u001") && active.is_active
]

active_found_passes : active_found ≡ true
unfolding save find_active set_active create_schema upsert exists_where update_where select_one
    text_eq
active_found_passes = refl

abbrev active_switched : Bool
active_switched =
    elim (find_active (set_active (bytes "u002") (set_active (bytes "u001") alice_and_bob))) [
      | none ↦ false
      | some active ↦ text_eq active.server_id (bytes "u002")
    ]

active_switched_passes : active_switched ≡ true
unfolding save find_active set_active create_schema upsert exists_where update_where select_one
    text_eq
active_switched_passes = refl

abbrev active_cleared : Bool
active_cleared =
    let db = set_active (bytes "u001") alice_only in
    is_some (find_active db) && not (is_some (find_active (clear_active db)))

active_cleared_passes : active_cleared ≡ true
unfolding save find_active set_active clear_active create_schema upsert exists_where update_where
    select_one text_eq
active_cleared_passes = refl

abbrev token_updated : Bool
token_updated =
    let db = save (make_account (bytes "u001") (bytes "alice") (bytes "old_token")) create_schema in
    elim (find_by_id (bytes "u001") (update_token (bytes "u001") (bytes "new_token") db)) [
      | none ↦ false
      | some found ↦ text_eq found.token (bytes "new_token")
    ]

token_updated_passes : token_updated ≡ true
unfolding save find_by_id update_token create_schema upsert exists_where update_where select_one
    text_eq
token_updated_passes = refl

abbrev duplicate_updates : Bool
duplicate_updates =
    let db =
      save (make_account (bytes "u001") (bytes "alice_updated") (bytes "tok_b")) alice_only in
    elim (find_by_id (bytes "u001") db) [
      | none ↦ false
      | some found ↦
          text_eq found.display_name (bytes "alice_updated_display")
          && text_eq found.token (bytes "tok_b")
    ]

duplicate_updates_passes : duplicate_updates ≡ true
unfolding save find_by_id create_schema upsert exists_where update_where select_one text_eq
duplicate_updates_passes = refl
