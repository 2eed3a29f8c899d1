-- ===== src/Client/Db/Contacts.antt =====
-- client/src/storage/ContactRepository.cpp: the cached friend list of each account.
pub mod Sync
use nova_chat.Prelude.{
  Bool, ◌&&◌, Option, none, some, List, [], ◌∷◌, if◌then◌else◌, filter, leb, ◌+◌,
}
use nova_chat.Prelude.Text.{Text, bytes, text_eq, text_lt, contains}
use nova_chat.Client.Db.Tables.{Db, Contact, select_one, delete_where, upsert, order_by}

abbrev pub is_contact : Text → Text → Contact → Bool
is_contact owner_id user_id r = text_eq r.owner_id owner_id && text_eq r.user_id user_id

unfoldable pub save_row : Contact → List Contact → List Contact
save_row c =
    upsert (is_contact c.owner_id c.user_id)
      (λ r. record r {
        username = c.username;
        display_name = c.display_name;
        avatar_url = c.avatar_url;
      })
      c

unfoldable pub save : Contact → Db → Db
unfolding save_row
save c db = record db { contacts = save_row c db.contacts }

unfoldable pub save_rows : List Contact → List Contact → List Contact
save_rows [] rows = rows
save_rows (c ∷ cs) rows = save_rows cs (save_row c rows)

-- One transaction. The owner's id is pasted into the DELETE between quotes; `none` is an id with a
-- quote in it, for which the statement is another one and nothing is said here.
unfoldable pub replace_all : Text → List Contact → Db → Option Db
replace_all owner_id list db =
    if contains (bytes "'") owner_id
    then none
    else some (record db {
      contacts = save_rows list (delete_where (λ r. text_eq r.owner_id owner_id) db.contacts);
    })

unfoldable pub remove : Text → Text → Db → Db
remove owner_id user_id db = record db {
  contacts = delete_where (is_contact owner_id user_id) db.contacts;
}

-- COLLATE NOCASE folds the letters of ASCII
unfoldable pub fold_case : Text → Text
fold_case [] = []
fold_case (c ∷ s) = (if leb b'A' c && leb c b'Z' then c + 32 else c) ∷ fold_case s

unfoldable pub find_all : Text → Db → List Contact
find_all owner_id db =
    order_by (λ a b. text_lt (fold_case a.display_name) (fold_case b.display_name))
      (filter (λ r. text_eq r.owner_id owner_id) db.contacts)

unfoldable pub find_by_id : Text → Text → Db → Option Contact
find_by_id owner_id user_id db = select_one (is_contact owner_id user_id) db.contacts
