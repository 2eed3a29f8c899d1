-- ===== src/Client/Db/Contacts/Sync.antt =====
-- What findById finds after a contact was saved and after a friend list was synchronised.
use nova_chat.Prelude.{
  ◌≡◌, refl, ap, ◌∙◌, inl, inr, Bool, true, false, ◌&&◌, Option, none, some, List, [], ◌∷◌, ◌++◌,
  if◌then◌else◌, arith, Bool-cases,
}
use nova_chat.Prelude.Text.{Text, bytes, text_eq, text_eq_iff, contains}
use nova_chat.Client.Db.Tables.{
  Db, Contact, select_one, update_where, exists_where, delete_where, upsert,
}
use nova_chat.Client.Db.Contacts.{is_contact, save_row, save_rows, replace_all, find_by_id}

overwrite : Contact → Contact → Contact
overwrite c r = record r {
  username = c.username;
  display_name = c.display_name;
  avatar_url = c.avatar_url;
}

-- `r` has the key of `c`.
same_key :
    (c r : Contact)
    → is_contact c.owner_id c.user_id r ≡ true
    → (r.owner_id ≡ c.owner_id) × (r.user_id ≡ c.user_id)
same_key c r h = (
  (text_eq_iff r.owner_id c.owner_id).0 (both _ _ h).0,
  (text_eq_iff r.user_id c.user_id).0 (both _ _ h).1,
)
  where
    both : (a b : Bool) → (a && b) ≡ true → (a ≡ true) × (b ≡ true)
    both a b h = (ground arith, ground arith)

-- A row that is written over with the values of `c` is `c` if it has its key.
overwrite-same : (c r : Contact) → is_contact c.owner_id c.user_id r ≡ true → overwrite c r ≡ c
unfolding overwrite
overwrite-same c r h =
    let (o, u) = same_key c r h in
    ap (λ (x : Text). record c { owner_id = x; user_id = r.user_id }) o
    ∙ ap (λ (y : Text). record c { user_id = y }) u

found-same :
    (c r : Contact) (o u : Text)
    → is_contact c.owner_id c.user_id r ≡ true
    → is_contact o u r ≡ is_contact o u c
found-same c r o u h =
    let (x, y) = same_key c r h in
    ap (λ (a : Text). text_eq a o && text_eq r.user_id u) x
    ∙ ap (λ (b : Text). text_eq c.owner_id o && text_eq b u) y

select-kept :
    (c : Contact) (rows : List Contact) (o u : Text)
    → is_contact o u c ≡ false
    → select_one
        (is_contact o u)
        (update_where (is_contact c.owner_id c.user_id) (overwrite c) rows)
      ≡ select_one (is_contact o u) rows
unfolding update_where select_one
select-kept c [] o u n = refl
select-kept c (r ∷ rows) o u n = elim (Bool-cases (is_contact c.owner_id c.user_id r)) [
  | inl here ↦ rw here (
      rw (overwrite-same c r here) (rw (found-same c r o u here) (rw n (select-kept c rows o u n))))
  | inr away ↦ rw away (rw (select-kept c rows o u n) refl)
]

select-updated :
    (c : Contact) (rows : List Contact) (o u : Text)
    → exists_where (is_contact c.owner_id c.user_id) rows ≡ true
    → is_contact o u c ≡ true
    → select_one
        (is_contact o u)
        (update_where (is_contact c.owner_id c.user_id) (overwrite c) rows)
      ≡ some c
unfolding exists_where update_where select_one
select-updated c [] o u h k = cc
select-updated c (r ∷ rows) o u h k = elim (Bool-cases (is_contact c.owner_id c.user_id r)) [
  | inl here ↦ rw here (rw (overwrite-same c r here) (rw k refl))
  | inr away ↦ rw away (rw (other r away k) (select-updated c rows o u (rw away at h) k))
]
  where
    other :
        (x : Contact)
        → is_contact c.owner_id c.user_id x ≡ false
        → is_contact o u c ≡ true
        → is_contact o u x ≡ false
    other x n t = ground (arith, text_eq_iff c.owner_id o, text_eq_iff c.user_id u)

select-appended :
    (c : Contact) (rows : List Contact) (o u : Text)
    → exists_where (is_contact c.owner_id c.user_id) rows ≡ false
    → select_one (is_contact o u) (rows ++ c ∷ [])
      ≡ (if is_contact o u c then some c else select_one (is_contact o u) rows)
unfolding exists_where select_one
select-appended c [] o u h = refl
select-appended c (r ∷ rows) o u h =
    ground (arith, select-appended c rows o u, text_eq_iff c.owner_id o, text_eq_iff c.user_id u)

-- A saved contact is found under its key, and every other key leads where it led.
pub select-save_row :
    (c : Contact) (rows : List Contact) (o u : Text)
    → select_one (is_contact o u) (save_row c rows)
      ≡ (if is_contact o u c then some c else select_one (is_contact o u) rows)
unfolding save_row upsert overwrite
select-save_row c rows o u =
    elim (Bool-cases (exists_where (is_contact c.owner_id c.user_id) rows)) [
      | inl old ↦ rw old (elim (Bool-cases (is_contact o u c)) [
        | inl here ↦ rw (select-updated c rows o u old here) (rw here refl)
        | inr away ↦ rw (select-kept c rows o u away) (rw away refl)
      ])
      | inr new ↦ rw new (select-appended c rows o u new)
    ]

-- The last contact of a list with a key, or what was there before.
abbrev pub last_or : List Contact → Text → Text → Option Contact → Option Contact
last_or [] o u before = before
last_or (c ∷ cs) o u before = last_or cs o u (if is_contact o u c then some c else before)

select-save_rows :
    (cs rows : List Contact) (o u : Text)
    → select_one (is_contact o u) (save_rows cs rows)
      ≡ last_or cs o u (select_one (is_contact o u) rows)
unfolding save_rows
select-save_rows [] rows o u = refl
select-save_rows (c ∷ cs) rows o u =
    select-save_rows cs (save_row c rows) o u ∙ ap (last_or cs o u) (select-save_row c rows o u)

select-deleted :
    (owner : Text) (rows : List Contact) (o u : Text)
    → select_one (is_contact o u) (delete_where (λ r. text_eq r.owner_id owner) rows)
      ≡ (if text_eq o owner then none else select_one (is_contact o u) rows)
unfolding delete_where select_one
select-deleted owner [] o u = ground arith
select-deleted owner (r ∷ rows) o u = ground (
  arith,
  select-deleted owner rows o u,
  text_eq_iff r.owner_id o,
  text_eq_iff r.owner_id owner,
  text_eq_iff o owner,
)

-- After a friend list was put in the place of an account's contacts, findById finds under each key
-- the last contact of the list that has it; under a key that the list lacks it finds nothing if the
-- account is the list's, and what it found before if it is another. The account's id must be without
-- a quote, since it is pasted into the statement that deletes the old contacts.
pub find_by_id-replace_all :
    (owner : Text) (list : List Contact) (db : Db)
    → contains (bytes "'") owner ≡ false
    → (db' : Db) × (replace_all owner list db ≡ some db')
      × ((o u : Text)
          → find_by_id o u db'
            ≡ last_or list o u (if text_eq o owner then none else find_by_id o u db))
unfolding replace_all find_by_id
find_by_id-replace_all owner list db plain = (
  record db {
    contacts = save_rows list (delete_where (λ r. text_eq r.owner_id owner) db.contacts);
  },
  rw plain refl,
  λ o u.
      select-save_rows list (delete_where (λ r. text_eq r.owner_id owner) db.contacts) o u
      ∙ ap (last_or list o u) (select-deleted owner db.contacts o u),
)
