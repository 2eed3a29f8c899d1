-- ===== src/Server/Persist/RoundTrip.antt =====
-- The file of users: what saveToFile writes, loadFromFile reads back.
use nova_chat.Prelude.{
  ◌≡◌, refl, sym, ap, ◌∙◌, ◌⊎◌, inl, inr, false, Option, none, some, [], ◌∷◌, if◌then◌else◌, arith,
  Bool-cases, Option-cases,
}
use nova_chat.Prelude.Text.{Text, text_eq, text_eq_iff, text_eq_refl, is_empty}
use nova_chat.Prelude.Dict.{Dict, get, put, get-put}
use nova_chat.Server.Storage.{Storage, UserRecord, register_user}
use nova_chat.Server.Storage.Accounts.{IsIndexed, IsFresh, new_user}
use nova_chat.Server.Persist.{
  JsonLib, arr, add_record, load_entries, elements, load_from_file, write_entries, save_to_file,
  read_entry-write_entry,
}

-- Each record is stored once, under its own id.
abbrev pub IsKeyed : Dict UserRecord → Type 0
IsKeyed [] = Unit
IsKeyed ((id, rec) ∷ users) = (rec.user_id ≡ id) × (get users id ≡ none) × IsKeyed users

put-IsKeyed :
    (users : Dict UserRecord) (rec : UserRecord)
    → get users rec.user_id ≡ none
    → IsKeyed users
    → IsKeyed (put users rec.user_id rec)
unfolding put get
put-IsKeyed [] rec free v = (refl, refl, tt)
put-IsKeyed ((id, r) ∷ users) rec free (own, new, v) = ground (
  arith,
  put-IsKeyed users rec,
  get-put users rec.user_id id rec,
  text_eq_iff id rec.user_id,
  text_eq_iff rec.user_id id,
)

-- A registration stores its record once.
pub register_user-IsKeyed :
    (s : Storage) (username password display_name : Text)
    → IsFresh s
    → IsKeyed s.users_by_id
    → IsKeyed (register_user s username password display_name).1.users_by_id
unfolding register_user
register_user-IsKeyed s username password display_name fresh v =
    ground (arith, put-IsKeyed s.users_by_id (new_user s username password display_name) fresh v)

-- The first value if it is there.
abbrev pub or_else {ℓ} : {A : Type ℓ} → Option A → Option A → Option A
or_else none b = b
or_else (some a) b = some a

load_one :
    (t : Storage) (id : Text) (rec : UserRecord) (users : Dict UserRecord)
    → load_entries t (write_entries ((id, rec) ∷ users))
      ≡ load_entries (add_record t rec) (write_entries users)
unfolding load_entries write_entries
load_one t id rec users = rw (read_entry-write_entry rec, load_entries)

pub get-loaded :
    (users : Dict UserRecord) (t : Storage) (j : Text)
    → IsKeyed users
    → get (load_entries t (write_entries users)).users_by_id j
      ≡ or_else (get users j) (get t.users_by_id j)
unfolding get add_record
get-loaded [] t j v = unfold write_entries load_entries in refl
get-loaded ((id, rec) ∷ users) t j (own, new, v) =
    ap (λ (s : Storage). get s.users_by_id j) (load_one t id rec users)
    ∙ get-loaded users (add_record t rec) j v
    ∙ elim (Option-cases (get users j)) [
      | inl missing ↦ ground (arith, get-put t.users_by_id rec.user_id j rec, text_eq_iff id j)
      | inr (r, found) ↦ ground (arith, text_eq_iff id j)
    ]

name-added :
    (t : Storage) (rec : UserRecord) (name : Text)
    → get (add_record t rec).username_to_id name
      ≡ (if text_eq rec.username name then some rec.user_id else get t.username_to_id name)
unfolding add_record
name-added t rec name = get-put t.username_to_id rec.username name rec.user_id

-- What a username leads to after a load: the id of a record that was written with it, or what it
-- led to before.
abbrev NameLoaded : Dict UserRecord → Storage → Text → Type 0
NameLoaded users t name =
    let now : Option Text = get (load_entries t (write_entries users)).username_to_id name in
    ((id : Text) × (rec : UserRecord) × (get users id ≡ some rec)
      × (rec.username ≡ name)
      × (now ≡ some rec.user_id))
    ⊎ (((id : Text) (rec : UserRecord) → get users id ≡ some rec → ¬ (rec.username ≡ name))
        × (now ≡ get t.username_to_id name))

some_ne :
    (users : Dict UserRecord) (i j : Text) {r : UserRecord}
    → get users i ≡ none
    → get users j ≡ some r
    → text_eq i j ≡ false
some_ne users i j n h = elim (Bool-cases (text_eq i j)) [
  | inl same ↦ absurd (none_some (sym n ∙ ap (get users) ((text_eq_iff i j).0 same) ∙ h))
  | inr other ↦ other
]
  where
    none_some : {r : UserRecord} → none ≡ some r → ⊥
    none_some e = cc

name-loaded :
    (users : Dict UserRecord) (t : Storage) (name : Text) → IsKeyed users → NameLoaded users t name
unfolding get
name-loaded [] t name v = inr (λ id rec h. cc, unfold write_entries load_entries in refl)
name-loaded ((id, rec) ∷ users) t name (own, new, v) =
    let e : load_entries t (write_entries ((id, rec) ∷ users))
        ≡ load_entries (add_record t rec) (write_entries users) =
      load_one t id rec users in
    elim (name-loaded users (add_record t rec) name v) [
      | inl (i, r, found, named, now) ↦ inl (
        i,
        r,
        rw (some_ne users id i new found) found,
        named,
        ap (λ (s : Storage). get s.username_to_id name) e ∙ now,
      )
      | inr (others, now) ↦ elim (Bool-cases (text_eq rec.username name)) [
        | inl same ↦ inl (
          id,
          rec,
          rw (text_eq_refl id) refl,
          (text_eq_iff rec.username name).0 same,
          ap (λ (s : Storage). get s.username_to_id name) e
              ∙ now
              ∙ rw (name-added t rec name) (rw same refl),
        )
        | inr other ↦ inr (
          (λ i r found. not_first i r found (others i r) (λ n. ground (arith, text_eq_refl name))),
          ap (λ (s : Storage). get s.username_to_id name) e
              ∙ now
              ∙ rw (name-added t rec name) (rw other refl),
        )
      ]
    ]
  where
    not_first :
        (i : Text) (r : UserRecord)
        → (if text_eq id i then some rec else get users i) ≡ some r
        → (get users i ≡ some r → ¬ (r.username ≡ name))
        → ¬ (rec.username ≡ name)
        → ¬ (r.username ≡ name)
    not_first i r found rest first n = elim (Bool-cases (text_eq id i)) [
      | inl same ↦ first (ground arith)
      | inr away ↦ rest (ground arith) n
    ]

pub or_else-none : (o : Option UserRecord) → or_else o none ≡ o
or_else-none none = refl
or_else-none (some r) = refl

same_name :
    (s t : Storage) (name : Text)
    → IsIndexed s
    → t.username_to_id ≡ []
    → NameLoaded s.users_by_id t name
    → get (load_entries t (write_entries s.users_by_id)).username_to_id name
      ≡ get s.username_to_id name
unfolding get
same_name s t name v no_names (inl (id, rec, found, named, now)) =
    let (own, leads) = v.listed id rec found in
    now ∙ ap some own ∙ sym leads ∙ ap (get s.username_to_id) named
same_name s t name v no_names (inr (others, now)) =
    now
    ∙ rw no_names (elim (Option-cases (get s.username_to_id name)) [
      | inl missing ↦ sym missing
      | inr (id, found) ↦
          (let (rec, listed, named) = v.named name id found in absurd (others id rec listed named))
    ])

-- A server that starts without users and loads the file that another saved has its users: every id
-- leads to the same record, and every username to the same id. The saving server has a path, its
-- maps agree, and it stores each record once; the JSON library reads back the value that
-- it printed.
pub load_from_file-save_to_file :
    (json : JsonLib) (path : Text) (file : Option Text) (s t : Storage)
    → json.parse (json.dump (arr (write_entries s.users_by_id)))
      ≡ some (arr (write_entries s.users_by_id))
    → is_empty s.persist_path ≡ false
    → IsIndexed s
    → IsKeyed s.users_by_id
    → t.users_by_id ≡ []
    → t.username_to_id ≡ []
    → let t' : Storage = load_from_file json path (save_to_file json s file) t in
      ((id : Text) → get t'.users_by_id id ≡ get s.users_by_id id)
      × ((name : Text) → get t'.username_to_id name ≡ get s.username_to_id name)
unfolding save_to_file load_from_file elements get
load_from_file-save_to_file json path file s t reads named v keyed no_users no_names =
    let t1 : Storage = record t { persist_path = path } in
    rw named (
      rw reads (
        λ id.
            get-loaded s.users_by_id t1 id keyed
            ∙ rw no_users (or_else-none (get s.users_by_id id)),
        λ name. same_name s t1 name v no_names (name-loaded s.users_by_id t1 name keyed),
      ))
