-- ===== src/Client/Session.antt =====
-- The account of this machine across login and logout: AuthService over UserRepository.
use nova_chat.Prelude.{
  ◌≡◌, ◌↔◌, refl, inl, inr, true, false, none, some, List, [], ◌∷◌, ◌++◌, All, arith, Bool-cases,
}
use nova_chat.Prelude.Text.{Text, text_eq, text_eq_refl, text_eq_sound, is_empty}
use nova_chat.Proto.{Wire, LoginResponse}
use nova_chat.Client.Db.Tables.{Db, LocalAccount, select_one, update_where, exists_where, upsert}
use nova_chat.Client.Db.Users
use nova_chat.Client.App.{App, nobody}
use nova_chat.Client.AuthService.{store_login, logout}

-- No two accounts are active.
abbrev pub OnlyActive : Text → List LocalAccount → Type 0
OnlyActive id = All λ r. (r.is_active ≡ true) ↔ (text_eq r.server_id id ≡ true)

activate : Text → List LocalAccount → List LocalAccount
activate id rows =
    update_where (λ r. text_eq r.server_id id) (λ r. record r { is_active = true })
      (update_where (λ r. true) (λ r. record r { is_active = false }) rows)

-- The rows of a login: the account's row holds what the server sent.
abbrev pub Holds : LoginResponse → Text → LocalAccount → Type 0
Holds lr username r =
    (r.server_id ≡ lr.user_id)
    × (r.username ≡ username)
    × (r.display_name ≡ lr.display_name)
    × (r.avatar_url ≡ lr.avatar_url)
    × (r.token ≡ lr.token)
    × (r.is_active ≡ true)

activate-OnlyActive : (id : Text) (rows : List LocalAccount) → OnlyActive id (activate id rows)
unfolding activate update_where
activate-OnlyActive id [] = tt
activate-OnlyActive id (r ∷ rows) = (ground arith, activate-OnlyActive id rows)

activate-select :
    (id : Text) (rows : List LocalAccount) (r : LocalAccount)
    → select_one (λ x. text_eq x.server_id id) rows ≡ some r
    → select_one (λ x. x.is_active) (activate id rows) ≡ some (record r { is_active = true })
unfolding activate update_where select_one
activate-select id [] r h = cc
activate-select id (x ∷ rows) r h = ground (arith, activate-select id rows r)

-- What `save` writes over an old row.
abbrev overwrite : LocalAccount → LocalAccount → LocalAccount
overwrite acc r = record r {
  username = acc.username;
  display_name = acc.display_name;
  avatar_url = acc.avatar_url;
  token = acc.token;
}

abbrev SameAccount : LocalAccount → LocalAccount → Type 0
SameAccount acc r =
    (r.server_id ≡ acc.server_id)
    × (r.username ≡ acc.username)
    × (r.display_name ≡ acc.display_name)
    × (r.avatar_url ≡ acc.avatar_url)
    × (r.token ≡ acc.token)

select-overwritten :
    (acc : LocalAccount) (rows : List LocalAccount)
    → exists_where (λ x. text_eq x.server_id acc.server_id) rows ≡ true
    → (r : LocalAccount) × (select_one
          (λ x. text_eq x.server_id acc.server_id)
          (update_where (λ x. text_eq x.server_id acc.server_id) (overwrite acc) rows)
        ≡ some r)
      × SameAccount acc r
unfolding exists_where update_where select_one
select-overwritten acc [] h = absurd (false_true h)
  where
    false_true : false ≡ true → ⊥
    false_true e = cc
select-overwritten acc (x ∷ rows) h = elim (Bool-cases (text_eq x.server_id acc.server_id)) [
  | inl here ↦ (
    overwrite acc x,
    (rw here (rw here refl)),
    (text_eq_sound x.server_id acc.server_id here, refl, refl, refl, refl),
  )
  | inr away ↦
      (let (r, e, same) = select-overwritten acc rows (rw away at h) in
        (r, rw away (rw away e), same))
]

select-appended :
    (acc : LocalAccount) (rows : List LocalAccount)
    → exists_where (λ x. text_eq x.server_id acc.server_id) rows ≡ false
    → select_one (λ x. text_eq x.server_id acc.server_id) (rows ++ acc ∷ []) ≡ some acc
unfolding exists_where select_one
select-appended acc [] h = ground (arith, text_eq_refl acc.server_id)
select-appended acc (x ∷ rows) h = ground (arith, select-appended acc rows)

select-upserted :
    (acc : LocalAccount) (rows : List LocalAccount)
    → (r : LocalAccount) × (select_one
          (λ x. text_eq x.server_id acc.server_id)
          (upsert (λ x. text_eq x.server_id acc.server_id) (overwrite acc) acc rows)
        ≡ some r)
      × SameAccount acc r
unfolding upsert
select-upserted acc rows =
    elim (Bool-cases (exists_where (λ x. text_eq x.server_id acc.server_id) rows)) [
      | inl old ↦ (let (r, e, same) = select-overwritten acc rows old in (r, rw old e, same))
      | inr new ↦ (acc, rw new (select-appended acc rows new), (refl, refl, refl, refl, refl))
    ]

-- After a login that succeeded the account that findActive gives, at this start or the next, is the
-- one that logged in, with what the server sent for it, and no row of another account is active.
pub store_login-active :
    (wire : Wire) (username : Text) (lr : LoginResponse) (a : App)
    → let db : Db = (store_login wire username lr a).db in
      OnlyActive lr.user_id db.local_accounts
      × (r : LocalAccount) × (Users.find_active db ≡ some r)
      × Holds lr username r
unfolding store_login Users.set_active Users.save Users.find_active activate
store_login-active wire username lr a =
    let acc : LocalAccount = record {
      id = a.db.next_id;
      server_id = lr.user_id;
      username = username;
      display_name = lr.display_name;
      avatar_url = lr.avatar_url;
      token = lr.token;
      is_active = true;
    } in
    let (r, e, (i, n, d, v, t)) = select-upserted acc a.db.local_accounts in
    let rows : List LocalAccount =
      upsert (λ x. text_eq x.server_id acc.server_id) (overwrite acc) acc a.db.local_accounts in
    (
      activate-OnlyActive lr.user_id rows,
      record r { is_active = true },
      activate-select lr.user_id rows r e,
      (i, n, d, v, t, refl),
    )

pub cleared :
    (rows : List LocalAccount)
    → select_one
        (λ x. x.is_active)
        (update_where (λ x. true) (λ x. record x { is_active = false }) rows)
      ≡ none
unfolding select_one update_where
cleared [] = refl
cleared (x ∷ rows) = cleared rows

-- After the logout of a user who has a token no account is active in the database, so the next start
-- finds nobody logged in, and AuthService holds no user.
pub logout-nobody :
    (wire : Wire) (a : App)
    → is_empty a.auth_user.token ≡ false
    → (Users.find_active (logout wire a).db ≡ none) × ((logout wire a).auth_user ≡ nobody)
unfolding logout Users.clear_active Users.find_active
logout-nobody wire a h = rw h (cleared a.db.local_accounts, refl)
