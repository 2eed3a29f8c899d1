-- ===== src/Server/Storage/Login.antt =====
-- Registering and logging in: registerUser and authenticate of ServerStorage, one after the other.
use nova_chat.Prelude.{
  ◌≡◌, refl, sym, ap, ◌∙◌, ◌≢◌, inl, inr, ◌↔◌, true, none, some, if◌then◌else◌, arith, Option-cases,
}
use nova_chat.Prelude.Text.{Text, text_eq, text_eq_iff}
use nova_chat.Prelude.Dict.{get, has}
use nova_chat.Server.Hex.{generate_id}
use nova_chat.Server.Storage.{
  Storage, UserRecord, check_password, returned, thrown, register_user, authenticate,
}
use nova_chat.Server.Storage.Accounts.{IsIndexed, get-put_self, new_user}

register_user_taken :
    (s : Storage) (username password display_name : Text)
    → has s.username_to_id username ≡ true
    → register_user s username password display_name ≡ (none, s)
unfolding register_user
register_user_taken s username password display_name taken = rw taken refl

has-register_user :
    (s : Storage) (username password display_name : Text)
    → has (register_user s username password display_name).1.username_to_id username ≡ true
unfolding register_user
has-register_user s username password display_name =
    ground (arith, get-put_self s.username_to_id username (generate_id s.rng).0)

-- A username is registered once: after an attempt to register it, successful or not, the next one is
-- refused and changes nothing.
pub register_user_twice :
    (s : Storage) (username password display_name password' display_name' : Text)
    → let s' : Storage = (register_user s username password display_name).1 in
      register_user s' username password' display_name' ≡ (none, s')
register_user_twice s username password display_name password' display_name' =
    register_user_taken _ username password' display_name'
      (has-register_user s username password display_name)

-- After a registration that succeeded the user gets in with the password that was given, and with
-- no other.
pub authenticate-register_user :
    (s : Storage) (username password display_name attempt : Text) (rec : UserRecord)
    → (register_user s username password display_name).0 ≡ some rec
    → authenticate (register_user s username password display_name).1 username attempt
      ≡ returned (if text_eq password attempt then some rec else none)
unfolding register_user authenticate
authenticate-register_user s username password display_name attempt rec h = ground (
  arith,
  get-put_self s.username_to_id username (generate_id s.rng).0,
  get-put_self s.users_by_id (generate_id s.rng).0 (new_user s username password display_name),
)

-- Where the maps agree no login throws, since `at` finds its key; and a login succeeds for a record
-- exactly if the record is the one stored under its id, has the given username, and the given
-- password is its own.
pub authenticate_sound :
    (s : Storage) (username password : Text)
    → IsIndexed s
    → (authenticate s username password ≢ thrown)
      × ((rec : UserRecord)
          → (authenticate s username password ≡ returned (some rec)) ↔ (
              (get s.users_by_id rec.user_id ≡ some rec)
              × (rec.username ≡ username)
              × (rec.password ≡ password)))
unfolding authenticate
authenticate_sound s username password v = elim (Option-cases (get s.username_to_id username)) [
  | inl missing ↦
      rw (missing, authenticate)
        (
          (λ e. cc),
          λ rec. (
            (λ e. cc),
            λ (h : (get s.users_by_id rec.user_id ≡ some rec)
                  × (rec.username ≡ username)
                  × (rec.password ≡ password)).
                absurd (
                  none_some (
                    sym missing
                    ∙ ap (get s.username_to_id) (sym h.1)
                    ∙ (v.listed rec.user_id rec h.0).1)),
          ),
        )
  | inr (id, found) ↦
      (let (r, e, n) = v.named username id found in
        let (i, m) = v.listed id r e in
        rw (found, authenticate)
          (rw (e, check_password)
            (
              (λ t. ground (arith)),
              λ rec. (
                (λ t. ground (arith, text_eq_iff r.password password)),
                λ (h : (get s.users_by_id rec.user_id ≡ some rec)
                      × (rec.username ≡ username)
                      × (rec.password ≡ password)).
                    ground
                      (arith, text_eq_iff r.password password, (v.listed rec.user_id rec h.0).1),
              ),
            )))
]
  where
    none_some : {a : Text} → none ≡ some a → ⊥
    none_some e = cc
