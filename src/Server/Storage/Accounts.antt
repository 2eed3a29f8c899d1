-- ===== src/Server/Storage/Accounts.antt =====
-- Users and tokens of ServerStorage: the three maps agree with one another.
use nova_chat.Prelude.{
  ◌≡◌, refl, sym, ap, ◌∙◌, subst, ◌⊎◌, inl, inr, false, none, some, arith, Bool-cases,
}
use nova_chat.Prelude.Text.{Text, text_eq, text_eq_iff, text_eq_refl}
use nova_chat.Prelude.Dict.{Dict, get, put, has, get-put}
use nova_chat.Server.Hex.{generate_id}
use nova_chat.Server.Storage.{Storage, UserRecord, register_user}

-- The id that the next registration draws belongs to nobody.
abbrev pub IsFresh : Storage → Type 0
IsFresh s = get s.users_by_id (generate_id s.rng).0 ≡ none

-- A username leads to the one record that has it, and each record is reached by its username and
-- its own id; a token leads to a user that exists.
pub record IsIndexed (s : Storage) : Type 0 where
  pub named :
      (name id : Text)
      → get s.username_to_id name ≡ some id
      → (rec : UserRecord) × (get s.users_by_id id ≡ some rec) × (rec.username ≡ name)
  pub listed :
      (id : Text) (rec : UserRecord)
      → get s.users_by_id id ≡ some rec
      → (rec.user_id ≡ id) × (get s.username_to_id rec.username ≡ some id)
  pub signed_in :
      (token id : Text)
      → get s.token_to_user_id token ≡ some id
      → (rec : UserRecord) × (get s.users_by_id id ≡ some rec)

-- The three maps of another store are these.
pub IsIndexed-same :
    {s t : Storage}
    → t.users_by_id ≡ s.users_by_id
    → t.username_to_id ≡ s.username_to_id
    → t.token_to_user_id ≡ s.token_to_user_id
    → IsIndexed s
    → IsIndexed t
IsIndexed-same u n k v = record {
  named = λ name id h. rw u (v.named name id (rw n at h));
  listed = λ id rec h. rw n (v.listed id rec (rw u at h));
  signed_in = λ token id h. rw u (v.signed_in token id (rw k at h));
}

pub get-put_self {ℓ} : {V : Type ℓ} (m : Dict V) (k : Text) (v : V) → get (put m k v) k ≡ some v
get-put_self m k v = rw (get-put m k k v, text_eq_refl k)

-- What is found in an updated map is the new value, or was there before under another key.
pub put-cases {ℓ} :
    {V : Type ℓ} (m : Dict V) (k j : Text) (v : V) {x : V}
    → get (put m k v) j ≡ some x
    → ((k ≡ j) × (v ≡ x)) ⊎ ((text_eq k j ≡ false) × (get m j ≡ some x))
put-cases m k j v h = ground (arith, get-put m k j v, text_eq_iff k j)

put_new {ℓ} :
    {V : Type ℓ} (m : Dict V) (k j : Text) (v : V) {x : V}
    → get m k ≡ none
    → get m j ≡ some x
    → get (put m k v) j ≡ some x
put_new m k j v n h = ground (arith, get-put m k j v, text_eq_iff k j)

module _ (s : Storage) (rec : UserRecord) (free : get s.users_by_id rec.user_id ≡ none)
    (unnamed : get s.username_to_id rec.username ≡ none) where
  with_user : Storage
  with_user = record s {
    users_by_id = put s.users_by_id rec.user_id rec;
    username_to_id = put s.username_to_id rec.username rec.user_id;
  }

  with_user-IsIndexed : IsIndexed s → IsIndexed with_user
  unfolding with_user
  with_user-IsIndexed v = record {
    named =
        λ name id h. named' name id (put-cases s.username_to_id rec.username name rec.user_id h);
    listed = λ id r h. listed' id r (put-cases s.users_by_id rec.user_id id rec h);
    signed_in = λ token id h.
        let (r, e) = v.signed_in token id h in (r, put_new s.users_by_id rec.user_id id rec free e);
  }
    where
      named' :
          (name id : Text)
          → ((rec.username ≡ name) × (rec.user_id ≡ id))
            ⊎ ((text_eq rec.username name ≡ false) × (get s.username_to_id name ≡ some id))
          → (r : UserRecord) × (get (put s.users_by_id rec.user_id rec) id ≡ some r)
            × (r.username ≡ name)
      named' name id (inl (n, i)) = (
        rec,
        subst (λ j. get (put s.users_by_id rec.user_id rec) j ≡ some rec) i
            (get-put_self s.users_by_id rec.user_id rec),
        n,
      )
      named' name id (inr (_, h)) =
          let (r, e, n) = v.named name id h in
          (r, put_new s.users_by_id rec.user_id id rec free e, n)

      listed' :
          (id : Text) (r : UserRecord)
          → ((rec.user_id ≡ id) × (rec ≡ r))
            ⊎ ((text_eq rec.user_id id ≡ false) × (get s.users_by_id id ≡ some r))
          → (r.user_id ≡ id)
            × (get (put s.username_to_id rec.username rec.user_id) r.username ≡ some id)
      listed' id r (inl (i, e)) = (
        ap (λ (x : UserRecord). x.user_id) (sym e) ∙ i,
        subst
            (λ (x : UserRecord).
              get (put s.username_to_id rec.username rec.user_id) x.username ≡ some id)
            e (get-put_self s.username_to_id rec.username rec.user_id ∙ ap some i),
      )
      listed' id r (inr (_, h)) =
          let (i, n) = v.listed id r h in
          (i, put_new s.username_to_id rec.username r.username rec.user_id unnamed n)

has-false {ℓ} : {V : Type ℓ} (m : Dict V) (k : Text) → has m k ≡ false → get m k ≡ none
has-false m k h = ground arith

-- The record that a registration makes.
abbrev pub new_user : Storage → Text → Text → Text → UserRecord
new_user s username password display_name = record {
  user_id = (generate_id s.rng).0;
  username = username;
  display_name = display_name;
  password = password;
}

-- A registration keeps the maps in step, whether it succeeds or not, if the id that it draws is new.
pub register_user-IsIndexed :
    (s : Storage) (username password display_name : Text)
    → IsFresh s
    → IsIndexed s
    → IsIndexed (register_user s username password display_name).1
unfolding register_user put with_user generate_id
register_user-IsIndexed s username password display_name fresh v =
    elim (Bool-cases (has s.username_to_id username)) [
      | inl taken ↦ rw taken v
      | inr free ↦ rw free (
          IsIndexed-same refl refl refl (
            with_user-IsIndexed s (new_user s username password display_name) fresh
              (has-false s.username_to_id username free) v))
    ]
