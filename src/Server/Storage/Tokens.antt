-- ===== src/Server/Storage/Tokens.antt =====
-- Tokens of ServerStorage: createSession, findByToken and removeSession.
use nova_chat.Prelude.{
  ◌≡◌, sym, ap, ◌∙◌, ◌⊎◌, inl, inr, false, none, some, if◌then◌else◌, arith, Option-cases,
}
use nova_chat.Prelude.Text.{Text, text_eq}
use nova_chat.Prelude.Dict.{get, remove, get-put, get-remove}
use nova_chat.Server.Hex.{generate_token}
use nova_chat.Server.Storage.{Storage, UserRecord, create_session, find_by_token, remove_session}
use nova_chat.Server.Storage.Accounts.{IsIndexed, put-cases}

-- A token that createSession made leads to its user; every other token leads where it led before.
pub find_by_token-create_session :
    (s : Storage) (user_id token : Text)
    → find_by_token (create_session s user_id).1 token ≡ (
        if text_eq (create_session s user_id).0 token
        then get s.users_by_id user_id
        else find_by_token s token)
unfolding create_session find_by_token
find_by_token-create_session s user_id token =
    ground (arith, get-put s.token_to_user_id (generate_token s.rng).0 token user_id)

-- A removed token leads to nobody; every other token to whom it led before.
pub find_by_token-remove_session :
    (s : Storage) (token other : Text)
    → find_by_token (remove_session s token) other
      ≡ (if text_eq token other then none else find_by_token s other)
unfolding remove_session find_by_token
find_by_token-remove_session s token other =
    ground (arith, get-remove s.token_to_user_id token other)

pub create_session-IsIndexed :
    (s : Storage) (user_id : Text) (rec : UserRecord)
    → get s.users_by_id user_id ≡ some rec
    → IsIndexed s
    → IsIndexed (create_session s user_id).1
unfolding create_session
create_session-IsIndexed s user_id rec known v = record {
  named = v.named;
  listed = v.listed;
  signed_in = λ token id h.
      owner id (put-cases s.token_to_user_id (generate_token s.rng).0 token user_id h);
}
  where
    owner :
        (id : Text) {token : Text}
        → (((generate_token s.rng).0 ≡ token) × (user_id ≡ id))
          ⊎ ((text_eq (generate_token s.rng).0 token ≡ false)
              × (get s.token_to_user_id token ≡ some id))
        → (r : UserRecord) × (get s.users_by_id id ≡ some r)
    owner id (inl (_, i)) = (rec, ap (get s.users_by_id) (sym i) ∙ known)
    owner id {token} (inr (_, h)) = v.signed_in token id h

pub remove_session-IsIndexed :
    (s : Storage) (token : Text) → IsIndexed s → IsIndexed (remove_session s token)
unfolding remove_session
remove_session-IsIndexed s token v = record {
  named = v.named;
  listed = v.listed;
  signed_in = λ other id h.
      v.signed_in other id (left other id (get-remove s.token_to_user_id token other) h);
}
  where
    left :
        (other id : Text)
        → get (remove s.token_to_user_id token) other
          ≡ (if text_eq token other then none else get s.token_to_user_id other)
        → get (remove s.token_to_user_id token) other ≡ some id
        → get s.token_to_user_id other ≡ some id
    left other id e h = ground arith

-- A token is good for a user that `findById` knows.
pub find_by_token-listed :
    (s : Storage) (token : Text) (rec : UserRecord)
    → IsIndexed s
    → find_by_token s token ≡ some rec
    → get s.users_by_id rec.user_id ≡ some rec
unfolding find_by_token
find_by_token-listed s token rec v h = elim (Option-cases (get s.token_to_user_id token)) [
  | inl missing ↦ absurd (ground (arith))
  | inr (id, found) ↦
      (let e : get s.users_by_id id ≡ some rec = ground arith in
        ap (get s.users_by_id) (v.listed id rec e).0 ∙ e)
]
