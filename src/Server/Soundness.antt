-- ===== src/Server/Soundness.antt =====
-- When the server's store is in order, and that each operation of ServerStorage keeps it so.
use nova_chat.Prelude.{ℕ, ◌≡◌, ◌⊎◌, inl, inr, refl, some, arith}
use nova_chat.Prelude.Text.{Text}
use nova_chat.Prelude.Dict.{get}
use nova_chat.Server.Storage.{
  Storage, UserRecord, MsgRecord, Outcome, returned, thrown, register_user, create_session,
  remove_session, add_friend, remove_friend, register_session, save_message,
}
use nova_chat.Server.Storage.Accounts.{IsIndexed, IsFresh, IsIndexed-same, register_user-IsIndexed}
use nova_chat.Server.Storage.Tokens.{create_session-IsIndexed, remove_session-IsIndexed}
use nova_chat.Server.Storage.Friends.{
  IsMutual, are_friends, add_friend-IsMutual, remove_friend-IsMutual,
}
use nova_chat.Server.World.{World}

-- The maps of users and tokens agree, and friendship goes both ways.
pub record IsSound (s : Storage) : Type 0 where
  pub indexed : IsIndexed s
  pub both_ways : IsMutual s

-- The friendships have not changed, and the new maps agree.
keep_friends : {s t : Storage} → t.friendships ≡ s.friendships → IsIndexed t → IsSound s → IsSound t
unfolding are_friends
keep_friends f i v = record { indexed = i; both_ways = λ a b. rw f (v.both_ways a b) }

pub friendships-register_user :
    (s : Storage) (username password display_name : Text)
    → (register_user s username password display_name).1.friendships ≡ s.friendships
unfolding register_user
friendships-register_user s username password display_name = ground arith

pub register_user-IsSound :
    (s : Storage) (username password display_name : Text)
    → IsFresh s
    → IsSound s
    → IsSound (register_user s username password display_name).1
register_user-IsSound s username password display_name fresh v =
    keep_friends (friendships-register_user s username password display_name)
      (register_user-IsIndexed s username password display_name fresh v.indexed) v

pub create_session-IsSound :
    (s : Storage) (rec : UserRecord)
    → get s.users_by_id rec.user_id ≡ some rec
    → IsSound s
    → IsSound (create_session s rec.user_id).1
unfolding create_session
create_session-IsSound s rec known v =
    keep_friends refl (create_session-IsIndexed s rec.user_id rec known v.indexed) v

pub remove_session-IsSound :
    (s : Storage) (token : Text) → IsSound s → IsSound (remove_session s token)
unfolding remove_session
remove_session-IsSound s token v = keep_friends refl (remove_session-IsIndexed s token v.indexed) v

pub register_session-IsSound :
    (s : Storage) (id : Text) (i : ℕ) → IsSound s → IsSound (register_session s id i)
unfolding register_session are_friends
register_session-IsSound s id i v = record {
  indexed = IsIndexed-same refl refl refl v.indexed;
  both_ways = v.both_ways;
}

pub save_message-IsSound :
    (s : Storage) (msg : MsgRecord) → IsSound s → IsSound (save_message s msg).1
unfolding save_message are_friends
save_message-IsSound s msg v = record {
  indexed = IsIndexed-same refl refl refl v.indexed;
  both_ways = v.both_ways;
}

accounts-add_friend :
    (s : Storage) (a b : Text)
    → ((add_friend s a b).1.users_by_id ≡ s.users_by_id)
      × ((add_friend s a b).1.username_to_id ≡ s.username_to_id)
      × ((add_friend s a b).1.token_to_user_id ≡ s.token_to_user_id)
unfolding add_friend
accounts-add_friend s a b = (ground arith, ground arith, ground arith)

accounts-remove_friend :
    (s : Storage) (a b : Text)
    → ((remove_friend s a b).1.users_by_id ≡ s.users_by_id)
      × ((remove_friend s a b).1.username_to_id ≡ s.username_to_id)
      × ((remove_friend s a b).1.token_to_user_id ≡ s.token_to_user_id)
unfolding remove_friend
accounts-remove_friend s a b = (ground arith, ground arith, ground arith)

pub add_friend-IsSound : (s : Storage) (a b : Text) → IsSound s → IsSound (add_friend s a b).1
add_friend-IsSound s a b v =
    let (u, n, k) = accounts-add_friend s a b in
    record {
      indexed = IsIndexed-same u n k v.indexed;
      both_ways = add_friend-IsMutual s a b v.both_ways;
    }

pub remove_friend-IsSound : (s : Storage) (a b : Text) → IsSound s → IsSound (remove_friend s a b).1
remove_friend-IsSound s a b v =
    let (u, n, k) = accounts-remove_friend s a b in
    record {
      indexed = IsIndexed-same u n k v.indexed;
      both_ways = remove_friend-IsMutual s a b v.both_ways;
    }

-- The result is there, and satisfies `P`.
abbrev pub Returns : (World → Type 0) → Outcome World → Type 0
Returns P thrown = ⊥
Returns P (returned w) = P w

abbrev pub IsSafe : World → Type 0
IsSafe w = IsSound w.storage

pub Outcome-cases : (o : Outcome World) → (o ≡ thrown) ⊎ ((w : World) × (o ≡ returned w))
Outcome-cases thrown = inl refl
Outcome-cases (returned w) = inr (w, refl)
