-- ===== src/Server/Storage/Friends.antt =====
-- The friend relation of ServerStorage: addFriend, removeFriend and getFriends.
use nova_chat.Prelude.{
  ◌≡◌, refl, sym, ap, ◌∙◌, inl, inr, Bool, true, false, not, ◌&&◌, ◌||◌, none, some, [], ◌∷◌,
  if◌then◌else◌, arith, Option-cases, All,
}
use nova_chat.Prelude.Text.{Text, text_eq, text_eq_iff, text_eq_refl}
use nova_chat.Prelude.Dict.{
  Dict, TextSet, get, put, has, get-put, member, insert, erase, member-insert, member-erase,
}
use nova_chat.Server.Storage.{
  Storage, UserRecord, friend_set, add_friend, remove_friend, get_friends, known_users, erase_back,
}

-- `b` is in the set that is kept for `a`.
unfoldable pub are_friends : Storage → Text → Text → Bool
are_friends s a b = member (friend_set s.friendships a) b

-- Friendship goes both ways.
abbrev pub IsMutual : Storage → Type 0
IsMutual s = (a b : Text) → are_friends s a b ≡ are_friends s b a

friend_set-put :
    (fs : Dict TextSet) (k j : Text) (set : TextSet)
    → friend_set (put fs k set) j ≡ (if text_eq k j then set else friend_set fs j)
unfolding friend_set
friend_set-put fs k j set = ground (arith, get-put fs k j set)

friend_set-get :
    (fs : Dict TextSet) (k : Text) (set : TextSet) → get fs k ≡ some set → friend_set fs k ≡ set
unfolding friend_set
friend_set-get fs k set e = ground arith

friend_set-none : (fs : Dict TextSet) (k : Text) → get fs k ≡ none → friend_set fs k ≡ []
unfolding friend_set
friend_set-none fs k e = ground arith

member-none :
    (fs : Dict TextSet) (k y : Text) → get fs k ≡ none → member (friend_set fs k) y ≡ false
unfolding friend_set member
member-none fs k y e = rw (e, friend_set) refl

-- `{x, y}` is the pair `{a, b}`
abbrev pub same_pair : Text → Text → Text → Text → Bool
same_pair a b x y = (text_eq a x && text_eq b y) || (text_eq b x && text_eq a y)

-- It succeeds exactly if both users exist and are not friends yet.
pub add_friend_result :
    (s : Storage) (a b : Text)
    → (add_friend s a b).0 ≡ (has s.users_by_id a && has s.users_by_id b && not (are_friends s a b))
unfolding add_friend are_friends
add_friend_result s a b = ground arith

member-put-insert :
    (fs : Dict TextSet) (a b x y : Text)
    → member (friend_set (put fs a (insert (friend_set fs a) b)) x) y
      ≡ (member (friend_set fs x) y || (text_eq a x && text_eq b y))
member-put-insert fs a b x y = ground (
  arith,
  friend_set-put fs a x (insert (friend_set fs a) b),
  member-insert (friend_set fs a) b y,
  text_eq_iff a x,
  text_eq_iff b y,
)

-- After addFriend two users are friends exactly if they were before, or if it succeeded and they
-- are its two users, in either order.
pub are_friends-add_friend :
    (s : Storage) (a b x y : Text)
    → are_friends (add_friend s a b).1 x y
      ≡ (are_friends s x y || ((add_friend s a b).0 && same_pair a b x y))
unfolding add_friend are_friends
are_friends-add_friend s a b x y = ground (
  arith,
  member-put-insert s.friendships a b x y,
  member-put-insert (put s.friendships a (insert (friend_set s.friendships a) b)) b a x y,
  text_eq_iff a x,
  text_eq_iff b y,
)

pub add_friend-IsMutual : (s : Storage) (a b : Text) → IsMutual s → IsMutual (add_friend s a b).1
add_friend-IsMutual s a b m x y =
    are_friends-add_friend s a b x y
    ∙ ground (arith, m x y)
    ∙ sym (are_friends-add_friend s a b y x)

-- It succeeds exactly if the two are friends.
pub remove_friend_result : (s : Storage) (a b : Text) → (remove_friend s a b).0 ≡ are_friends s a b
unfolding remove_friend are_friends friend_set member
remove_friend_result s a b = ground arith

member-put-erase :
    (fs : Dict TextSet) (a b x y : Text)
    → member (friend_set (put fs a (erase (friend_set fs a) b)) x) y
      ≡ (member (friend_set fs x) y && not (text_eq a x && text_eq b y))
member-put-erase fs a b x y = ground (
  arith,
  friend_set-put fs a x (erase (friend_set fs a) b),
  member-erase (friend_set fs a) b y,
  text_eq_iff a x,
  text_eq_iff b y,
)

member-erase_back :
    (fs : Dict TextSet) (b a x y : Text)
    → member (friend_set (erase_back fs b a) x) y
      ≡ (member (friend_set fs x) y && not (text_eq b x && text_eq a y))
unfolding erase_back
member-erase_back fs b a x y = elim (Option-cases (get fs b)) [
  | inl missing ↦
      rw (missing, erase_back) (ground (arith, member-none fs b y missing, text_eq_iff b x))
  | inr (set, found) ↦
      rw (found, erase_back)
        (ap (λ t. member (friend_set (put fs b (erase t a)) x) y)
            (sym (friend_set-get fs b set found))
          ∙ member-put-erase fs b a x y)
]

-- After removeFriend two users are friends exactly if they were before and are not its two users,
-- in either order, unless it failed.
pub are_friends-remove_friend :
    (s : Storage) (a b x y : Text)
    → are_friends (remove_friend s a b).1 x y
      ≡ (are_friends s x y && not ((remove_friend s a b).0 && same_pair a b x y))
unfolding remove_friend are_friends
are_friends-remove_friend s a b x y = elim (Option-cases (get s.friendships a)) [
  | inl missing ↦ rw (missing, remove_friend) (ground arith)
  | inr (set, found) ↦
      rw (found, remove_friend)
        (rw (← friend_set-get s.friendships a set found) (
          ground (
            arith,
            member-put-erase s.friendships a b x y,
            member-erase_back (put s.friendships a (erase (friend_set s.friendships a) b)) b a x y,
            text_eq_iff a x,
            text_eq_iff b y,
          )))
]

pub remove_friend-IsMutual :
    (s : Storage) (a b : Text) → IsMutual s → IsMutual (remove_friend s a b).1
remove_friend-IsMutual s a b m x y =
    are_friends-remove_friend s a b x y
    ∙ ground (arith, m x y)
    ∙ sym (are_friends-remove_friend s a b y x)

known_users-All :
    {P : UserRecord → Type 0} (users : Dict UserRecord) (fids : TextSet)
    → ((id : Text) (rec : UserRecord) → member fids id ≡ true → get users id ≡ some rec → P rec)
    → All P (known_users users fids)
unfolding known_users
known_users-All users [] h = tt
known_users-All {P} users (fid ∷ fids) h =
    let rest : All P (known_users users fids) =
      known_users-All users fids (λ id rec m e. h id rec (unfold member in ground (arith)) e) in
    elim (Option-cases (get users fid)) [
      | inl missing ↦ rw (missing, known_users) rest
      | inr (rec, found) ↦
          rw (found, known_users)
            (h fid rec (unfold member in ground (arith, text_eq_refl fid)) found, rest)
    ]

-- Every record that getFriends returns is the store's record for the id of a friend of the user who
-- asks.
pub get_friends_sound :
    (s : Storage) (a : Text)
    → All
        (λ (rec : UserRecord).
          (id : Text) × (are_friends s a id ≡ true) × (get s.users_by_id id ≡ some rec))
        (get_friends s a)
unfolding get_friends are_friends friend_set
get_friends_sound s a = elim (Option-cases (get s.friendships a)) [
  | inl missing ↦ rw (missing, get_friends) tt
  | inr (set, found) ↦
      rw (found, get_friends)
        (known_users-All s.users_by_id set (λ id rec m e.
          (id, ap (λ t. member t id) (friend_set-get s.friendships a set found) ∙ m, e)))
]
