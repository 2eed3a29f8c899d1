-- ===== src/Server/Storage.antt =====
-- server/src/storage/ServerStorage.h and ServerStorage.cpp. Every method holds the one mutex from
-- its first access to its last, so a method is one step; a method returns the new store.
pub mod Accounts
pub mod Login
pub mod Tokens
pub mod Friends
pub mod History
pub mod Paging
pub mod Latest
pub mod Search
use nova_chat.Prelude.{
  ℕ, ◌+◌, Bool, true, false, not, ◌&&◌, Option, none, some, List, [], ◌∷◌, ◌++◌, leb, if◌then◌else◌,
  length,
}
use nova_chat.Prelude.Text.{Text, text_eq, contains}
use nova_chat.Prelude.Int.{ℤ, pos, lt_int}
use nova_chat.Prelude.Dict.{Dict, get, put, remove, has, TextSet, member, insert, erase}
use nova_chat.Server.Hex.{Rng, generate_id, generate_token, generate_hex}
use mathlib.Core.List.{reverse}

pub record UserRecord : Type 0 where
  pub user_id : Text
  pub username : Text
  pub display_name : Text
  pub password : Text

pub record MsgRecord : Type 0 where
  pub message_id : Text
  pub conversation_id : Text
  pub sender_id : Text
  pub content : Text
  pub timestamp_ms : ℤ

-- A weak pointer to a session is the session's number.
pub record Storage : Type 0 where
  pub users_by_id : Dict UserRecord
  pub username_to_id : Dict Text
  pub token_to_user_id : Dict Text
  pub friendships : Dict TextSet
  pub active_sessions : Dict ℕ
  pub messages : Dict (List MsgRecord)
  pub persist_path : Text
  pub rng : Rng

-- A call that may throw. (`at` of a key that is not there throws std::out_of_range.)
pub data Outcome {ℓ} (A : Type ℓ) : Type ℓ where
  returned : A → Outcome A
  thrown : Outcome A

-- Auth

unfoldable pub register_user : Storage → Text → Text → Text → Option UserRecord × Storage
register_user s username password display_name =
    let (id, rng') = generate_id s.rng in
    let rec : UserRecord = record {
      user_id = id;
      username = username;
      display_name = display_name;
      password = password;
    } in
    if has s.username_to_id username then (none, s) else (
      some rec,
      record s {
        users_by_id = put s.users_by_id id rec;
        username_to_id = put s.username_to_id username id;
        rng = rng';
      },
    )

unfoldable pub check_password : Text → Option UserRecord → Outcome (Option UserRecord)
check_password password none = thrown
check_password password (some rec) =
    if text_eq rec.password password then returned (some rec) else returned none

unfoldable pub authenticate : Storage → Text → Text → Outcome (Option UserRecord)
unfolding check_password
authenticate s username password = elim (get s.username_to_id username) [
  | none ↦ returned none
  | some id ↦ check_password password (get s.users_by_id id)
]

unfoldable pub create_session : Storage → Text → Text × Storage
create_session s user_id =
    let (token, rng') = generate_token s.rng in
    (token, record s { token_to_user_id = put s.token_to_user_id token user_id; rng = rng' })

unfoldable pub find_by_token : Storage → Text → Option UserRecord
find_by_token s token = elim (get s.token_to_user_id token) [
  | none ↦ none
  | some id ↦ get s.users_by_id id
]

unfoldable pub remove_session : Storage → Text → Storage
remove_session s token = record s { token_to_user_id = remove s.token_to_user_id token }

-- Friend relationships

-- friendships_[id], which makes an empty set where there is none
unfoldable pub friend_set : Dict TextSet → Text → TextSet
friend_set fs id = elim (get fs id) [ none ↦ [] | some set ↦ set ]

unfoldable pub add_friend : Storage → Text → Text → Bool × Storage
unfolding friend_set
add_friend s user_id friend_id =
    let mine = friend_set s.friendships user_id in
    let fs = put s.friendships user_id (insert mine friend_id) in
    if not (has s.users_by_id user_id && has s.users_by_id friend_id)
    then (false, s)
    else if member mine friend_id
    then (false, record s { friendships = fs })
    else (
      true,
      record s { friendships = put fs friend_id (insert (friend_set fs friend_id) user_id) },
    )

erase_back : Dict TextSet → Text → Text → Dict TextSet
erase_back fs friend_id user_id = elim (get fs friend_id) [
  | none ↦ fs
  | some theirs ↦ put fs friend_id (erase theirs user_id)
]

unfoldable pub remove_friend : Storage → Text → Text → Bool × Storage
unfolding erase_back
remove_friend s user_id friend_id = elim (get s.friendships user_id) [
  | none ↦ (false, s)
  | some mine ↦
      (let fs = put s.friendships user_id (erase mine friend_id) in
        if member mine friend_id
        then (true, record s { friendships = erase_back fs friend_id user_id })
        else (false, record s { friendships = fs }))
]

known_users : Dict UserRecord → TextSet → List UserRecord
known_users users [] = []
known_users users (fid ∷ fids) =
    let rest = known_users users fids in
    elim (get users fid) [ none ↦ rest | some rec ↦ rec ∷ rest ]

unfoldable pub get_friends : Storage → Text → List UserRecord
unfolding known_users
get_friends s user_id = elim (get s.friendships user_id) [
  | none ↦ []
  | some fids ↦ known_users s.users_by_id fids
]

-- ::tolower in the "C" locale
unfoldable pub to_lower : Text → Text
to_lower [] = []
to_lower (c ∷ s) = (if leb b'A' c && leb c b'Z' then c + 32 else c) ∷ to_lower s

-- the loop of searchUsers, `found` being its result so far
unfoldable pub search_loop : Text → Dict UserRecord → List UserRecord → List UserRecord
unfolding to_lower
search_loop kw [] found = found
search_loop kw ((id, rec) ∷ users) found =
    let hit = search_loop kw users (found ++ rec ∷ []) in
    let miss = search_loop kw users found in
    if contains kw (to_lower rec.username)
    then (if leb 20 (length (found ++ rec ∷ [])) then found ++ rec ∷ [] else hit)
    else miss

unfoldable pub search_users : Storage → Text → List UserRecord
search_users s keyword = search_loop (to_lower keyword) s.users_by_id []

unfoldable pub find_by_id : Storage → Text → Option UserRecord
find_by_id s user_id = get s.users_by_id user_id

-- Online session registry

unfoldable pub register_session : Storage → Text → ℕ → Storage
register_session s user_id session = record s {
  active_sessions = put s.active_sessions user_id session;
}

unfoldable pub unregister_session : Storage → Text → Storage
unregister_session s user_id = record s { active_sessions = remove s.active_sessions user_id }

-- `lock` of a weak pointer gives null when the session is gone.
unfoldable pub find_session : (ℕ → Bool) → Storage → Text → Option ℕ
find_session alive s user_id = elim (get s.active_sessions user_id) [
  | none ↦ none
  | some session ↦ if alive session then some session else none
]

-- Message storage

-- messages_[id]
unfoldable pub conversation : Storage → Text → List MsgRecord
conversation s conv_id = elim (get s.messages conv_id) [ none ↦ [] | some msgs ↦ msgs ]

unfoldable pub save_message : Storage → MsgRecord → Text × Storage
unfolding conversation
save_message s msg =
    let (id, rng') = generate_hex 8 s.rng in
    (
      id,
      record s {
        messages =
            put s.messages msg.conversation_id
              (conversation s msg.conversation_id ++ record msg { message_id = id } ∷ []);
        rng = rng';
      },
    )

-- `before_ts > 0 && timestamp >= before_ts`: the message is passed over
unfoldable pub is_too_new : ℤ → MsgRecord → Bool
is_too_new before_ts m = lt_int (pos 0) before_ts && not (lt_int m.timestamp_ms before_ts)

-- the loop of getHistory, over the messages from the last to the first
unfoldable pub history_loop : List MsgRecord → ℤ → ℤ → List MsgRecord → List MsgRecord
history_loop [] before_ts limit result = result
history_loop (m ∷ msgs) before_ts limit result =
    let skip = history_loop msgs before_ts limit result in
    let more = history_loop msgs before_ts limit (result ++ m ∷ []) in
    if is_too_new before_ts m
    then skip
    else if not (lt_int (pos (length (result ++ m ∷ []))) limit)
    then result ++ m ∷ []
    else more

unfoldable pub get_history : Storage → Text → ℤ → ℤ → List MsgRecord
get_history s conv_id before_ts limit = elim (get s.messages conv_id) [
  | none ↦ []
  | some msgs ↦ reverse (history_loop (reverse msgs) before_ts limit [])
]

-- back(), of a vector that is not empty
unfoldable pub last_message : List MsgRecord → Option MsgRecord
last_message [] = none
last_message (m ∷ []) = some m
last_message (m ∷ n ∷ msgs) = last_message (n ∷ msgs)

unfoldable pub latest_of : Text → Dict (List MsgRecord) → List MsgRecord
latest_of user_id [] = []
latest_of user_id ((conv_id, msgs) ∷ rest) =
    let others = latest_of user_id rest in
    if contains user_id conv_id
    then elim (last_message msgs) [ none ↦ others | some m ↦ m ∷ others ]
    else others

-- std::sort by falling timestamp. The order of equal timestamps is the library's choice; here the
-- later one in the list goes first.
unfoldable pub insert_by_time : MsgRecord → List MsgRecord → List MsgRecord
insert_by_time m [] = m ∷ []
insert_by_time m (n ∷ msgs) =
    if lt_int n.timestamp_ms m.timestamp_ms then m ∷ n ∷ msgs else n ∷ insert_by_time m msgs

unfoldable pub sort_by_time : List MsgRecord → List MsgRecord
sort_by_time [] = []
sort_by_time (m ∷ msgs) = insert_by_time m (sort_by_time msgs)

unfoldable pub get_latest_messages : Storage → Text → List MsgRecord
get_latest_messages s user_id = sort_by_time (latest_of user_id s.messages)
