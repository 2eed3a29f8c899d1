-- ===== src/Server/Effects/Kinds.antt =====
-- What a packet may do to the store: one of the store's own operations, on what the packet asks for,
-- and only with the right to it.
use nova_chat.Prelude.{ℕ, ◌≡◌, refl, sym, inl, inr, false, none, some, [], Option-cases}
use nova_chat.Prelude.Text.{Text, text_eq, text_eq_refl}
use nova_chat.Prelude.Int.{ℤ}
use nova_chat.Prelude.Dict.{get}
use nova_chat.MessageType.{
  register_request, login_request, logout_request, add_friend_request, delete_friend_request,
  send_message_request,
}
use nova_chat.Codec.{Packet}
use nova_chat.Proto.{
  Wire, RegisterRequest, LoginRequest, TokenRequest, FriendRequest, SendMessageRequest,
}
use nova_chat.Server.Storage.{
  Storage, UserRecord, MsgRecord, returned, register_user, check_password, authenticate,
  create_session, remove_session, register_session, find_by_token, add_friend, remove_friend,
  save_message,
}
use nova_chat.Server.ChatHandler.{make_conv_id}

-- The maps lead from the token to the user, and from the username to the user.
abbrev pub HasToken : Storage → Text → UserRecord → Type 0
HasToken s token user =
    (id : Text) × (get s.token_to_user_id token ≡ some id) × (get s.users_by_id id ≡ some user)

abbrev pub HasName : Storage → Text → UserRecord → Type 0
HasName s username user =
    (id : Text) × (get s.username_to_id username ≡ some id) × (get s.users_by_id id ≡ some user)

-- the message that a request makes, with the clock's time, before it has an id
abbrev pub message_of : SendMessageRequest → UserRecord → ℤ → MsgRecord
message_of req sender now = record {
  message_id = [];
  conversation_id = make_conv_id sender.user_id req.receiver_id;
  sender_id = sender.user_id;
  content = req.content;
  timestamp_ms = now;
}

-- How the packet `pkt` of session `i` leads from store `s` to store `t`, at the time `now`.
pub data Effect (wire : Wire) (i : ℕ) (pkt : Packet) (now : ℤ) (s t : Storage) : Type 0 where
  nothing : t ≡ s → Effect wire i pkt now s t
  registers :
      (req : RegisterRequest)
      → pkt.type ≡ register_request
      → wire.register_request_format.parse pkt.payload ≡ some req
      → t ≡ (register_user s req.username req.password req.display_name).1
      → Effect wire i pkt now s t
  logs_in :
      (req : LoginRequest) (rec : UserRecord)
      → pkt.type ≡ login_request
      → wire.login_request_format.parse pkt.payload ≡ some req
      → HasName s req.username rec
      → rec.password ≡ req.password
      → t ≡ register_session (create_session s rec.user_id).1 rec.user_id i
      → Effect wire i pkt now s t
  logs_out :
      (req : TokenRequest)
      → pkt.type ≡ logout_request
      → wire.logout_request_format.parse pkt.payload ≡ some req
      → t ≡ remove_session s req.token
      → Effect wire i pkt now s t
  befriends :
      (req : FriendRequest) (user : UserRecord)
      → pkt.type ≡ add_friend_request
      → wire.add_friend_request_format.parse pkt.payload ≡ some req
      → HasToken s req.token user
      → text_eq user.user_id req.target_user_id ≡ false
      → t ≡ (add_friend s user.user_id req.target_user_id).1
      → Effect wire i pkt now s t
  unfriends :
      (req : FriendRequest) (user : UserRecord)
      → pkt.type ≡ delete_friend_request
      → wire.delete_friend_request_format.parse pkt.payload ≡ some req
      → HasToken s req.token user
      → t ≡ (remove_friend s user.user_id req.target_user_id).1
      → Effect wire i pkt now s t
  stores :
      (req : SendMessageRequest) (sender : UserRecord)
      → pkt.type ≡ send_message_request
      → wire.send_message_request_format.parse pkt.payload ≡ some req
      → HasToken s req.token sender
      → t ≡ (save_message s (message_of req sender now)).1
      → Effect wire i pkt now s t

-- The same without the packet.
pub data Change (i : ℕ) (s t : Storage) : Type 0 where
  leaves : t ≡ s → Change i s t
  enters :
      (username password display_name : Text)
      → t ≡ (register_user s username password display_name).1
      → Change i s t
  signs_in :
      (username password : Text) (rec : UserRecord)
      → authenticate s username password ≡ returned (some rec)
      → t ≡ register_session (create_session s rec.user_id).1 rec.user_id i
      → Change i s t
  signs_out : (token : Text) → t ≡ remove_session s token → Change i s t
  joins :
      (token : Text) (user : UserRecord) (other : Text)
      → find_by_token s token ≡ some user
      → t ≡ (add_friend s user.user_id other).1
      → Change i s t
  parts :
      (token : Text) (user : UserRecord) (other : Text)
      → find_by_token s token ≡ some user
      → t ≡ (remove_friend s user.user_id other).1
      → Change i s t
  saves :
      (token : Text) (sender : UserRecord) (receiver : Text) (msg : MsgRecord)
      → find_by_token s token ≡ some sender
      → msg.sender_id ≡ sender.user_id
      → msg.conversation_id ≡ make_conv_id sender.user_id receiver
      → t ≡ (save_message s msg).1
      → Change i s t

pub find_by_token-HasToken :
    (s : Storage) (token : Text) (user : UserRecord)
    → find_by_token s token ≡ some user
    → HasToken s token user
unfolding find_by_token
find_by_token-HasToken s token user h = elim (Option-cases (get s.token_to_user_id token)) [
  | inl bad ↦ absurd (never (rw (bad, find_by_token) at h))
  | inr (id, good) ↦ (id, good, rw (good, find_by_token) at h)
]
  where
    never : none ≡ some user → ⊥
    never e = cc

HasToken-find_by_token :
    (s : Storage) (token : Text) (user : UserRecord)
    → HasToken s token user
    → find_by_token s token ≡ some user
unfolding find_by_token
HasToken-find_by_token s token user (id, leads, is_user) = rw (leads, find_by_token) is_user

HasName-authenticate :
    (s : Storage) (username password : Text) (rec : UserRecord)
    → HasName s username rec
    → rec.password ≡ password
    → authenticate s username password ≡ returned (some rec)
unfolding authenticate check_password
HasName-authenticate s username password rec (id, leads, is_user) same =
    rw (leads, authenticate)
      (rw (is_user, check_password) (rw (sym same) (rw (text_eq_refl rec.password) refl)))

pub Effect-Change :
    (wire : Wire) (i : ℕ) (pkt : Packet) (now : ℤ) (s t : Storage)
    → Effect wire i pkt now s t
    → Change i s t
Effect-Change wire i pkt now s t (nothing e) = leaves e
Effect-Change wire i pkt now s t (registers req kind read e) =
    enters req.username req.password req.display_name e
Effect-Change wire i pkt now s t (logs_in req rec kind read named right e) =
    signs_in req.username req.password rec
      (HasName-authenticate s req.username req.password rec named right) e
Effect-Change wire i pkt now s t (logs_out req kind read e) = signs_out req.token e
Effect-Change wire i pkt now s t (befriends req user kind read good other e) =
    joins req.token user req.target_user_id (HasToken-find_by_token s req.token user good) e
Effect-Change wire i pkt now s t (unfriends req user kind read good e) =
    parts req.token user req.target_user_id (HasToken-find_by_token s req.token user good) e
Effect-Change wire i pkt now s t (stores req sender kind read good e) =
    saves req.token sender req.receiver_id (message_of req sender now)
      (HasToken-find_by_token s req.token sender good) refl refl e
