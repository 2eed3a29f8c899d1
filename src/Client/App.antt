-- ===== src/Client/App.antt =====
-- What the client's services share: the connection, the database, the clock, and each service's own
-- state (client/src/service/*.h, client/src/core/User.h). The lambdas that wait for a response are
-- the constructors of `Callback`. What the log is given is left out.
use nova_chat.Prelude.{
  ℕ, zero, suc, ◌+◌, ◌/◌, ◌%◌, Bool, List, [], ◌∷◌, ◌++◌, ltb, ◌==◌, if◌then◌else◌,
}
use nova_chat.Prelude.Text.{Text}
use nova_chat.Prelude.Int.{ℤ, pos, negsuc}
use nova_chat.MessageType.{MessageType}
use nova_chat.Codec.{Bytes}
use nova_chat.Proto.{ErrorResponse, auth_expired}
use nova_chat.Client.TcpClient.{TcpClient, send_request}
use nova_chat.Client.Db.Tables.{Db, Contact, Conversation, Message}

pub record User : Type 0 where
  pub server_id : Text
  pub username : Text
  pub display_name : Text
  pub avatar_url : Text
  pub token : Text

abbrev pub nobody : User
nobody = record { server_id = []; username = []; display_name = []; avatar_url = []; token = [] }

pub data Callback : Type 0 where
  on_login : Text → Callback
  on_register : Callback
  on_contacts : Callback
  on_friend_added : Callback
  on_friend_deleted : Text → Callback
  on_search : Callback
  on_message_sent : Text → Callback
  on_history : Text → Callback
  on_conversations : Callback

-- The Qt signals of the three services.
pub data Event : Type 0 where
  login_succeeded : User → Event
  login_failed : Text → Event
  register_succeeded : Event
  register_failed : Text → Event
  logged_out : Event
  contacts_synced : List Contact → Event
  contact_added : Contact → Event
  contact_deleted : Text → Event
  search_result : List Contact → Event
  operation_failed : Text → Event
  auth_has_expired : Event
  message_sent : Message → Event
  message_failed : Text → Event
  message_received : Message → Event
  history_loaded : Text → List Message → Bool → Event
  conversations_loaded : List Conversation → Event

-- `auth_user` is AuthService's copy of the user, `current_user` the copy that ContactService and
-- ChatService are made with. `clock` gives the readings of the clock that are still to come.
pub record App : Type 0 where
  pub tcp : TcpClient Callback
  pub db : Db
  pub clock : ℕ → ℤ
  pub auth_user : User
  pub current_user : User
  pub contacts : List Contact
  pub conversations : List Conversation
  pub local_id_counter : ℕ
  pub events : List Event

abbrev pub emit : App → Event → App
emit a e = record a { events = a.events ++ e ∷ [] }

abbrev pub with_db : App → Db → App
with_db a db = record a { db = db }

-- client_->sendPacket(pkt, callback), for a packet of which the type and payload are set
unfoldable pub request : MessageType → Bytes → Callback → App → App
request type payload callback a = record a {
  tcp = send_request (record { type = type; seq_id = 0; payload = payload }) callback a.tcp;
}

-- the two functions checkAuthExpired
unfoldable pub is_auth_expired : ErrorResponse → Bool
is_auth_expired er = er.code == auth_expired

unfoldable pub check_auth_expired : ErrorResponse → App → App
unfolding is_auth_expired
check_auth_expired er a = if is_auth_expired er then emit a auth_has_expired else a

-- std::to_string; the fuel is above the number of digits
unfoldable pub digits : ℕ → ℕ → Text
digits zero n = []
digits (suc f) n =
    let more = digits f (n / 10) in
    if ltb n 10 then (b'0' + n) ∷ [] else more ++ (b'0' + n % 10) ∷ []

unfoldable pub to_string : ℤ → Text
unfolding digits
to_string (pos n) = digits (suc n) n
to_string (negsuc n) = b'-' ∷ digits (suc (suc n)) (suc n)
