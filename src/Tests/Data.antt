-- ===== src/Tests/Data.antt =====
-- Two users, their store, a world with two sessions, and formats that parse every payload to one
-- request.
use nova_chat.Prelude.{ℕ, false, true, none, some, [], ◌∷◌}
use nova_chat.Prelude.Text.{Text, bytes}
use nova_chat.Prelude.Int.{pos}
use nova_chat.Codec.{Packet}
use nova_chat.Proto.{Wire, Format, FriendRequest, TokenRequest}
use nova_chat.Server.Storage.{Storage, UserRecord, MsgRecord}
use nova_chat.Server.Persist.{JsonLib}
use nova_chat.Server.World.{World}

abbrev pub constant : {M : Type 0} → M → Format M
constant m = record { parse = λ b. some m; serialize = λ x. [] }

abbrev pub asks : TokenRequest
asks = record { token = bytes "t" }

abbrev pub befriends : FriendRequest
befriends = record { token = bytes "t"; target_user_id = bytes "u2" }

abbrev pub test_wire : Wire
test_wire = record {
  error_format = constant (record { code = 1; message = [] });
  register_request_format =
      constant
        (record { username = bytes "carol"; password = bytes "p"; display_name = bytes "C" });
  register_response_format = constant (record { user_id = []; display_name = [] });
  login_request_format = constant (record { username = bytes "alice"; password = bytes "a" });
  login_response_format =
      constant (record { token = []; user_id = []; display_name = []; avatar_url = [] });
  logout_request_format = constant asks;
  get_contacts_request_format = constant asks;
  get_contacts_response_format = constant [];
  add_friend_request_format = constant befriends;
  add_friend_response_format = constant (record { contact = none });
  delete_friend_request_format = constant befriends;
  search_user_request_format = constant (record { token = bytes "t"; keyword = bytes "B" });
  search_user_response_format = constant [];
  send_message_request_format = constant (record {
    token = bytes "t";
    local_msg_id = bytes "l";
    receiver_id = bytes "u2";
    content = bytes "hi";
  });
  send_message_response_format = constant (record {
    local_msg_id = [];
    server_msg_id = [];
    conversation_id = [];
    timestamp_ms = pos 0;
  });
  message_push_format = constant (record {
    message_id = bytes "m9";
    conversation_id = bytes "u1:u2";
    sender_id = bytes "u2";
    content = bytes "yo";
    timestamp_ms = pos 9;
  });
  get_history_request_format = constant (record {
    token = bytes "t";
    conversation_id = bytes "u1:u2";
    before_timestamp = pos 0;
    limit = pos 20;
  });
  get_history_response_format = constant (record { messages = []; has_more = false });
  get_conversations_request_format = constant asks;
  get_conversations_response_format = constant [];
  error_content = λ b. record { code = 3; message = [] };
}

abbrev pub test_json : JsonLib
test_json = record { parse = λ t. none; dump = λ j. [] }

abbrev pub alice : UserRecord
alice = record {
  user_id = bytes "u1";
  username = bytes "alice";
  display_name = bytes "Alice";
  password = bytes "a";
}

abbrev pub bob : UserRecord
bob = record {
  user_id = bytes "u2";
  username = bytes "bob";
  display_name = bytes "Bob";
  password = bytes "b";
}

abbrev pub message : Text → ℕ → MsgRecord
message id ts = record {
  message_id = id;
  conversation_id = bytes "u1:u2";
  sender_id = bytes "u1";
  content = bytes "hi";
  timestamp_ms = pos ts;
}

abbrev pub empty_store : Storage
empty_store = record {
  users_by_id = [];
  username_to_id = [];
  token_to_user_id = [];
  friendships = [];
  active_sessions = [];
  messages = [];
  persist_path = [];
  rng = λ n. n;
}

-- alice is signed in under the token "t", and bob is online in session 7.
abbrev pub store : Storage
store = record empty_store {
  users_by_id = (bytes "u1", alice) ∷ (bytes "u2", bob) ∷ [];
  username_to_id = (bytes "alice", bytes "u1") ∷ (bytes "bob", bytes "u2") ∷ [];
  token_to_user_id = (bytes "t", bytes "u1") ∷ [];
  friendships = (bytes "u1", bytes "u2" ∷ []) ∷ (bytes "u2", bytes "u1" ∷ []) ∷ [];
  active_sessions = (bytes "u2", 7) ∷ [];
  messages =
      (bytes "u1:u2", message (bytes "m1") 5 ∷ message (bytes "m2") 6 ∷ message (bytes "m3") 7 ∷ [])
      ∷ [];
}

abbrev pub world_of : Storage → World
world_of s = record {
  storage = s;
  session = λ i. record { user_id = []; buffer = []; alive = true; sent = [] };
  file = none;
  clock = pos 8;
}

abbrev pub world : World
world = world_of store

abbrev pub packet : ℕ → Packet
packet type = record { type = type; seq_id = 3; payload = 1 ∷ 2 ∷ [] }
