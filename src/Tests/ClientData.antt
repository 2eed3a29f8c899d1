-- ===== src/Tests/ClientData.antt =====
-- A client with an empty connection and a database of one account and one message, and functions in
-- the place of Qt's.
use nova_chat.Prelude.{true, false, none, [], ◌∷◌, ◌++◌}
use nova_chat.Prelude.Text.{bytes, contains}
use nova_chat.Prelude.Int.{pos}
use nova_chat.Proto.{LoginResponse}
use nova_chat.Client.TcpClient.{closed}
use nova_chat.Client.App.{App, nobody}
use nova_chat.Client.Db.Tables.{Db, Message, text, sending}
use nova_chat.Client.Ui.{Qt}

abbrev pub outgoing : Message
outgoing = record {
  message_id = bytes "l1";
  conversation_id = bytes "u1:u2";
  sender_id = bytes "u1";
  content = bytes "hi";
  type = text;
  timestamp_ms = pos 5;
  status = sending;
}

abbrev pub database : Db
database = record {
  local_accounts =
      record {
        id = 1;
        server_id = bytes "u9";
        username = bytes "zed";
        display_name = bytes "Zed";
        avatar_url = [];
        token = bytes "old";
        is_active = true;
      }
      ∷ [];
  next_id = 2;
  contacts = [];
  conversations = [];
  messages = outgoing ∷ [];
}

abbrev pub app : App
app = record {
  tcp = record {
    buffer = [];
    seq_counter = 0;
    callbacks = [];
    cached_host = [];
    cached_port = 0;
    reconnect_attempt = 0;
    manual_disconnect = false;
    socket = closed;
    posted = [];
    checked = false;
    reconnect_timer = none;
    heartbeat_timer = none;
    heartbeat_interval = 30;
    sent = [];
    signals = [];
    queued = [];
  };
  db = database;
  clock = λ n. pos n;
  auth_user = record nobody { server_id = bytes "u1"; token = bytes "t" };
  current_user = record nobody { server_id = bytes "u1"; token = bytes "t" };
  contacts = [];
  conversations = [];
  local_id_counter = 0;
  events = [];
}

abbrev pub logged_in : LoginResponse
logged_in = record {
  token = bytes "t";
  user_id = bytes "u1";
  display_name = bytes "Alice";
  avatar_url = [];
}

abbrev pub test_qt : Qt
test_qt = record {
  trimmed = λ t. t;
  contains_insensitive = λ t p. contains p t;
  arg = λ f t. f ++ t;
  arg_two = λ f t u. f ++ (t ++ u);
  time_text = λ f t. f;
}
