-- ===== src/Tests/ClientCases.antt =====
-- The client: connection, requests, the account and messages.
use nova_chat.Prelude.{if◌then◌else◌, ℕ, ◌≡◌, refl, false, none, some, [], ◌∷◌, ◌++◌, arith}
use nova_chat.Prelude.Text.{Text, contains, starts_with, bytes, text_eq}
use nova_chat.Prelude.Int.{pos}
use nova_chat.MessageType.{login_response}
use nova_chat.Client.TcpClient.{
  TcpClient, disconnected, reconnecting, connection_failed, find_callback, connect_failed,
  connecting, closed,
}
use nova_chat.Client.Connection.{fail_times, fail_times_give_up}
use nova_chat.Client.Chunks.{reads}
use nova_chat.Client.Answers.{given, reads-given}
use nova_chat.Codec.{Packet}
use nova_chat.Codec.Frame.{IsPacket}
use nova_chat.Codec.Stream.{encode_all}
use nova_chat.Prelude.{ap, ◌∙◌, ◌<◌, ◌^◌, take, drop, append-nil, take-append-drop}
use nova_chat.Client.Db.Tables.{Contact, Db}
use nova_chat.Client.Db.Contacts
use nova_chat.Client.Db.Contacts.Sync.{last_or, find_by_id-replace_all}
use nova_chat.Client.Db.Messages
use nova_chat.Client.Db.Messages.{find_by_conversation}
use nova_chat.Client.Db.Messages.Page.{is_eligible, time, find_by_conversation_lem}
use nova_chat.Client.Db.Tables.Order.{IsFalling}
use nova_chat.Client.Db.Tables.{Message}
use nova_chat.Client.Db.Statements.{
  Statement, save_message, confirm_sent, execute, execute_all, create_schema,
}
use nova_chat.Client.Db.Keys.{IsKeyed, execute_all-IsKeyed}
use nova_chat.Prelude.{filter, length, min}
use mathlib.Core.List.{List, Perm, reverse}
use nova_chat.Tests.ClientData.{database, outgoing}
use nova_chat.Tests.Data.{packet}

abbrev client : TcpClient ℕ
client = record {
  buffer = [];
  seq_counter = 3;
  callbacks = (3, 30) ∷ (2, 20) ∷ [];
  cached_host = bytes "h";
  cached_port = 9000;
  reconnect_attempt = 0;
  manual_disconnect = false;
  socket = connecting;
  posted = [];
  checked = false;
  reconnect_timer = none;
  heartbeat_timer = none;
  heartbeat_interval = 30;
  sent = [];
  signals = [];
  queued = [];
}

fail_times_give_up_example :
    (u : TcpClient ℕ) × (fail_times 8 client ≡ some (2 ∷ 4 ∷ 8 ∷ 16 ∷ 32 ∷ 60 ∷ 60 ∷ 60 ∷ [], u))
    × (u.socket ≡ connecting)
    × ((connect_failed u).signals
        ≡ client.signals
          ++ disconnected
            ∷ reconnecting 1 2
            ∷ disconnected
            ∷ reconnecting 2 4
            ∷ disconnected
            ∷ reconnecting 3 8
            ∷ disconnected
            ∷ reconnecting 4 16
            ∷ disconnected
            ∷ reconnecting 5 32
            ∷ disconnected
            ∷ reconnecting 6 60
            ∷ disconnected
            ∷ reconnecting 7 60
            ∷ disconnected
            ∷ reconnecting 8 60
            ∷ disconnected
            ∷ connection_failed
            ∷ [])
    × ((connect_failed u).reconnect_timer ≡ none)
    × ((connect_failed u).posted ≡ [])
    × ((connect_failed u).socket ≡ closed)
fail_times_give_up_example = fail_times_give_up client refl refl refl refl refl

-- the answers to the requests 3 and 2, and a push between them, cut behind the fifth byte
abbrev answers : List Packet
answers =
    record (packet login_response) { seq_id = 3 }
    ∷ record (packet login_response) { seq_id = 0 }
    ∷ record (packet login_response) { seq_id = 2 }
    ∷ []

answer_fits : (n : ℕ) → n < 2 ^ 32 → IsPacket (record (packet login_response) { seq_id = n })
answer_fits n h = record { type_fits = omega arith; seq_fits = h; payload_fits = omega arith }

reads-given_example :
    (given 2 (reads (take 5 (encode_all answers) ∷ drop 5 (encode_all answers) ∷ []) client).queued
      ≡ [] ++ (20, record (packet login_response) { seq_id = 2 }) ∷ [])
    × (find_callback
          (reads (take 5 (encode_all answers) ∷ drop 5 (encode_all answers) ∷ []) client).callbacks
          2
        ≡ none)
unfolding find_callback
reads-given_example =
    reads-given answers (take 5 (encode_all answers) ∷ drop 5 (encode_all answers) ∷ []) client 2
      refl
      (
        answer_fits 3 (omega arith),
        (answer_fits 0 (omega arith), (answer_fits 2 (omega arith), tt)),
      )
      (ap (λ r. take 5 (encode_all answers) ++ r) (append-nil (drop 5 (encode_all answers)))
        ∙ take-append-drop 5 (encode_all answers))

abbrev statements : List Statement
statements = save_message outgoing ∷ confirm_sent (bytes "l1") (bytes "m1") (pos 6) ∷ []

abbrev executed : Db
executed =
    Messages.confirm_sent (bytes "l1") (bytes "m1") (pos 6) (Messages.save outgoing create_schema)

is_executed : execute_all statements create_schema ≡ some executed
unfolding execute_all execute
is_executed = refl

execute_all-IsKeyed_example : IsKeyed executed
execute_all-IsKeyed_example = execute_all-IsKeyed statements executed is_executed

find_by_conversation_lem_example :
    (older : List Message) × IsFalling time
      (reverse (find_by_conversation (bytes "u1:u2") (pos 7) 1 database) ++ older)
    × Perm
        (reverse (find_by_conversation (bytes "u1:u2") (pos 7) 1 database) ++ older)
        (filter (is_eligible (bytes "u1:u2") (pos 7)) database.messages)
    × (length (find_by_conversation (bytes "u1:u2") (pos 7) 1 database)
        ≡ min 1 (length (filter (is_eligible (bytes "u1:u2") (pos 7)) database.messages)))
find_by_conversation_lem_example = find_by_conversation_lem (bytes "u1:u2") (pos 7) 1 database

abbrev bob_contact : Contact
bob_contact = record {
  user_id = bytes "u2";
  owner_id = bytes "u1";
  username = bytes "bob";
  display_name = bytes "Bob";
  avatar_url = [];
}

no_quote : contains (bytes "'") (bytes "u1") ≡ false
unfolding contains starts_with
no_quote = refl

find_by_id-replace_all_example :
    (db : Db) × (Contacts.replace_all (bytes "u1") (bob_contact ∷ []) database ≡ some db)
    × ((o u : Text)
        → Contacts.find_by_id o u db
          ≡ last_or
              (bob_contact ∷ [])
              o
              u
              (if text_eq o (bytes "u1") then none else Contacts.find_by_id o u database))
find_by_id-replace_all_example =
    find_by_id-replace_all (bytes "u1") (bob_contact ∷ []) database no_quote
