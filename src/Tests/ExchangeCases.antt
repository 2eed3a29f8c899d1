-- ===== src/Tests/ExchangeCases.antt =====
-- A message between the two users, and the pages of their conversation.
use nova_chat.Prelude.{some, ◌≡◌, refl, true, false, none, List, [], ◌∷◌, ◌++◌, arith}
use nova_chat.Prelude.Text.{bytes, text_eq}
use nova_chat.Prelude.Int.{pos}
use nova_chat.Codec.{encode}
use nova_chat.Codec.Frame.{IsPacket}
use nova_chat.Proto.{Wire}
use nova_chat.Server.Hex.{generate_hex, hex_byte}
use nova_chat.Server.Storage.{MsgRecord, conversation, save_message}
use nova_chat.Server.ChatHandler.{to_message_info}
use nova_chat.Server.Delivery.{stored_message, push_packet}
use nova_chat.Client.TcpClient.{on_connection_lost, find_callback, packet_received}
use nova_chat.Client.Requests.{IsPending}
use nova_chat.Client.Db.Tables.{exists_where, insert_or_ignore}
use nova_chat.Client.Db.Messages
use nova_chat.Client.Db.Conversations
use nova_chat.Client.Db.Messages.{has_id}
use nova_chat.Client.App.{message_received, request, to_string}
use nova_chat.Client.ChatService.{local_message, local_id, send_message, from_info, take_push}
use nova_chat.Client.EventLoop.{client_reads}
use nova_chat.Client.Start.{Desktop}
use nova_chat.Client.Lost.{lost_message}
use nova_chat.Client.Inbox.{take_push_lem}
use nova_chat.Exchange.Request.{request_of, request_packet}
use nova_chat.Exchange.Message.{answer_of, message_confirmed}
use nova_chat.Exchange.Push.{push_arrives}
use nova_chat.Server.Storage.{returned}
use nova_chat.Server.World.{World}
use nova_chat.Server.ChatHandler
use nova_chat.Server.ChatHandler.{on_send_message}
use nova_chat.Server.Dispatch.{dispatch, on_read}
use nova_chat.Server.Process.{has_read, waited, done, more}
use nova_chat.Server.Runs.{Run-Grown}
use nova_chat.Exchange.Reads.{on_read-encode}
use nova_chat.Tests.Data.{constant, test_wire, test_json, world, store, alice, message}
use nova_chat.Tests.ClientData.{app, test_qt}
use nova_chat.Tests.ServerCases.{alice_signed_in}

-- formats that parse to what this message needs
abbrev kept : MsgRecord
kept = stored_message world alice (request_of app (bytes "u2") (bytes "hi"))

abbrev exchange_wire : Wire
exchange_wire = record test_wire {
  send_message_request_format = constant (request_of app (bytes "u2") (bytes "hi"));
  send_message_response_format =
      constant (answer_of kept (local_message (bytes "u2") (bytes "hi") app).message_id);
}

app-IsPending : IsPending app.tcp.callbacks app.tcp.seq_counter
unfolding find_callback
app-IsPending k cb h = cc

asked-IsPacket : IsPacket (request_packet exchange_wire app (bytes "u2") (bytes "hi"))
asked-IsPacket = record {
  type_fits = omega arith;
  seq_fits = omega arith;
  payload_fits = omega arith;
}

local_id_free :
    exists_where (has_id (local_message (bytes "u2") (bytes "hi") app).message_id) app.db.messages
    ≡ false
unfolding exists_where local_message local_id to_string text_eq
local_id_free = refl

server_id_free :
    exists_where
      (has_id kept.message_id)
      (send_message exchange_wire (bytes "u2") (bytes "hi") app).db.messages
    ≡ false
unfolding exists_where send_message request Messages.save Conversations.save_or_update local_id
    to_string text_eq save_message insert_or_ignore generate_hex hex_byte
server_id_free = refl

message_confirmed_example :
    (send_message exchange_wire (bytes "u2") (bytes "hi") app).tcp.sent
    ≡ [] ++ encode (request_packet exchange_wire app (bytes "u2") (bytes "hi")) ∷ []
message_confirmed_example =
    (message_confirmed exchange_wire test_json 4 world app (bytes "u2") (bytes "hi") alice refl refl
      app-IsPending refl alice_signed_in refl refl asked-IsPacket
      (record { type_fits = omega arith; seq_fits = omega arith; payload_fits = omega arith })
      local_id_free server_id_free).0

abbrev from_bob : MsgRecord
from_bob = record (message (bytes "m9") 9) { sender_id = bytes "u2"; content = bytes "yo" }

abbrev push_wire : Wire
push_wire = record test_wire { message_push_format = constant (to_message_info from_bob) }

m9_free : exists_where (has_id (bytes "m9")) app.db.messages ≡ false
unfolding exists_where text_eq
m9_free = refl

push_arrives_example :
    (client_reads (encode (push_packet push_wire from_bob)) app).tcp.signals
    ≡ [] ++ packet_received (push_packet push_wire from_bob) ∷ []
push_arrives_example =
    (push_arrives push_wire from_bob app refl app-IsPending refl
      (record { type_fits = omega arith; seq_fits = omega arith; payload_fits = omega arith })
      m9_free).0

take_push_lem_example :
    (take_push test_wire (to_message_info from_bob) app).events
    ≡ [] ++ message_received (from_info (to_message_info from_bob)) ∷ []
unfolding to_message_info
take_push_lem_example = (take_push_lem test_wire (to_message_info from_bob) app m9_free).1

-- the server after it has read the request
abbrev answering : World
answering =
    on_send_message exchange_wire 4 (request_packet exchange_wire app (bytes "u2") (bytes "hi"))
      world

request_read :
    on_read exchange_wire test_json 4
      (some (encode (request_packet exchange_wire app (bytes "u2") (bytes "hi"))))
      world
    ≡ returned answering
unfolding dispatch ChatHandler.handle
request_read = on_read-encode exchange_wire test_json 4 _ world refl asked-IsPacket

Run-Grown_example :
    (added : List MsgRecord) × (conversation answering.storage (bytes "u1:u2")
      ≡ conversation store (bytes "u1:u2") ++ added)
Run-Grown_example =
    Run-Grown exchange_wire test_json world (record answering { clock = pos 9 })
      (more (has_read 4 (some _) refl request_read) (more (waited (pos 9)) done)) (bytes "u1:u2")

-- the main window's process, for the message that is lost
abbrev launched_desktop : Desktop
launched_desktop = record {
  app = app;
  login = none;
  opens_main = false;
  main = none;
  launched = true;
}

lost_message_example :
    (on_connection_lost (send_message test_wire (bytes "u2") (bytes "hi") app).tcp).reconnect_timer
    ≡ some 2
lost_message_example =
    (lost_message test_qt test_wire launched_desktop (bytes "u2") (bytes "hi") refl refl refl refl
      local_id_free).0
