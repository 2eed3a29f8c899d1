-- ===== src/Exchange/Request.antt =====
-- What client/src/services/ChatService.cpp sends for a message, and what the client is before and
-- after it (sendMessage, sendRequest).
use nova_chat.Prelude.{
  ◌+◌, ◌%◌, ◌^◌, ◌<◌, ◌≡◌, refl, ◌∙◌, false, some, [], ◌∷◌, ◌++◌, arith, eqb_refl,
}
use nova_chat.Prelude.Text.{Text}
use nova_chat.MessageType.{send_message_request}
use nova_chat.Codec.{Packet, encode}
use nova_chat.Proto.{Wire, SendMessageRequest}
use nova_chat.Client.TcpClient.{
  TcpClient, find_callback, handle_packet, next_seq_id, send_request, packet_received,
}
use nova_chat.Client.TcpClient
use nova_chat.Client.Requests.{IsPending, send_request-IsPending}
use nova_chat.Client.Db.Tables.{exists_where}
use nova_chat.Client.Db.Conversations
use nova_chat.Client.Db.Messages.Saved.{find_by_id-save}
use nova_chat.Client.Db.Messages
use nova_chat.Client.Db.Messages.{has_id}
use nova_chat.Client.App.{App, on_message_sent, request}
use nova_chat.Client.ChatService.{local_message, send_message}

-- The request that sendMessage makes, and the packet that carries it.
abbrev pub request_of : App → Text → Text → SendMessageRequest
request_of a receiver_id content = record {
  token = a.current_user.token;
  local_msg_id = (local_message receiver_id content a).message_id;
  receiver_id = receiver_id;
  content = content;
}

abbrev pub request_packet : Wire → App → Text → Text → Packet
request_packet wire a receiver_id content = record {
  type = send_message_request;
  seq_id = a.tcp.seq_counter + 1;
  payload = wire.send_message_request_format.serialize (request_of a receiver_id content);
}

-- What the client is, before and after it sends the message.
module _ (wire : Wire) (a : App) (receiver_id content : Text)
    (pending : IsPending a.tcp.callbacks a.tcp.seq_counter)
    (in_range : a.tcp.seq_counter + 1 < 2 ^ 32) where
  pub sent_there :
      (send_message wire receiver_id content a).tcp.sent
      ≡ a.tcp.sent ++ encode (request_packet wire a receiver_id content) ∷ []
  unfolding send_message request send_request next_seq_id TcpClient.send_packet
  sent_there =
      let e : (a.tcp.seq_counter + 1) % 2 ^ 32 ≡ a.tcp.seq_counter + 1 = omega arith in rw e refl

  pub waiting :
      find_callback (send_message wire receiver_id content a).tcp.callbacks (a.tcp.seq_counter + 1)
      ≡ some (on_message_sent (local_message receiver_id content a).message_id)
  unfolding send_message request local_message
  waiting =
      let r =
        send_request-IsPending (record (request_packet wire a receiver_id content) { seq_id = 0 })
          (on_message_sent (local_message receiver_id content a).message_id) a.tcp in_range
          pending in
      r.3 (a.tcp.seq_counter + 1) ∙ rw r.0 (rw (eqb_refl (a.tcp.seq_counter + 1)) refl)

-- The client's tables after it wrote the message, and what else it leaves alone.
module _ (wire : Wire) (a : App) (receiver_id content : Text) where
  pub written :
      exists_where (has_id (local_message receiver_id content a).message_id) a.db.messages ≡ false
      → Messages.find_by_id
          (local_message receiver_id content a).message_id
          (send_message wire receiver_id content a).db
        ≡ some (local_message receiver_id content a)
  unfolding send_message request Messages.save Messages.find_by_id Conversations.save_or_update
  written new = find_by_id-save (local_message receiver_id content a) a.db new

  pub unread :
      ((send_message wire receiver_id content a).tcp.buffer ≡ a.tcp.buffer)
      × ((send_message wire receiver_id content a).tcp.queued ≡ a.tcp.queued)
  unfolding send_message request send_request next_seq_id TcpClient.send_packet
  unread = (refl, refl)
