-- ===== src/Exchange/Message.antt =====
-- A message from one client through the server to another: send_message, of Exchange/Request, then
-- the server's read and the reads of the two clients.
use nova_chat.Prelude.{ℕ, ◌+◌, ◌^◌, ◌<◌, ◌≡◌, refl, ◌∙◌, false, some, [], ◌∷◌, ◌++◌}
use nova_chat.Prelude.Text.{Text, text_eq_refl}
use nova_chat.MessageType.{send_message_response}
use nova_chat.Codec.{Packet, encode}
use nova_chat.Codec.Frame.{IsPacket}
use nova_chat.Proto.{Wire, SendMessageResponse}
use nova_chat.Server.Storage.{
  UserRecord, MsgRecord, returned, find_by_token, conversation, find_session,
}
use nova_chat.Server.Persist.{JsonLib}
use nova_chat.Server.World.{World}
use nova_chat.Server.ChatHandler
use nova_chat.Server.ChatHandler.{to_message_info}
use nova_chat.Server.Dispatch.{dispatch, on_read}
use nova_chat.Server.Delivery.{
  stored_message, answer_packet, push_packet, sent_to, sent-on_send_message,
  conversation-on_send_message,
}
use nova_chat.Client.Requests.{IsPending}
use nova_chat.Client.Db.Tables.{Message, exists_where, sent}
use nova_chat.Client.Db.Messages
use nova_chat.Client.Db.Messages.{has_id}
use nova_chat.Client.App.{App, on_message_sent}
use nova_chat.Client.ChatService.{local_message, send_message, message_answered}
use nova_chat.Client.EventLoop.{run_callback, run_next, client_reads}
use nova_chat.Client.Outbox.{confirm_sent-found}
use nova_chat.Exchange.Reads.{on_read-encode, taken, run_next-answer}
use nova_chat.Exchange.Request.{request_of, request_packet, sent_there, waiting, written, unread}

module _ (wire : Wire) (json : JsonLib) (i : ℕ) (w : World) (a : App) (receiver_id content : Text)
    (sender : UserRecord) where
  abbrev pub stored : MsgRecord
  stored = stored_message w sender (request_of a receiver_id content)

  abbrev pub the_request : Packet
  the_request = request_packet wire a receiver_id content

  abbrev pub the_answer : Packet
  the_answer = answer_packet wire the_request (request_of a receiver_id content) stored

  -- what the server is, before and after it reads the request
  module _ (quiet : (w.session i).buffer ≡ []) (fits : IsPacket the_request)
      (reads : wire.send_message_request_format.parse the_request.payload
        ≡ some (request_of a receiver_id content))
      (valid : find_by_token w.storage a.current_user.token ≡ some sender) where
    served :
        on_read wire json i (some (encode the_request)) w
        ≡ returned (ChatHandler.on_send_message wire i the_request w)
    unfolding dispatch ChatHandler.handle
    served = on_read-encode wire json i the_request w quiet fits

    stored_there :
        conversation
          (ChatHandler.on_send_message wire i the_request w).storage
          stored.conversation_id
        ≡ conversation w.storage stored.conversation_id ++ stored ∷ []
    stored_there =
        conversation-on_send_message wire i the_request w (request_of a receiver_id content) sender
          reads valid stored.conversation_id
        ∙ rw (text_eq_refl stored.conversation_id) refl

    answered :
        (j : ℕ)
        → ((ChatHandler.on_send_message wire i the_request w).session j).sent
          ≡ (w.session j).sent
            ++ sent_to i
                (find_session (λ k. (w.session k).alive) w.storage receiver_id)
                (encode the_answer)
                (encode (push_packet wire stored))
                j
    answered j =
        sent-on_send_message wire i the_request w (request_of a receiver_id content) sender reads
          valid j

-- What the answer carries.
abbrev pub answer_of : MsgRecord → Text → SendMessageResponse
answer_of msg local_id = record {
  local_msg_id = local_id;
  server_msg_id = msg.message_id;
  conversation_id = msg.conversation_id;
  timestamp_ms = msg.timestamp_ms;
}

confirms :
    (wire : Wire) (id : Text) (p : Packet) (r : SendMessageResponse) (m : Message) (a : App)
    → p.type ≡ send_message_response
    → wire.send_message_response_format.parse p.payload ≡ some r
    → Messages.find_by_id id a.db ≡ some m
    → exists_where (has_id r.server_msg_id) a.db.messages ≡ false
    → (a' : App) × (run_callback wire (on_message_sent id) p a ≡ some a')
      × (Messages.find_by_id r.server_msg_id a'.db
          ≡ some (record m {
            message_id = r.server_msg_id;
            timestamp_ms = r.timestamp_ms;
            status = sent;
          }))
unfolding run_callback message_answered
confirms wire id p r m a t reads found new = (
  record a { db = Messages.confirm_sent id r.server_msg_id r.timestamp_ms a.db },
  rw t (rw (reads, message_answered) refl),
  confirm_sent-found id r.server_msg_id r.timestamp_ms a.db m found new,
)

-- A message makes its way. The client writes it under a local id and sends a request; the session
-- that reads the request stores the message at the end of its conversation, answers, and pushes the
-- message to the session where the receiver is online, if there is one; and when
-- the client reads the answer, the message is found under the server's id, with the server's time and
-- status Sent. The conditions: client and session have nothing half read, and the client no callback
-- posted; its sequence numbers are in order; the token is valid; the messages of the two packets are
-- parsed as they were serialized, and fit their frames; and both ids of the message are new to the
-- client.
pub message_confirmed :
    (wire : Wire) (json : JsonLib) (i : ℕ) (w : World) (a : App) (receiver_id content : Text)
    (sender : UserRecord)
    → let request : Packet = request_packet wire a receiver_id content in
      let msg : Message = local_message receiver_id content a in
      let stored : MsgRecord = stored_message w sender (request_of a receiver_id content) in
      let answer : Packet = answer_packet wire request (request_of a receiver_id content) stored in
      let a' : App = send_message wire receiver_id content a in
      (a.tcp.buffer ≡ [])
      → (a.tcp.queued ≡ [])
      → IsPending a.tcp.callbacks a.tcp.seq_counter
      → ((w.session i).buffer ≡ [])
      → find_by_token w.storage a.current_user.token ≡ some sender
      → wire.send_message_request_format.parse request.payload
        ≡ some (request_of a receiver_id content)
      → wire.send_message_response_format.parse answer.payload
        ≡ some (answer_of stored msg.message_id)
      → IsPacket request
      → IsPacket answer
      → exists_where (has_id msg.message_id) a.db.messages ≡ false
      → exists_where (has_id stored.message_id) a'.db.messages ≡ false
      → (a'.tcp.sent ≡ a.tcp.sent ++ encode request ∷ [])
        × (w' : World) × (on_read wire json i (some (encode request)) w ≡ returned w')
        × (conversation w'.storage stored.conversation_id
            ≡ conversation w.storage stored.conversation_id ++ stored ∷ [])
        × ((j : ℕ)
            → (w'.session j).sent
              ≡ (w.session j).sent
                ++ sent_to i
                    (find_session (λ k. (w.session k).alive) w.storage receiver_id)
                    (encode answer)
                    (encode (push_packet wire stored))
                    j)
        × (a'' : App) × (run_next wire (client_reads (encode answer) a') ≡ some a'')
        × (Messages.find_by_id stored.message_id a''.db
            ≡ some (record msg {
              message_id = stored.message_id;
              timestamp_ms = stored.timestamp_ms;
              status = sent;
            }))
message_confirmed wire json i w a receiver_id content sender quiet idle pending still valid
      request_reads answer_reads request_fits answer_fits new_here new_there =
    let request : Packet = request_packet wire a receiver_id content in
    let msg : Message = local_message receiver_id content a in
    let stored : MsgRecord = stored_message w sender (request_of a receiver_id content) in
    let answer : Packet = answer_packet wire request (request_of a receiver_id content) stored in
    let a' : App = send_message wire receiver_id content a in
    let in_range : a.tcp.seq_counter + 1 < 2 ^ 32 = request_fits.seq_fits in
    let (q, c) = unread wire a receiver_id content in
    let (a'', ran, found) =
      confirms wire msg.message_id answer (answer_of stored msg.message_id) msg (taken answer a')
        refl answer_reads (written wire a receiver_id content new_here) new_there in
    (
      sent_there wire a receiver_id content pending in_range,
      ChatHandler.on_send_message wire i request w,
      served wire json i w a receiver_id content sender still request_fits request_reads valid,
      stored_there wire json i w a receiver_id content sender still request_fits request_reads
          valid,
      answered wire json i w a receiver_id content sender still request_fits request_reads valid,
      a'',
      run_next-answer wire answer (on_message_sent msg.message_id) a' (q ∙ quiet) (c ∙ idle)
            answer_fits (waiting wire a receiver_id content pending in_range)
          ∙ ran,
      found,
    )
