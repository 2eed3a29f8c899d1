-- ===== src/Client/ChatService.antt =====
-- client/src/service/ChatService.cpp
use nova_chat.Prelude.{
  ℕ, ◌+◌, ◌%◌, ◌^◌, none, some, List, [], ◌∷◌, ◌++◌, ◌==◌, ltb, if◌then◌else◌, map, length, take,
}
use nova_chat.Prelude.Text.{Text, bytes, text_lt}
use nova_chat.Prelude.Int.{ℤ, pos}
use nova_chat.MessageType.{
  send_message_request, send_message_response, message_push, get_history_request,
  get_history_response, get_conversations_request, get_conversations_response, error_response,
}
use nova_chat.Codec.{Packet}
use nova_chat.Proto.{Wire, MessageInfo, ConversationInfo}
use nova_chat.Client.Db.Tables.{Db, Conversation, Message, sending, sent, failed, text}
use nova_chat.Client.Db.Messages
use nova_chat.Client.Db.Conversations
use nova_chat.Client.App.{
  App, User, on_message_sent, on_history, on_conversations, message_sent, message_failed,
  message_received, history_loaded, conversations_loaded, emit, with_db, request,
  check_auth_expired, to_string,
}

unfoldable pub make_conv_id : Text → Text → Text
make_conv_id a b = if text_lt a b then a ++ (bytes ":" ++ b) else b ++ (bytes ":" ++ a)

unfoldable pub preview : Text → Text
preview content = if ltb 50 (length content) then take 50 content ++ bytes "..." else content

-- "local_" + std::to_string(++local_id_counter_) + "_" + std::to_string(nowMs())
unfoldable pub local_id : ℕ → ℤ → Text
local_id counter now = bytes "local_" ++ (to_string (pos counter) ++ (bytes "_" ++ to_string now))

unfoldable pub from_info : MessageInfo → Message
from_info m = record {
  message_id = m.message_id;
  conversation_id = m.conversation_id;
  sender_id = m.sender_id;
  content = m.content;
  type = text;
  timestamp_ms = m.timestamp_ms;
  status = sent;
}

unfoldable pub from_conversation_info : Text → ConversationInfo → Conversation
from_conversation_info owner_id c = record {
  conversation_id = c.conversation_id;
  owner_id = owner_id;
  target_id = c.peer_user_id;
  last_message_preview = c.last_message_preview;
  last_message_time = c.last_message_time;
  unread_count = 0;
}

-- the loops of the two lambdas over a response
unfoldable pub save_messages : List Message → Db → Db
save_messages [] db = db
save_messages (m ∷ ms) db = save_messages ms (Messages.save m db)

unfoldable pub save_conversations : List Conversation → Db → Db
save_conversations [] db = db
save_conversations (c ∷ cs) db = save_conversations cs (Conversations.save_or_update c db)

-- The row that sendMessage writes before anything is sent.
unfoldable pub local_message : Text → Text → App → Message
local_message receiver_id content a = record {
  message_id = local_id ((a.local_id_counter + 1) % 2 ^ 64) (a.clock 0);
  conversation_id = make_conv_id a.current_user.server_id receiver_id;
  sender_id = a.current_user.server_id;
  content = content;
  type = text;
  timestamp_ms = a.clock 1;
  status = sending;
}

-- the constructor: the list is that of the last time
unfoldable pub new_service : User → App → App
new_service user a = record a {
  current_user = user;
  conversations = Conversations.find_all user.server_id a.db;
  local_id_counter = 0;
}

module _ (wire : Wire) where
  unfoldable pub send_message : Text → Text → App → App
  unfolding local_message
  send_message receiver_id content a =
      let msg = local_message receiver_id content a in
      let conv : Conversation = record {
        conversation_id = msg.conversation_id;
        owner_id = a.current_user.server_id;
        target_id = receiver_id;
        last_message_preview = preview content;
        last_message_time = msg.timestamp_ms;
        unread_count = 0;
      } in
      request send_message_request
        (wire.send_message_request_format.serialize (record {
          token = a.current_user.token;
          local_msg_id = msg.message_id;
          receiver_id = receiver_id;
          content = content;
        }))
        (on_message_sent msg.message_id)
        (emit
          (record a {
            db = Conversations.save_or_update conv (Messages.save msg a.db);
            clock = λ n. a.clock (n + 2);
            local_id_counter = (a.local_id_counter + 1) % 2 ^ 64;
          })
          (message_sent msg))

  -- the lambda of sendMessage
  unfoldable pub message_answered : Text → Packet → App → App
  message_answered id resp a =
      if resp.type == send_message_response
      then elim (wire.send_message_response_format.parse resp.payload) [
        | none ↦ a
        | some r ↦ with_db a (Messages.confirm_sent id r.server_msg_id r.timestamp_ms a.db)
      ]
      else if resp.type == error_response
      then check_auth_expired (wire.error_content resp.payload)
          (emit (with_db a (Messages.update_status id failed a.db)) (message_failed id))
      else a

  unfoldable pub load_history : Text → ℤ → App → App
  load_history conv_id before_ts a =
      request get_history_request
        (wire.get_history_request_format.serialize (record {
          token = a.current_user.token;
          conversation_id = conv_id;
          before_timestamp = before_ts;
          limit = pos 50;
        }))
        (on_history conv_id) a

  -- the lambda of loadHistory
  unfoldable pub history_answered : Text → Packet → App → App
  history_answered conv_id resp a =
      if resp.type == get_history_response
      then elim (wire.get_history_response_format.parse resp.payload) [
        | none ↦ a
        | some r ↦
            (let msgs = map from_info r.messages in
              emit (with_db a (save_messages msgs a.db)) (history_loaded conv_id msgs r.has_more))
      ]
      else a

  unfoldable pub sync_conversations : App → App
  sync_conversations a =
      request get_conversations_request
        (wire.get_conversations_request_format.serialize (record { token = a.current_user.token }))
        on_conversations a

  -- conversations_ is read again from the database
  unfoldable pub refresh_conversations : App → App
  refresh_conversations a = record a {
    conversations = Conversations.find_all a.current_user.server_id a.db;
  }

  -- the lambda of syncConversations
  unfoldable pub conversations_answered : Packet → App → App
  unfolding refresh_conversations
  conversations_answered resp a =
      if resp.type == get_conversations_response
      then elim (wire.get_conversations_response_format.parse resp.payload) [
        | none ↦ a
        | some infos ↦
            (let stored = refresh_conversations (
                with_db a (
                  save_conversations (map (from_conversation_info a.current_user.server_id) infos)
                    a.db)) in
              emit stored (conversations_loaded stored.conversations))
      ]
      else a

  unfoldable pub clear_unread : Text → App → App
  clear_unread conv_id a =
      with_db a (Conversations.clear_unread a.current_user.server_id conv_id a.db)

  unfoldable pub take_push : MessageInfo → App → App
  take_push push a =
      let msg = from_info push in
      let owner = a.current_user.server_id in
      emit
        (refresh_conversations (
          with_db a (
            Conversations.increment_unread owner msg.conversation_id (
              Conversations.update_last_message owner msg.conversation_id msg.content
                msg.timestamp_ms (Messages.save msg a.db)))))
        (message_received msg)

  unfoldable pub handle_message_push : Packet → App → App
  handle_message_push pkt a = elim (wire.message_push_format.parse pkt.payload) [
    | none ↦ a
    | some push ↦ take_push push a
  ]

  unfoldable pub on_packet_received : Packet → App → App
  on_packet_received pkt a = if pkt.type == message_push then handle_message_push pkt a else a
