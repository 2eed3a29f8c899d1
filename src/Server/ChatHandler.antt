-- ===== src/Server/ChatHandler.antt =====
-- server/src/handler/ChatHandler.h and ChatHandler.cpp: messages, history and conversations. What
-- the log is given is left out; nowMs is the world's clock.
use nova_chat.Prelude.{
  ℕ, suc, Option, none, some, ◌==◌, ltb, if◌then◌else◌, [], ◌∷◌, ◌++◌, map, length, take, drop,
}
use nova_chat.Prelude.Text.{Text, bytes, text_eq, text_lt}
use nova_chat.Prelude.Int.{ℤ, pos, lt_int, eq_int}
use nova_chat.MessageType.{
  send_message_request, send_message_response, message_push, get_history_request,
  get_history_response, get_conversations_request, get_conversations_response, error_response,
}
use nova_chat.Codec.{Packet}
use nova_chat.Proto.{
  Wire, MessageInfo, SendMessageRequest, GetHistoryRequest, ConversationInfo, unknown_error,
  auth_expired,
}
use nova_chat.Server.Storage.{
  UserRecord, MsgRecord, find_by_token, find_session, save_message, get_history,
  get_latest_messages,
}
use nova_chat.Server.World.{World, send_packet, with_storage}

unfoldable pub make_conv_id : Text → Text → Text
make_conv_id a b = if text_lt a b then a ++ (bytes ":" ++ b) else b ++ (bytes ":" ++ a)

-- std::clamp
unfoldable pub clamp : ℤ → ℤ → ℤ → ℤ
clamp v lo hi = if lt_int v lo then lo else if lt_int hi v then hi else v

unfoldable pub to_message_info : MsgRecord → MessageInfo
to_message_info m = record {
  message_id = m.message_id;
  conversation_id = m.conversation_id;
  sender_id = m.sender_id;
  content = m.content;
  timestamp_ms = m.timestamp_ms;
}

-- id.find(':'), `none` being npos
unfoldable pub find_colon : Text → Option ℕ
find_colon [] = none
find_colon (c ∷ s) =
    let later : Option ℕ = elim (find_colon s) [ none ↦ none | some n ↦ some (suc n) ] in
    if c == b':' then some 0 else later

-- substr(0, npos) is the whole text, and so is substr(npos + 1), which wraps to substr(0)
unfoldable pub id_parts : Text → Text × Text
id_parts id = elim (find_colon id) [
  | none ↦ (id, id)
  | some colon ↦ (take colon id, drop (suc colon) id)
]

unfoldable pub peer_of : Text → Text → Text
peer_of user_id conv_id =
    let (id_a, id_b) = id_parts conv_id in if text_eq id_a user_id then id_b else id_a

unfoldable pub preview : Text → Text
preview content = if ltb 50 (length content) then take 50 content ++ bytes "..." else content

unfoldable pub to_conversation_info : Text → MsgRecord → ConversationInfo
to_conversation_info user_id m = record {
  conversation_id = m.conversation_id;
  peer_user_id = peer_of user_id m.conversation_id;
  last_message_preview = preview m.content;
  last_message_time = m.timestamp_ms;
}

module _ (wire : Wire) where
  unfoldable pub send_error : ℕ → ℕ → ℕ → Text → World → World
  send_error session seq_id code msg w = send_packet w session (record {
    type = error_response;
    seq_id = seq_id;
    payload = wire.error_format.serialize (record { code = code; message = msg });
  })

  -- the user, and the world in which the error of a bad token has been sent
  unfoldable pub validate_token : ℕ → Text → ℕ → World → Option UserRecord × World
  validate_token session token seq_id w = elim (find_by_token w.storage token) [
    | none ↦ (none, send_error session seq_id auth_expired (bytes "Token invalid") w)
    | some user ↦ (some user, w)
  ]

  -- the early return behind validateToken
  abbrev pub if_valid : Option UserRecord × World → (UserRecord → World → World) → World
  if_valid (none, w) k = w
  if_valid (some user, w) k = k user w

  unfoldable pub push_to : Option ℕ → MessageInfo → World → World
  push_to none push w = w
  push_to (some receiver) push w = send_packet w receiver (record {
    type = message_push;
    seq_id = 0;
    payload = wire.message_push_format.serialize push;
  })

  unfoldable pub deliver : ℕ → Packet → SendMessageRequest → UserRecord → World → World
  unfolding push_to
  deliver session pkt req sender w =
      let conv_id = make_conv_id sender.user_id req.receiver_id in
      let ts = w.clock in
      let (server_id, s) = save_message w.storage (record {
        message_id = [];
        conversation_id = conv_id;
        sender_id = sender.user_id;
        content = req.content;
        timestamp_ms = ts;
      }) in
      let w' = send_packet (with_storage w s) session (record {
        type = send_message_response;
        seq_id = pkt.seq_id;
        payload = wire.send_message_response_format.serialize (record {
          local_msg_id = req.local_msg_id;
          server_msg_id = server_id;
          conversation_id = conv_id;
          timestamp_ms = ts;
        });
      }) in
      push_to (find_session (λ i. (w'.session i).alive) w'.storage req.receiver_id)
        (record {
          message_id = server_id;
          conversation_id = conv_id;
          sender_id = sender.user_id;
          content = req.content;
          timestamp_ms = ts;
        })
        w'

  unfoldable pub on_send_message : ℕ → Packet → World → World
  on_send_message session pkt w = elim (wire.send_message_request_format.parse pkt.payload) [
    | none ↦ send_error session pkt.seq_id unknown_error (bytes "parse error") w
    | some req ↦ if_valid (validate_token session req.token pkt.seq_id w) (deliver session pkt req)
  ]

  -- has_more is the test `size() == limit`
  unfoldable pub history_page : ℕ → Packet → GetHistoryRequest → UserRecord → World → World
  history_page session pkt req user w =
      let limit = clamp req.limit (pos 1) (pos 50) in
      let msgs = get_history w.storage req.conversation_id req.before_timestamp limit in
      send_packet w session (record {
        type = get_history_response;
        seq_id = pkt.seq_id;
        payload = wire.get_history_response_format.serialize (record {
          messages = map to_message_info msgs;
          has_more = eq_int (pos (length msgs)) limit;
        });
      })

  unfoldable pub on_get_history : ℕ → Packet → World → World
  on_get_history session pkt w = elim (wire.get_history_request_format.parse pkt.payload) [
    | none ↦ send_error session pkt.seq_id unknown_error (bytes "parse error") w
    | some req ↦
        if_valid (validate_token session req.token pkt.seq_id w) (history_page session pkt req)
  ]

  unfoldable pub on_get_conversations : ℕ → Packet → World → World
  on_get_conversations session pkt w =
      elim (wire.get_conversations_request_format.parse pkt.payload) [
        | none ↦ send_error session pkt.seq_id unknown_error (bytes "parse error") w
        | some req ↦ if_valid (validate_token session req.token pkt.seq_id w) λ user w'.
            send_packet w' session (record {
              type = get_conversations_response;
              seq_id = pkt.seq_id;
              payload = wire.get_conversations_response_format.serialize (
                  map (to_conversation_info user.user_id)
                    (get_latest_messages w'.storage user.user_id));
            })
      ]

  unfoldable pub handle : ℕ → Packet → World → World
  handle session packet w =
      if packet.type == send_message_request
      then on_send_message session packet w
      else if packet.type == get_history_request
      then on_get_history session packet w
      else if packet.type == get_conversations_request
      then on_get_conversations session packet w
      else w
