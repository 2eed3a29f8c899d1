-- ===== src/Server/Delivery.antt =====
-- What becomes of a message that is sent: it is stored, the sender is answered, and the receiver's
-- session, if there is one, is pushed the same message.
use nova_chat.Prelude.{
  ℕ, ◌≡◌, refl, ap, ◌∙◌, Bool, ◌==◌, Option, none, some, List, [], ◌∷◌, ◌++◌, append-nil,
  append_assoc, if◌then◌else◌, arith,
}
use mathlib.Core.Path.{fun_ext}
use nova_chat.Prelude.Text.{Text, text_eq}
use nova_chat.MessageType.{send_message_response, message_push}
use nova_chat.Codec.{Bytes, Packet, encode}
use nova_chat.Proto.{Wire, SendMessageRequest, MessageInfo}
use nova_chat.Server.Storage.{
  Storage, UserRecord, MsgRecord, find_by_token, find_session, save_message, conversation,
}
use nova_chat.Server.Storage.History.{conversation-save_message}
use nova_chat.Server.World.{World, send_packet, with_storage, sent-send_packet, storage-send_packet}
use nova_chat.Server.ChatHandler.{
  make_conv_id, deliver, push_to, on_send_message, validate_token, to_message_info,
}

-- The record that the server makes of a request; its id is drawn when it is stored.
abbrev pub new_message : World → UserRecord → SendMessageRequest → MsgRecord
new_message w sender req = record {
  message_id = [];
  conversation_id = make_conv_id sender.user_id req.receiver_id;
  sender_id = sender.user_id;
  content = req.content;
  timestamp_ms = w.clock;
}

-- The record as it is stored.
abbrev pub stored_message : World → UserRecord → SendMessageRequest → MsgRecord
stored_message w sender req =
    let msg = new_message w sender req in record msg { message_id = (save_message w.storage msg).0 }

abbrev pub answer_packet : Wire → Packet → SendMessageRequest → MsgRecord → Packet
answer_packet wire pkt req msg = record {
  type = send_message_response;
  seq_id = pkt.seq_id;
  payload = wire.send_message_response_format.serialize (record {
    local_msg_id = req.local_msg_id;
    server_msg_id = msg.message_id;
    conversation_id = msg.conversation_id;
    timestamp_ms = msg.timestamp_ms;
  });
}

abbrev pub push_packet : Wire → MsgRecord → Packet
push_packet wire msg = record {
  type = message_push;
  seq_id = 0;
  payload = wire.message_push_format.serialize (to_message_info msg);
}

-- What session `j` is sent: `answer` if it asked, and `push` if the receiver is online there.
abbrev pub sent_to : ℕ → Option ℕ → Bytes → Bytes → ℕ → List Bytes
sent_to i none answer push j = if i == j then answer ∷ [] else []
sent_to i (some r) answer push j =
    (if i == j then answer ∷ [] else []) ++ (if r == j then push ∷ [] else [])

alive-send_packet :
    (w : World) (i j : ℕ) (p : Packet) → ((send_packet w i p).session j).alive ≡ (w.session j).alive
unfolding send_packet
alive-send_packet w i j p = ground arith

sent-push_to :
    (wire : Wire) (w : World) (i j : ℕ) (answer : Packet) (r : Option ℕ) (push : MessageInfo)
    → ((push_to wire r push (send_packet w i answer)).session j).sent
      ≡ (w.session j).sent
        ++ sent_to i r
            (encode answer)
            (encode (record {
              type = message_push;
              seq_id = 0;
              payload = wire.message_push_format.serialize push;
            }))
            j
unfolding push_to
sent-push_to wire w i j answer none push =
    ground (arith, sent-send_packet w i j answer, append-nil (w.session j).sent)
sent-push_to wire w i j answer (some r) push =
    let p : Packet = record {
      type = message_push;
      seq_id = 0;
      payload = wire.message_push_format.serialize push;
    } in
    sent-send_packet (send_packet w i answer) r j p
    ∙ ground (
      arith,
      sent-send_packet w i j answer,
      sent-send_packet w i r answer,
      append-nil (w.session j).sent,
      append_assoc (w.session j).sent (encode answer ∷ []) (encode p ∷ []),
    )

storage-push_to :
    (wire : Wire) (r : Option ℕ) (push : MessageInfo) (w : World)
    → (push_to wire r push w).storage ≡ w.storage
unfolding push_to
storage-push_to wire none push w = refl
storage-push_to wire (some r) push w = storage-send_packet w r _

find_session-save_message :
    (alive : ℕ → Bool) (s : Storage) (msg : MsgRecord) (id : Text)
    → find_session alive (save_message s msg).1 id ≡ find_session alive s id
unfolding find_session save_message
find_session-save_message alive s msg id = refl

module _ (wire : Wire) (i : ℕ) (pkt : Packet) (w : World) (req : SendMessageRequest)
    (sender : UserRecord) (parsed : wire.send_message_request_format.parse pkt.payload ≡ some req)
    (valid : find_by_token w.storage req.token ≡ some sender) where
  delivered : on_send_message wire i pkt w ≡ deliver wire i pkt req sender w
  unfolding on_send_message validate_token
  delivered = rw (parsed, on_send_message) (rw (valid, validate_token) refl)

  storage-deliver :
      (deliver wire i pkt req sender w).storage
      ≡ (save_message w.storage (new_message w sender req)).1
  unfolding deliver with_storage
  storage-deliver = storage-push_to wire _ _ _ ∙ storage-send_packet _ i _

  answered : World
  unfolding with_storage
  answered =
      send_packet (with_storage w (save_message w.storage (new_message w sender req)).1) i
        (answer_packet wire pkt req (stored_message w sender req))

  online :
      find_session (λ k. (answered.session k).alive) answered.storage req.receiver_id
      ≡ find_session (λ k. (w.session k).alive) w.storage req.receiver_id
  unfolding answered
  online =
      ap (λ (a : ℕ → Bool). find_session a answered.storage req.receiver_id)
        (fun_ext λ k. alive-send_packet _ i k _)
      ∙ ap (λ (t : Storage). find_session (λ k. (w.session k).alive) t req.receiver_id)
          (storage-send_packet _ i _)
      ∙ find_session-save_message (λ k. (w.session k).alive) w.storage (new_message w sender req)
          req.receiver_id

  sent-deliver :
      (j : ℕ)
      → ((deliver wire i pkt req sender w).session j).sent
        ≡ (w.session j).sent
          ++ sent_to i
              (find_session (λ k. (w.session k).alive) w.storage req.receiver_id)
              (encode (answer_packet wire pkt req (stored_message w sender req)))
              (encode (push_packet wire (stored_message w sender req)))
              j
  unfolding deliver answered to_message_info
  sent-deliver j =
      sent-push_to wire (with_storage w (save_message w.storage (new_message w sender req)).1) i j
        (answer_packet wire pkt req (stored_message w sender req)) _ _
      ∙ ap
          (λ (o : Option ℕ).
            (w.session j).sent
            ++ sent_to i o (encode (answer_packet wire pkt req (stored_message w sender req)))
                (encode (push_packet wire (stored_message w sender req))) j)
          online

  -- For a message request that parses and whose token leads to a user: the message goes to the end
  -- of the conversation of its two users, and no other conversation changes.
  pub conversation-on_send_message :
      (conv_id : Text)
      → conversation (on_send_message wire i pkt w).storage conv_id ≡ (
          if text_eq (make_conv_id sender.user_id req.receiver_id) conv_id
          then conversation w.storage (make_conv_id sender.user_id req.receiver_id)
            ++ stored_message w sender req ∷ []
          else conversation w.storage conv_id)
  conversation-on_send_message conv_id =
      ap (λ (v : World). conversation v.storage conv_id) delivered
      ∙ ap (λ (t : Storage). conversation t conv_id) storage-deliver
      ∙ conversation-save_message w.storage (new_message w sender req) conv_id

  -- For a message request that parses and whose token leads to a user: the session that asked is
  -- answered with the id, the conversation and the time under which the message is stored; the
  -- session where the receiver is online is pushed the stored message under sequence number 0,
  -- behind the answer if it is the same session; no other session gets anything.
  pub sent-on_send_message :
      (j : ℕ)
      → ((on_send_message wire i pkt w).session j).sent
        ≡ (w.session j).sent
          ++ sent_to i
              (find_session (λ k. (w.session k).alive) w.storage req.receiver_id)
              (encode (answer_packet wire pkt req (stored_message w sender req)))
              (encode (push_packet wire (stored_message w sender req)))
              j
  sent-on_send_message j = ap (λ (v : World). (v.session j).sent) delivered ∙ sent-deliver j
