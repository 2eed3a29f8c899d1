-- ===== src/Server/Chunks/Chat.antt =====
-- ChatHandler does the same whatever waits in the sessions' buffers.
use nova_chat.Prelude.{ℕ, ◌≡◌, refl, ap, ◌∙◌, Option, none, some, ◌==◌, inl, inr, Option-cases}
use nova_chat.Prelude.Branches.{either_both, parsed_both}
use nova_chat.Prelude.Text.{Text}
use nova_chat.MessageType.{send_message_request, get_history_request, get_conversations_request}
use nova_chat.Codec.{Bytes, Packet}
use nova_chat.Proto.{Wire, MessageInfo, SendMessageRequest}
use nova_chat.Server.Storage.{UserRecord, find_by_token, find_session}
use nova_chat.Server.World.{World, put_session, with_storage}
use nova_chat.Server.ChatHandler
use nova_chat.Server.Chunks.Buffer.{with_buffers, send_packet-with_buffers}

module _ (i : ℕ) (b : ℕ → Bytes) (wire : Wire) (pkt : Packet) (w : World) where
  -- the one is the other with the bytes in the buffers
  abbrev Along : World → World → Type 0
  Along v' v = v' ≡ with_buffers b v

  abbrev w' : World
  w' = with_buffers b w

  valid-Along :
      (token : Text) (k : UserRecord → World → World)
      → ((user : UserRecord) → Along (k user w') (k user w))
      → Along
          (ChatHandler.if_valid wire (ChatHandler.validate_token wire i token pkt.seq_id w') k)
          (ChatHandler.if_valid wire (ChatHandler.validate_token wire i token pkt.seq_id w) k)
  unfolding ChatHandler.validate_token ChatHandler.send_error put_session
  valid-Along token k h = elim (Option-cases (find_by_token w.storage token)) [
    | inl bad ↦ rw (bad, ChatHandler.validate_token) (send_packet-with_buffers b w i _)
    | inr (user, good) ↦ rw (good, ChatHandler.validate_token) (h user)
  ]

  push_to-Along :
      (receiver : Option ℕ) (push : MessageInfo) (v : World)
      → Along
          (ChatHandler.push_to wire receiver push (with_buffers b v))
          (ChatHandler.push_to wire receiver push v)
  unfolding ChatHandler.push_to
  push_to-Along none push v = refl
  push_to-Along (some j) push v = send_packet-with_buffers b v j _

  pushed-Along :
      (user_id : Text) (push : MessageInfo) (v' v : World)
      → Along v' v
      → Along
          (ChatHandler.push_to wire
            (find_session (λ j. (v'.session j).alive) v'.storage user_id)
            push
            v')
          (ChatHandler.push_to wire
            (find_session (λ j. (v.session j).alive) v.storage user_id)
            push
            v)
  unfolding put_session
  pushed-Along user_id push v' v e =
      ap
        (λ (u : World).
          ChatHandler.push_to wire (find_session (λ j. (u.session j).alive) u.storage user_id) push
            u)
        e
      ∙ push_to-Along (find_session (λ j. (v.session j).alive) v.storage user_id) push v

  deliver-Along :
      (req : SendMessageRequest) (sender : UserRecord)
      → Along
          (ChatHandler.deliver wire i pkt req sender w')
          (ChatHandler.deliver wire i pkt req sender w)
  unfolding ChatHandler.deliver with_storage put_session
  deliver-Along req sender =
      pushed-Along req.receiver_id _ _ _ (send_packet-with_buffers b (with_storage w _) i _)

  send_message-Along :
      Along (ChatHandler.on_send_message wire i pkt w') (ChatHandler.on_send_message wire i pkt w)
  unfolding ChatHandler.on_send_message ChatHandler.send_error put_session
  send_message-Along =
      parsed_both Along (wire.send_message_request_format.parse pkt.payload)
        (send_packet-with_buffers b w i _) (λ req. valid-Along req.token _ (deliver-Along req))

  get_history-Along :
      Along (ChatHandler.on_get_history wire i pkt w') (ChatHandler.on_get_history wire i pkt w)
  unfolding ChatHandler.on_get_history ChatHandler.history_page ChatHandler.send_error put_session
  get_history-Along =
      parsed_both Along (wire.get_history_request_format.parse pkt.payload)
        (send_packet-with_buffers b w i _)
        (λ req. valid-Along req.token _ (λ user. send_packet-with_buffers b w i _))

  get_conversations-Along :
      Along
        (ChatHandler.on_get_conversations wire i pkt w')
        (ChatHandler.on_get_conversations wire i pkt w)
  unfolding ChatHandler.on_get_conversations ChatHandler.send_error put_session
  get_conversations-Along =
      parsed_both Along (wire.get_conversations_request_format.parse pkt.payload)
        (send_packet-with_buffers b w i _)
        (λ req. valid-Along req.token _ (λ user. send_packet-with_buffers b w i _))

  pub chat-Along : Along (ChatHandler.handle wire i pkt w') (ChatHandler.handle wire i pkt w)
  unfolding ChatHandler.handle
  chat-Along = either_both Along (pkt.type == send_message_request) send_message-Along (
      either_both Along (pkt.type == get_history_request) get_history-Along
        (either_both Along (pkt.type == get_conversations_request) get_conversations-Along refl))
