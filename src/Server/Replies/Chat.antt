-- ===== src/Server/Replies/Chat.antt =====
-- ChatHandler answers a request for the history or the conversations once.
use nova_chat.Prelude.{ℕ, ◌≡◌, refl, inl, inr, Option-cases}
use nova_chat.Prelude.Text.{Text}
use nova_chat.Codec.{Packet}
use nova_chat.Proto.{Wire}
use nova_chat.Server.Storage.{UserRecord, find_by_token}
use nova_chat.Server.World.{World}
use nova_chat.Server.ChatHandler
use nova_chat.Server.Answering.{Answers, sending}

module _ (wire : Wire) (i : ℕ) (pkt : Packet) where
  chat_error :
      (w w' : World) (code : ℕ) (message : Text)
      → ((j : ℕ) → (w'.session j).sent ≡ (w.session j).sent)
      → Answers i pkt.seq_id w (ChatHandler.send_error wire i pkt.seq_id code message w')
  unfolding ChatHandler.send_error
  chat_error w w' code message h = sending i pkt w w' _ _ h

  chat_valid :
      (token : Text) (k : UserRecord → World → World) (w : World)
      → ((user : UserRecord) → Answers i pkt.seq_id w (k user w))
      → Answers i pkt.seq_id w
          (ChatHandler.if_valid wire (ChatHandler.validate_token wire i token pkt.seq_id w) k)
  unfolding ChatHandler.validate_token
  chat_valid token k w h = elim (Option-cases (find_by_token w.storage token)) [
    | inl bad ↦ rw (bad, ChatHandler.validate_token) (chat_error w w _ _ (λ j. refl))
    | inr (user, good) ↦ rw (good, ChatHandler.validate_token) (h user)
  ]

  pub get_history-Answers :
      (w : World) → Answers i pkt.seq_id w (ChatHandler.on_get_history wire i pkt w)
  unfolding ChatHandler.on_get_history ChatHandler.history_page
  get_history-Answers w = elim (Option-cases (wire.get_history_request_format.parse pkt.payload)) [
    | inl bad ↦ rw (bad, ChatHandler.on_get_history) (chat_error w w _ _ (λ j. refl))
    | inr (req, good) ↦
        rw (good, ChatHandler.on_get_history)
          (chat_valid req.token _ w (λ user. sending i pkt w w _ _ (λ j. refl)))
  ]

  pub get_conversations-Answers :
      (w : World) → Answers i pkt.seq_id w (ChatHandler.on_get_conversations wire i pkt w)
  unfolding ChatHandler.on_get_conversations
  get_conversations-Answers w =
      elim (Option-cases (wire.get_conversations_request_format.parse pkt.payload)) [
        | inl bad ↦ rw (bad, ChatHandler.on_get_conversations) (chat_error w w _ _ (λ j. refl))
        | inr (req, good) ↦
            rw (good, ChatHandler.on_get_conversations)
              (chat_valid req.token _ w (λ user. sending i pkt w w _ _ (λ j. refl)))
      ]
