-- ===== src/Server/Effects/Chat.antt =====
-- What ChatHandler does to the store.
use nova_chat.Prelude.{ℕ, ◌≡◌, refl, inl, inr, Option, none, some, ◌==◌, ==_iff, Option-cases}
use nova_chat.Prelude.Branches.{either, parsed, parsed_as, tested}
use nova_chat.Prelude.Text.{Text}
use nova_chat.MessageType.{send_message_request, get_history_request, get_conversations_request}
use nova_chat.Codec.{Packet}
use nova_chat.Proto.{Wire, SendMessageRequest, MessageInfo}
use nova_chat.Server.Storage.{UserRecord, find_by_token}
use nova_chat.Server.World.{World, send_packet, with_storage, put_session}
use nova_chat.Server.ChatHandler
use nova_chat.Server.ChatHandler.{make_conv_id}
use nova_chat.Server.Effects.Kinds.{Effect, HasToken, find_by_token-HasToken, nothing, stores}

module _ (wire : Wire) (i : ℕ) (pkt : Packet) (w : World) where
  abbrev Does : World → Type 0
  Does w' = Effect wire i pkt w.clock w.storage w'.storage

  -- an answer leaves the store
  none_done : Does w
  none_done = nothing refl

  chat_valid-Does :
      (token : Text) (k : UserRecord → World → World)
      → ((user : UserRecord) → HasToken w.storage token user → Does (k user w))
      → Does (ChatHandler.if_valid wire (ChatHandler.validate_token wire i token pkt.seq_id w) k)
  unfolding ChatHandler.validate_token ChatHandler.send_error send_packet
  chat_valid-Does token k h = elim (Option-cases (find_by_token w.storage token)) [
    | inl bad ↦ rw (bad, ChatHandler.validate_token) none_done
    | inr (user, good) ↦
        rw (good, ChatHandler.validate_token)
          (h user (find_by_token-HasToken w.storage token user good))
  ]

  push_to-storage :
      (receiver : Option ℕ) (push : MessageInfo) (v : World)
      → (ChatHandler.push_to wire receiver push v).storage ≡ v.storage
  unfolding ChatHandler.push_to send_packet
  push_to-storage none push v = refl
  push_to-storage (some j) push v = refl

  deliver-Does :
      (req : SendMessageRequest) (sender : UserRecord)
      → pkt.type ≡ send_message_request
      → wire.send_message_request_format.parse pkt.payload ≡ some req
      → HasToken w.storage req.token sender
      → Does (ChatHandler.deliver wire i pkt req sender w)
  unfolding ChatHandler.deliver send_packet with_storage put_session
  deliver-Does req sender kind read good = stores req sender kind read good (push_to-storage _ _ _)

  send_message-Does :
      pkt.type ≡ send_message_request → Does (ChatHandler.on_send_message wire i pkt w)
  unfolding ChatHandler.on_send_message ChatHandler.send_error send_packet
  send_message-Does kind =
      parsed_as Does (wire.send_message_request_format.parse pkt.payload) none_done (λ req read.
        chat_valid-Does req.token _ (λ sender good. deliver-Does req sender kind read good))

  get_history-Does : Does (ChatHandler.on_get_history wire i pkt w)
  unfolding ChatHandler.on_get_history ChatHandler.history_page ChatHandler.send_error send_packet
  get_history-Does =
      parsed Does (wire.get_history_request_format.parse pkt.payload) none_done
        (λ req. chat_valid-Does req.token _ (λ user good. none_done))

  get_conversations-Does : Does (ChatHandler.on_get_conversations wire i pkt w)
  unfolding ChatHandler.on_get_conversations ChatHandler.send_error send_packet
  get_conversations-Does =
      parsed Does (wire.get_conversations_request_format.parse pkt.payload) none_done
        (λ req. chat_valid-Does req.token _ (λ user good. none_done))

  pub chat-Does : Does (ChatHandler.handle wire i pkt w)
  unfolding ChatHandler.handle
  chat-Does =
      tested Does (pkt.type == send_message_request)
        (λ e. send_message-Does ((==_iff pkt.type send_message_request).0 e))
        (either Does (pkt.type == get_history_request) get_history-Does
          (either Does (pkt.type == get_conversations_request) get_conversations-Does none_done))
