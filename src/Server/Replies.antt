-- ===== src/Server/Replies.antt =====
-- Who is answered, and how often: every request but a logout gets one packet, to the session that
-- asked, under the request's sequence number.
mod Auth
mod Contact
mod Chat
use nova_chat.Prelude.{ℕ, ◌≡◌, refl, Bool, true, ◌||◌, ◌==◌, [], arith}
use nova_chat.MessageType.{
  MessageType, heartbeat_request, heartbeat_response, register_request, login_request,
  get_contacts_request, add_friend_request, delete_friend_request, search_user_request,
  get_history_request, get_conversations_request,
}
use nova_chat.Codec.{Packet}
use nova_chat.Proto.{Wire}
use nova_chat.Server.Storage.Accounts.{IsIndexed}
use nova_chat.Server.Soundness.{Returns}
use nova_chat.Server.Persist.{JsonLib}
use nova_chat.Server.World.{World, send_packet}
use nova_chat.Server.AuthHandler
use nova_chat.Server.ContactHandler
use nova_chat.Server.ChatHandler
use nova_chat.Server.Dispatch.{dispatch}
use nova_chat.Server.Answering.{Answers, sending}
use nova_chat.Server.Replies.Auth.{register-Answers, login-Answers}
use nova_chat.Server.Replies.Contact.{
  get_contacts-Answers, search_user-Answers, add_friend-Answers, delete_friend-Answers,
}
use nova_chat.Server.Replies.Chat.{get_history-Answers, get_conversations-Answers}

-- The requests that get one answer: all but a logout, which gets none, and a message, which may
-- also be pushed to its receiver.
abbrev pub gets_one_answer : MessageType → Bool
gets_one_answer t =
    t == heartbeat_request
    || t == register_request
    || t == login_request
    || t == get_contacts_request
    || t == add_friend_request
    || t == delete_friend_request
    || t == search_user_request
    || t == get_history_request
    || t == get_conversations_request

module _ (wire : Wire) (json : JsonLib) (i : ℕ) (pkt : Packet) where
  heartbeat-Answers :
      (w : World)
      → Answers i pkt.seq_id w (
          send_packet w i (record { type = heartbeat_response; seq_id = pkt.seq_id; payload = [] }))
  heartbeat-Answers w = sending i pkt w w _ _ (λ j. refl)

  -- On a store whose maps agree, every request of a known type except a logout and a message is
  -- answered once: the session that asked gets one packet with the request's sequence number,
  -- whichever branch its handler takes, and no other session gets anything.
  pub dispatch-Answers :
      (w : World)
      → gets_one_answer pkt.type ≡ true
      → IsIndexed w.storage
      → Returns (Answers i pkt.seq_id w) (dispatch wire json i pkt w)
  unfolding dispatch AuthHandler.handle ContactHandler.handle ChatHandler.handle
  dispatch-Answers w one v = ground (
    arith,
    heartbeat-Answers w,
    register-Answers wire json i pkt w,
    login-Answers wire json i pkt w v,
    get_contacts-Answers wire i pkt w,
    add_friend-Answers wire i pkt w,
    delete_friend-Answers wire i pkt w,
    search_user-Answers wire i pkt w,
    get_history-Answers wire i pkt w,
    get_conversations-Answers wire i pkt w,
  )
