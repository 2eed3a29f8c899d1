-- ===== src/Server/Effects.antt =====
-- What a packet of any kind does to the store.
mod Kinds
mod Auth
mod Contact
mod Chat
use nova_chat.Prelude.{ℕ, ◌≡◌, refl, subst, ◌==◌, ◌||◌}
use nova_chat.Prelude.Branches.{either}
use nova_chat.MessageType.{
  heartbeat_request, register_request, login_request, logout_request, get_contacts_request,
  add_friend_request, delete_friend_request, search_user_request, send_message_request,
  get_history_request, get_conversations_request,
}
use nova_chat.Codec.{Packet}
use nova_chat.Proto.{Wire}
use nova_chat.Server.Storage.{Outcome, returned, thrown}
use nova_chat.Server.Persist.{JsonLib}
use nova_chat.Server.World.{World, send_packet, put_session}
use nova_chat.Server.Dispatch.{dispatch}
use nova_chat.Server.Effects.Kinds.{nothing, Effect-Change}
pub use nova_chat.Server.Effects.Kinds.{
  Effect, Change, leaves, enters, signs_in, signs_out, joins, parts, saves,
}
use nova_chat.Server.Effects.Auth.{auth-Does}
use nova_chat.Server.Effects.Contact.{contact-Does}
use nova_chat.Server.Effects.Chat.{chat-Does}

module _ (wire : Wire) (json : JsonLib) (i : ℕ) (pkt : Packet) (w : World) where
  abbrev Does : World → Type 0
  Does w' = Effect wire i pkt w.clock w.storage w'.storage

  abbrev DoesIf : Outcome World → Type 0
  DoesIf thrown = Unit
  DoesIf (returned w') = Does w'

  -- an answer leaves the store
  none_done : Does w
  none_done = nothing refl

  dispatch-Does : DoesIf (dispatch wire json i pkt w)
  unfolding dispatch send_packet put_session
  dispatch-Does = either DoesIf (pkt.type == heartbeat_request) none_done (
      either DoesIf
        (pkt.type == register_request || pkt.type == login_request || pkt.type == logout_request)
        (auth-Does wire json i pkt w)
        (either DoesIf
          (pkt.type == get_contacts_request
            || pkt.type == add_friend_request
            || pkt.type == delete_friend_request
            || pkt.type == search_user_request)
          (contact-Does wire i pkt w)
          (either DoesIf
            (pkt.type == send_message_request
              || pkt.type == get_history_request
              || pkt.type == get_conversations_request)
            (chat-Does wire i pkt w) none_done)))

  -- Whatever packet a session sends, of whatever payload, handling it either leaves the store as it
  -- was or does what a request in the payload, of the packet's type, asks for: it registers the user
  -- of the request; it makes a token for, and puts the session down for, the user to whom the
  -- request's username leads and whose password the request gives; it drops the request's token; it
  -- makes friends, or parts them, of the user to whom the request's token leads and the request's
  -- target, who is another user where it makes friends; or it stores one message, with the request's
  -- content and the clock's time, from the user to whom the request's token leads, in the
  -- conversation of that user and the request's receiver.
  pub dispatch-Effect :
      (w' : World)
      → dispatch wire json i pkt w ≡ returned w'
      → Effect wire i pkt w.clock w.storage w'.storage
  dispatch-Effect w' ran = subst DoesIf ran dispatch-Does

  pub dispatch-Change :
      (w' : World) → dispatch wire json i pkt w ≡ returned w' → Change i w.storage w'.storage
  dispatch-Change w' ran = Effect-Change wire i pkt w.clock _ _ (dispatch-Effect w' ran)
