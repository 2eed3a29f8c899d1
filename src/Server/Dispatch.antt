-- ===== src/Server/Dispatch.antt =====
-- server/src/main.cpp, the handler of every session, and the read loop of
-- server/src/network/ClientSession.cpp that calls it.
use nova_chat.Prelude.{ℕ, false, ◌||◌, Option, none, some, ◌==◌, if◌then◌else◌, List, [], ◌∷◌}
use nova_chat.MessageType.{
  heartbeat_request, heartbeat_response, register_request, login_request, logout_request,
  get_contacts_request, add_friend_request, delete_friend_request, search_user_request,
  send_message_request, get_history_request, get_conversations_request,
}
use nova_chat.Codec.{Bytes, Packet, feed}
use nova_chat.Proto.{Wire}
use nova_chat.Server.Storage.{Outcome, returned, thrown}
use nova_chat.Server.Persist.{JsonLib}
use nova_chat.Server.World.{World, send_packet, put_session}
use nova_chat.Server.AuthHandler
use nova_chat.Server.ContactHandler
use nova_chat.Server.ChatHandler

module _ (wire : Wire) (json : JsonLib) where
  -- the lambda `handler` of main; an unknown type is only logged
  unfoldable pub dispatch : ℕ → Packet → World → Outcome World
  dispatch session pkt w =
      if pkt.type == heartbeat_request
      then returned (
          send_packet w session
            (record { type = heartbeat_response; seq_id = pkt.seq_id; payload = [] }))
      else if pkt.type == register_request
          || pkt.type == login_request
          || pkt.type == logout_request
      then AuthHandler.handle wire json session pkt w
      else if pkt.type == get_contacts_request
          || pkt.type == add_friend_request
          || pkt.type == delete_friend_request
          || pkt.type == search_user_request
      then returned (ContactHandler.handle wire session pkt w)
      else if pkt.type == send_message_request
          || pkt.type == get_history_request
          || pkt.type == get_conversations_request
      then returned (ChatHandler.handle wire session pkt w)
      else returned w

  -- the callback of `feed`, once for each packet; an exception leaves `feed`, the read handler and
  -- io_context::run
  unfoldable pub dispatch_all : ℕ → List Packet → World → Outcome World
  dispatch_all session [] w = returned w
  dispatch_all session (pkt ∷ pkts) w = elim (dispatch session pkt w) [
    | thrown ↦ thrown
    | returned w' ↦ dispatch_all session pkts w'
  ]

  -- the completion of async_read_some: the bytes that came, or `none` for an error, on which the
  -- session's last shared pointer goes
  unfoldable pub on_read : ℕ → Option Bytes → World → Outcome World
  on_read session none w =
      returned (put_session w session (record (w.session session) { alive = false }))
  on_read session (some incoming) w =
      let (pkts, left) = feed (w.session session).buffer incoming in
      dispatch_all session pkts
        (put_session w session (record (w.session session) { buffer = left }))
