-- ===== src/Server/ContactHandler.antt =====
-- server/src/handler/ContactHandler.h and ContactHandler.cpp: the friend list. What the log is
-- given is left out.
use nova_chat.Prelude.{
  ℕ, Bool, true, false, not, Option, none, some, ◌==◌, if◌then◌else◌, List, [], map, filter,
}
use nova_chat.Prelude.Text.{Text, bytes, text_eq}
use nova_chat.MessageType.{
  get_contacts_request, get_contacts_response, add_friend_request, add_friend_response,
  delete_friend_request, delete_friend_response, search_user_request, search_user_response,
  error_response,
}
use nova_chat.Codec.{Packet}
use nova_chat.Proto.{
  Wire, ContactInfo, unknown_error, auth_expired, friend_not_found, friend_already_exists,
}
use nova_chat.Server.Storage.{
  Storage, UserRecord, find_by_token, find_by_id, get_friends, add_friend, remove_friend,
  search_users,
}
use nova_chat.Server.World.{World, send_packet, with_storage}
use mathlib.Core.Option

unfoldable pub to_contact_info : UserRecord → ContactInfo
to_contact_info rec = record {
  user_id = rec.user_id;
  username = rec.username;
  display_name = rec.display_name;
  avatar_url = [];
}

module _ (wire : Wire) where
  unfoldable pub send_error : ℕ → ℕ → ℕ → Text → World → World
  send_error session seq_id code msg w = send_packet w session (record {
    type = error_response;
    seq_id = seq_id;
    payload = wire.error_format.serialize (record { code = code; message = msg });
  })

  -- the user, and the world in which the error of a bad token has been sent
  unfoldable pub validate_token : ℕ → Text → ℕ → World → Option UserRecord × World
  validate_token session token seq_id w = elim (find_by_token w.storage token) [
    | none ↦ (none, send_error session seq_id auth_expired (bytes "Token invalid or expired") w)
    | some user ↦ (some user, w)
  ]

  -- the early return behind validateToken
  abbrev pub if_valid : Option UserRecord × World → (UserRecord → World → World) → World
  if_valid (none, w) k = w
  if_valid (some user, w) k = k user w

  unfoldable pub on_get_contacts : ℕ → Packet → World → World
  on_get_contacts session pkt w = elim (wire.get_contacts_request_format.parse pkt.payload) [
    | none ↦ send_error session pkt.seq_id unknown_error (bytes "parse error") w
    | some req ↦ if_valid (validate_token session req.token pkt.seq_id w) λ user w'.
        send_packet w' session (record {
          type = get_contacts_response;
          seq_id = pkt.seq_id;
          payload =
              wire.get_contacts_response_format.serialize
                (map to_contact_info (get_friends w'.storage user.user_id));
        })
  ]

  unfoldable pub finish_add : ℕ → Packet → Text → Bool × Storage → World → World
  finish_add session pkt target_id (false, s) w =
      send_error session pkt.seq_id friend_already_exists
        (bytes "Already friends or user not found") (with_storage w s)
  finish_add session pkt target_id (true, s) w = send_packet (with_storage w s) session (record {
    type = add_friend_response;
    seq_id = pkt.seq_id;
    payload =
        wire.add_friend_response_format.serialize
          (record { contact = Option.map to_contact_info (find_by_id s target_id) });
  })

  unfoldable pub add_target : ℕ → Packet → Text → UserRecord → World → World
  unfolding finish_add
  add_target session pkt target_id user w =
      if text_eq user.user_id target_id
      then send_error session pkt.seq_id unknown_error (bytes "Cannot add yourself") w
      else finish_add session pkt target_id (add_friend w.storage user.user_id target_id) w

  unfoldable pub on_add_friend : ℕ → Packet → World → World
  on_add_friend session pkt w = elim (wire.add_friend_request_format.parse pkt.payload) [
    | none ↦ send_error session pkt.seq_id unknown_error (bytes "parse error") w
    | some req ↦
        if_valid (validate_token session req.token pkt.seq_id w)
          (add_target session pkt req.target_user_id)
  ]

  unfoldable pub finish_delete : ℕ → Packet → Bool × Storage → World → World
  finish_delete session pkt (false, s) w =
      send_error session pkt.seq_id friend_not_found (bytes "Friend not found") (with_storage w s)
  finish_delete session pkt (true, s) w =
      send_packet (with_storage w s) session
        (record { type = delete_friend_response; seq_id = pkt.seq_id; payload = [] })

  unfoldable pub on_delete_friend : ℕ → Packet → World → World
  unfolding finish_delete
  on_delete_friend session pkt w = elim (wire.delete_friend_request_format.parse pkt.payload) [
    | none ↦ send_error session pkt.seq_id unknown_error (bytes "parse error") w
    | some req ↦ if_valid (validate_token session req.token pkt.seq_id w) λ user w'.
        finish_delete session pkt (remove_friend w'.storage user.user_id req.target_user_id) w'
  ]

  -- the results without the user who asked
  unfoldable pub other_users : Text → List UserRecord → List UserRecord
  other_users user_id = filter λ r. not (text_eq r.user_id user_id)

  unfoldable pub on_search_user : ℕ → Packet → World → World
  on_search_user session pkt w = elim (wire.search_user_request_format.parse pkt.payload) [
    | none ↦ send_error session pkt.seq_id unknown_error (bytes "parse error") w
    | some req ↦ if_valid (validate_token session req.token pkt.seq_id w) λ user w'.
        send_packet w' session (record {
          type = search_user_response;
          seq_id = pkt.seq_id;
          payload = wire.search_user_response_format.serialize (
              map to_contact_info (other_users user.user_id (search_users w'.storage req.keyword)));
        })
  ]

  unfoldable pub handle : ℕ → Packet → World → World
  handle session packet w =
      if packet.type == get_contacts_request
      then on_get_contacts session packet w
      else if packet.type == add_friend_request
      then on_add_friend session packet w
      else if packet.type == delete_friend_request
      then on_delete_friend session packet w
      else if packet.type == search_user_request
      then on_search_user session packet w
      else w
