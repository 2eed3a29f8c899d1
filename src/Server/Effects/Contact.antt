-- ===== src/Server/Effects/Contact.antt =====
-- What ContactHandler does to the store.
use nova_chat.Prelude.{ℕ, ◌≡◌, refl, inl, inr, Bool, true, false, ◌==◌, ==_iff, Option-cases}
use nova_chat.Prelude.Branches.{either, parsed, parsed_as, refused, tested}
use nova_chat.Prelude.Text.{Text, text_eq}
use nova_chat.MessageType.{
  get_contacts_request, add_friend_request, delete_friend_request, search_user_request,
}
use nova_chat.Codec.{Packet}
use nova_chat.Proto.{Wire}
use nova_chat.Server.Storage.{Storage, UserRecord, find_by_token}
use nova_chat.Server.World.{World, send_packet, with_storage}
use nova_chat.Server.ContactHandler
use nova_chat.Server.Effects.Kinds.{
  Effect, HasToken, find_by_token-HasToken, nothing, befriends, unfriends,
}

module _ (wire : Wire) (i : ℕ) (pkt : Packet) (w : World) where
  abbrev Does : World → Type 0
  Does w' = Effect wire i pkt w.clock w.storage w'.storage

  -- an answer leaves the store
  none_done : Does w
  none_done = nothing refl

  -- behind a token that leads to a user
  contact_valid-Does :
      (token : Text) (k : UserRecord → World → World)
      → ((user : UserRecord) → HasToken w.storage token user → Does (k user w))
      → Does
          (ContactHandler.if_valid wire (ContactHandler.validate_token wire i token pkt.seq_id w) k)
  unfolding ContactHandler.validate_token ContactHandler.send_error send_packet
  contact_valid-Does token k h = elim (Option-cases (find_by_token w.storage token)) [
    | inl bad ↦ rw (bad, ContactHandler.validate_token) none_done
    | inr (user, good) ↦
        rw (good, ContactHandler.validate_token)
          (h user (find_by_token-HasToken w.storage token user good))
  ]

  finish_add-storage :
      (target_id : Text) (r : Bool × Storage)
      → (ContactHandler.finish_add wire i pkt target_id r w).storage ≡ r.1
  unfolding ContactHandler.finish_add ContactHandler.send_error send_packet with_storage
  finish_add-storage target_id (false, s) = refl
  finish_add-storage target_id (true, s) = refl

  finish_delete-storage :
      (r : Bool × Storage) → (ContactHandler.finish_delete wire i pkt r w).storage ≡ r.1
  unfolding ContactHandler.finish_delete ContactHandler.send_error send_packet with_storage
  finish_delete-storage (false, s) = refl
  finish_delete-storage (true, s) = refl

  add_friend-Does : pkt.type ≡ add_friend_request → Does (ContactHandler.on_add_friend wire i pkt w)
  unfolding ContactHandler.on_add_friend ContactHandler.add_target ContactHandler.send_error
      send_packet
  add_friend-Does kind =
      parsed_as Does (wire.add_friend_request_format.parse pkt.payload) none_done (λ req read.
        contact_valid-Does req.token _ (λ user good.
          refused Does (text_eq user.user_id req.target_user_id) none_done
            (λ other. befriends req user kind read good other (finish_add-storage _ _))))

  delete_friend-Does :
      pkt.type ≡ delete_friend_request → Does (ContactHandler.on_delete_friend wire i pkt w)
  unfolding ContactHandler.on_delete_friend ContactHandler.send_error send_packet
  delete_friend-Does kind =
      parsed_as Does (wire.delete_friend_request_format.parse pkt.payload) none_done (λ req read.
        contact_valid-Does req.token _
          (λ user good. unfriends req user kind read good (finish_delete-storage _)))

  get_contacts-Does : Does (ContactHandler.on_get_contacts wire i pkt w)
  unfolding ContactHandler.on_get_contacts ContactHandler.send_error send_packet
  get_contacts-Does =
      parsed Does (wire.get_contacts_request_format.parse pkt.payload) none_done
        (λ req. contact_valid-Does req.token _ (λ user good. none_done))

  search_user-Does : Does (ContactHandler.on_search_user wire i pkt w)
  unfolding ContactHandler.on_search_user ContactHandler.send_error send_packet
  search_user-Does =
      parsed Does (wire.search_user_request_format.parse pkt.payload) none_done
        (λ req. contact_valid-Does req.token _ (λ user good. none_done))

  pub contact-Does : Does (ContactHandler.handle wire i pkt w)
  unfolding ContactHandler.handle
  contact-Does = either Does (pkt.type == get_contacts_request) get_contacts-Does (
      tested Does (pkt.type == add_friend_request)
        (λ e. add_friend-Does ((==_iff pkt.type add_friend_request).0 e))
        (tested Does (pkt.type == delete_friend_request)
          (λ e. delete_friend-Does ((==_iff pkt.type delete_friend_request).0 e))
          (either Does (pkt.type == search_user_request) search_user-Does none_done)))
