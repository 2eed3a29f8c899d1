-- ===== src/Server/Chunks/Contact.antt =====
-- ContactHandler does the same whatever waits in the sessions' buffers.
use nova_chat.Prelude.{ℕ, ◌≡◌, refl, Bool, true, false, ◌==◌, inl, inr, Option-cases}
use nova_chat.Prelude.Branches.{either_both, parsed_both}
use nova_chat.Prelude.Text.{Text, text_eq}
use nova_chat.MessageType.{
  get_contacts_request, add_friend_request, delete_friend_request, search_user_request,
}
use nova_chat.Codec.{Bytes, Packet}
use nova_chat.Proto.{Wire}
use nova_chat.Server.Storage.{Storage, UserRecord, find_by_token}
use nova_chat.Server.World.{World, put_session, with_storage}
use nova_chat.Server.ContactHandler
use nova_chat.Server.Chunks.Buffer.{with_buffers, send_packet-with_buffers}

module _ (i : ℕ) (b : ℕ → Bytes) (wire : Wire) (pkt : Packet) (w : World) where
  -- the one is the other with the bytes in the buffers
  abbrev Along : World → World → Type 0
  Along v' v = v' ≡ with_buffers b v

  abbrev w' : World
  w' = with_buffers b w

  valid-Along :
      (token : Text) (k : UserRecord → World → World)
      → ((user : UserRecord) → Along (k user w') (k user w))
      → Along
          (ContactHandler.if_valid wire
            (ContactHandler.validate_token wire i token pkt.seq_id w')
            k)
          (ContactHandler.if_valid wire (ContactHandler.validate_token wire i token pkt.seq_id w) k)
  unfolding ContactHandler.validate_token ContactHandler.send_error put_session
  valid-Along token k h = elim (Option-cases (find_by_token w.storage token)) [
    | inl bad ↦ rw (bad, ContactHandler.validate_token) (send_packet-with_buffers b w i _)
    | inr (user, good) ↦ rw (good, ContactHandler.validate_token) (h user)
  ]

  get_contacts-Along :
      Along
        (ContactHandler.on_get_contacts wire i pkt w')
        (ContactHandler.on_get_contacts wire i pkt w)
  unfolding ContactHandler.on_get_contacts ContactHandler.send_error put_session
  get_contacts-Along =
      parsed_both Along (wire.get_contacts_request_format.parse pkt.payload)
        (send_packet-with_buffers b w i _)
        (λ req. valid-Along req.token _ (λ user. send_packet-with_buffers b w i _))

  finish_add-Along :
      (target_id : Text) (r : Bool × Storage)
      → Along
          (ContactHandler.finish_add wire i pkt target_id r w')
          (ContactHandler.finish_add wire i pkt target_id r w)
  unfolding ContactHandler.finish_add ContactHandler.send_error with_storage put_session
  finish_add-Along target_id (false, s) = send_packet-with_buffers b (with_storage w s) i _
  finish_add-Along target_id (true, s) = send_packet-with_buffers b (with_storage w s) i _

  finish_delete-Along :
      (r : Bool × Storage)
      → Along
          (ContactHandler.finish_delete wire i pkt r w')
          (ContactHandler.finish_delete wire i pkt r w)
  unfolding ContactHandler.finish_delete ContactHandler.send_error with_storage put_session
  finish_delete-Along (false, s) = send_packet-with_buffers b (with_storage w s) i _
  finish_delete-Along (true, s) = send_packet-with_buffers b (with_storage w s) i _

  add_friend-Along :
      Along (ContactHandler.on_add_friend wire i pkt w') (ContactHandler.on_add_friend wire i pkt w)
  unfolding ContactHandler.on_add_friend ContactHandler.add_target ContactHandler.send_error
      put_session
  add_friend-Along =
      parsed_both Along (wire.add_friend_request_format.parse pkt.payload)
        (send_packet-with_buffers b w i _)
        (λ req. valid-Along req.token _ (λ user.
          either_both Along (text_eq user.user_id req.target_user_id)
            (send_packet-with_buffers b w i _) (finish_add-Along req.target_user_id _)))

  delete_friend-Along :
      Along
        (ContactHandler.on_delete_friend wire i pkt w')
        (ContactHandler.on_delete_friend wire i pkt w)
  unfolding ContactHandler.on_delete_friend ContactHandler.send_error put_session
  delete_friend-Along =
      parsed_both Along (wire.delete_friend_request_format.parse pkt.payload)
        (send_packet-with_buffers b w i _)
        (λ req. valid-Along req.token _ (λ user. finish_delete-Along _))

  search_user-Along :
      Along
        (ContactHandler.on_search_user wire i pkt w')
        (ContactHandler.on_search_user wire i pkt w)
  unfolding ContactHandler.on_search_user ContactHandler.send_error put_session
  search_user-Along =
      parsed_both Along (wire.search_user_request_format.parse pkt.payload)
        (send_packet-with_buffers b w i _)
        (λ req. valid-Along req.token _ (λ user. send_packet-with_buffers b w i _))

  pub contact-Along :
      Along (ContactHandler.handle wire i pkt w') (ContactHandler.handle wire i pkt w)
  unfolding ContactHandler.handle
  contact-Along = either_both Along (pkt.type == get_contacts_request) get_contacts-Along (
      either_both Along (pkt.type == add_friend_request) add_friend-Along (
        either_both Along (pkt.type == delete_friend_request) delete_friend-Along
          (either_both Along (pkt.type == search_user_request) search_user-Along refl)))
