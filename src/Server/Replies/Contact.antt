-- ===== src/Server/Replies/Contact.antt =====
-- ContactHandler answers each of its requests once.
use nova_chat.Prelude.{ℕ, ◌≡◌, refl, inl, inr, Bool, true, false, Option-cases, Bool-cases}
use nova_chat.Prelude.Text.{Text, text_eq}
use nova_chat.Codec.{Packet}
use nova_chat.Proto.{Wire}
use nova_chat.Server.Storage.{Storage, UserRecord, find_by_token}
use nova_chat.Server.World.{World, with_storage}
use nova_chat.Server.ContactHandler
use nova_chat.Server.Answering.{Answers, sending}

module _ (wire : Wire) (i : ℕ) (pkt : Packet) where
  contact_error :
      (w w' : World) (code : ℕ) (message : Text)
      → ((j : ℕ) → (w'.session j).sent ≡ (w.session j).sent)
      → Answers i pkt.seq_id w (ContactHandler.send_error wire i pkt.seq_id code message w')
  unfolding ContactHandler.send_error
  contact_error w w' code message h = sending i pkt w w' _ _ h

  contact_valid :
      (token : Text) (k : UserRecord → World → World) (w : World)
      → ((user : UserRecord) → Answers i pkt.seq_id w (k user w))
      → Answers i pkt.seq_id w
          (ContactHandler.if_valid wire (ContactHandler.validate_token wire i token pkt.seq_id w) k)
  unfolding ContactHandler.validate_token
  contact_valid token k w h = elim (Option-cases (find_by_token w.storage token)) [
    | inl bad ↦ rw (bad, ContactHandler.validate_token) (contact_error w w _ _ (λ j. refl))
    | inr (user, good) ↦ rw (good, ContactHandler.validate_token) (h user)
  ]

  pub get_contacts-Answers :
      (w : World) → Answers i pkt.seq_id w (ContactHandler.on_get_contacts wire i pkt w)
  unfolding ContactHandler.on_get_contacts
  get_contacts-Answers w =
      elim (Option-cases (wire.get_contacts_request_format.parse pkt.payload)) [
        | inl bad ↦ rw (bad, ContactHandler.on_get_contacts) (contact_error w w _ _ (λ j. refl))
        | inr (req, good) ↦
            rw (good, ContactHandler.on_get_contacts)
              (contact_valid req.token _ w (λ user. sending i pkt w w _ _ (λ j. refl)))
      ]

  pub search_user-Answers :
      (w : World) → Answers i pkt.seq_id w (ContactHandler.on_search_user wire i pkt w)
  unfolding ContactHandler.on_search_user
  search_user-Answers w = elim (Option-cases (wire.search_user_request_format.parse pkt.payload)) [
    | inl bad ↦ rw (bad, ContactHandler.on_search_user) (contact_error w w _ _ (λ j. refl))
    | inr (req, good) ↦
        rw (good, ContactHandler.on_search_user)
          (contact_valid req.token _ w (λ user. sending i pkt w w _ _ (λ j. refl)))
  ]

  finish_add-Answers :
      (target_id : Text) (r : Bool × Storage) (w : World)
      → Answers i pkt.seq_id w (ContactHandler.finish_add wire i pkt target_id r w)
  unfolding ContactHandler.finish_add with_storage
  finish_add-Answers target_id (false, s) w = contact_error w _ _ _ (λ j. refl)
  finish_add-Answers target_id (true, s) w = sending i pkt w _ _ _ (λ j. refl)

  add_target-Answers :
      (target_id : Text) (user : UserRecord) (w : World)
      → Answers i pkt.seq_id w (ContactHandler.add_target wire i pkt target_id user w)
  unfolding ContactHandler.add_target
  add_target-Answers target_id user w = elim (Bool-cases (text_eq user.user_id target_id)) [
    | inl self ↦ rw self (contact_error w w _ _ (λ j. refl))
    | inr other ↦ rw other (finish_add-Answers target_id _ w)
  ]

  pub add_friend-Answers :
      (w : World) → Answers i pkt.seq_id w (ContactHandler.on_add_friend wire i pkt w)
  unfolding ContactHandler.on_add_friend
  add_friend-Answers w = elim (Option-cases (wire.add_friend_request_format.parse pkt.payload)) [
    | inl bad ↦ rw (bad, ContactHandler.on_add_friend) (contact_error w w _ _ (λ j. refl))
    | inr (req, good) ↦
        rw (good, ContactHandler.on_add_friend)
          (contact_valid req.token _ w (λ user. add_target-Answers req.target_user_id user w))
  ]

  finish_delete-Answers :
      (r : Bool × Storage) (w : World)
      → Answers i pkt.seq_id w (ContactHandler.finish_delete wire i pkt r w)
  unfolding ContactHandler.finish_delete with_storage
  finish_delete-Answers (false, s) w = contact_error w _ _ _ (λ j. refl)
  finish_delete-Answers (true, s) w = sending i pkt w _ _ _ (λ j. refl)

  pub delete_friend-Answers :
      (w : World) → Answers i pkt.seq_id w (ContactHandler.on_delete_friend wire i pkt w)
  unfolding ContactHandler.on_delete_friend
  delete_friend-Answers w =
      elim (Option-cases (wire.delete_friend_request_format.parse pkt.payload)) [
        | inl bad ↦ rw (bad, ContactHandler.on_delete_friend) (contact_error w w _ _ (λ j. refl))
        | inr (req, good) ↦
            rw (good, ContactHandler.on_delete_friend)
              (contact_valid req.token _ w (λ user. finish_delete-Answers _ w))
      ]
