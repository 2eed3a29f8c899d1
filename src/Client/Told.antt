-- ===== src/Client/Told.antt =====
-- What the lambdas and slots of client/src/service announce: each changes what the windows show only
-- together with the signal that tells them.
use nova_chat.Prelude.{◌≡◌, refl, subst, Option, some, List, [], ◌∷◌, ◌++◌, ◌==◌, map, filter, not}
use mathlib.Core.Option.{some-injective}
use nova_chat.Prelude.Branches.{either, parsed}
use nova_chat.Prelude.Text.{Text, text_eq}
use nova_chat.MessageType.{
  login_response, register_response, get_contacts_response, add_friend_response,
  delete_friend_response, search_user_response, send_message_response, get_history_response,
  get_conversations_response, error_response, message_push,
}
use nova_chat.Codec.{Packet}
use nova_chat.Proto.{Wire}
use nova_chat.Client.TcpClient.{
  Signal, connected, disconnected, reconnecting, connection_failed, packet_received,
}
use nova_chat.Client.Db.Tables.{Contact, Message}
use nova_chat.Client.Db.Contacts
use nova_chat.Client.App.{
  App, Event, Callback, on_login, on_register, on_contacts, on_friend_added, on_friend_deleted,
  on_search, on_message_sent, on_history, on_conversations, check_auth_expired, is_auth_expired,
  contacts_synced, contact_added, contact_deleted, conversations_loaded, message_received,
}
use nova_chat.Client.AuthService.{login_answered, register_answered, store_login}
use nova_chat.Client.ContactService.{
  fail, contacts_answered, store_contacts, store_contact, friend_added, friend_deleted,
  search_answered, to_contact, contact_of,
}
use nova_chat.Client.ChatService.{
  message_answered, history_answered, conversations_answered, refresh_conversations,
  on_packet_received, handle_message_push, take_push, from_info,
}
use nova_chat.Client.EventLoop.{run_callback, take_signal}

-- No list of contacts or conversations changes with this signal.
abbrev pub IsOther : Event → Type 0
IsOther (contacts_synced cs) = ⊥
IsOther (contact_added c) = ⊥
IsOther (contact_deleted id) = ⊥
IsOther (conversations_loaded cs) = ⊥
IsOther (message_received m) = ⊥
IsOther other = Unit

abbrev pub All : (Event → Type 0) → List Event → Type 0
All P [] = Unit
All P (e ∷ es) = P e × All P es

-- From `a`, which had nothing to announce, the services came to `x`, whose events are to be told.
pub data Told (a x : App) : Type 0 where
  others :
      x.current_user ≡ a.current_user
      → x.contacts ≡ a.contacts
      → x.conversations ≡ a.conversations
      → All IsOther x.events
      → Told a x
  synced :
      x.current_user ≡ a.current_user
      → x.conversations ≡ a.conversations
      → x.events ≡ contacts_synced x.contacts ∷ []
      → Told a x
  added :
      (c : Contact)
      → x.current_user ≡ a.current_user
      → x.contacts ≡ a.contacts ++ c ∷ []
      → x.conversations ≡ a.conversations
      → x.events ≡ contact_added c ∷ []
      → Told a x
  deleted :
      (id : Text)
      → x.current_user ≡ a.current_user
      → x.contacts ≡ filter (λ c. not (text_eq c.user_id id)) a.contacts
      → x.conversations ≡ a.conversations
      → x.events ≡ contact_deleted id ∷ []
      → Told a x
  loaded :
      x.current_user ≡ a.current_user
      → x.contacts ≡ a.contacts
      → x.events ≡ conversations_loaded x.conversations ∷ []
      → Told a x
  pushed :
      (m : Message)
      → x.current_user ≡ a.current_user
      → x.contacts ≡ a.contacts
      → x.events ≡ message_received m ∷ []
      → Told a x

module _ (wire : Wire) (a : App) (quiet : a.events ≡ []) where
  abbrev ToldIf : Option App → Type 0
  ToldIf o = (x : App) → o ≡ some x → Told a x

  once : (y : App) → Told a y → ToldIf (some y)
  once y t x e = subst (Told a) (some-injective y x e) t

  unchanged : Told a a
  unchanged = others refl refl refl (rw quiet tt)

  by_login : (username : Text) (resp : Packet) → Told a (login_answered wire username resp a)
  unfolding login_answered store_login
  by_login username resp =
      either (Told a) (resp.type == login_response)
        (parsed (Told a) (wire.login_response_format.parse resp.payload)
          (others refl refl refl (rw quiet (tt, tt)))
          (λ lr. others refl refl refl (rw quiet (tt, tt))))
        (either (Told a) (resp.type == error_response) (others refl refl refl (rw quiet (tt, tt)))
          unchanged)

  by_register : (resp : Packet) → Told a (register_answered wire resp a)
  unfolding register_answered
  by_register resp =
      either (Told a) (resp.type == register_response) (others refl refl refl (rw quiet (tt, tt))) (
        either (Told a) (resp.type == error_response) (others refl refl refl (rw quiet (tt, tt)))
          unchanged)

  by_failure : (resp : Packet) → Told a (fail wire resp a)
  unfolding fail
  by_failure resp =
      either (Told a) (is_auth_expired (wire.error_content resp.payload))
        (others refl refl refl (rw quiet (tt, tt))) (others refl refl refl (rw quiet (tt, tt)))

  by_stored : (list : List Contact) → ToldIf (store_contacts wire list a)
  unfolding store_contacts
  by_stored list =
      parsed ToldIf (Contacts.replace_all a.current_user.server_id list a.db) (λ x e. cc)
        (λ db. once _ (synced refl refl (rw quiet refl)))

  by_contacts : (resp : Packet) → ToldIf (contacts_answered wire resp a)
  unfolding contacts_answered
  by_contacts resp =
      either ToldIf (resp.type == get_contacts_response)
        (parsed ToldIf (wire.get_contacts_response_format.parse resp.payload) (once a unchanged)
          (λ infos. by_stored (map (to_contact a.current_user.server_id) infos)))
        (either ToldIf (resp.type == error_response) (once (fail wire resp a) (by_failure resp))
          (once a unchanged))

  by_added : (resp : Packet) → Told a (friend_added wire resp a)
  unfolding friend_added store_contact
  by_added resp =
      either (Told a) (resp.type == add_friend_response)
        (parsed (Told a) (wire.add_friend_response_format.parse resp.payload) unchanged (λ r.
          added (to_contact a.current_user.server_id (contact_of r)) refl refl refl
            (rw quiet refl)))
        (either (Told a) (resp.type == error_response) (by_failure resp) unchanged)

  by_deleted : (id : Text) (resp : Packet) → Told a (friend_deleted wire id resp a)
  unfolding friend_deleted
  by_deleted id resp =
      either (Told a) (resp.type == delete_friend_response)
        (deleted id refl refl refl (rw quiet refl))
        (either (Told a) (resp.type == error_response) (by_failure resp) unchanged)

  by_search : (resp : Packet) → Told a (search_answered wire resp a)
  unfolding search_answered
  by_search resp =
      either (Told a) (resp.type == search_user_response)
        (parsed (Told a) (wire.search_user_response_format.parse resp.payload) unchanged
          (λ infos. others refl refl refl (rw quiet (tt, tt))))
        unchanged

  by_message : (id : Text) (resp : Packet) → Told a (message_answered wire id resp a)
  unfolding message_answered check_auth_expired
  by_message id resp =
      either (Told a) (resp.type == send_message_response)
        (parsed (Told a) (wire.send_message_response_format.parse resp.payload) unchanged
          (λ r. others refl refl refl (rw quiet tt)))
        (either (Told a) (resp.type == error_response)
          (either (Told a) (is_auth_expired (wire.error_content resp.payload))
            (others refl refl refl (rw quiet (tt, (tt, tt))))
            (others refl refl refl (rw quiet (tt, tt))))
          unchanged)

  by_history : (id : Text) (resp : Packet) → Told a (history_answered wire id resp a)
  unfolding history_answered
  by_history id resp =
      either (Told a) (resp.type == get_history_response)
        (parsed (Told a) (wire.get_history_response_format.parse resp.payload) unchanged
          (λ r. others refl refl refl (rw quiet (tt, tt))))
        unchanged

  by_conversations : (resp : Packet) → Told a (conversations_answered wire resp a)
  unfolding conversations_answered refresh_conversations
  by_conversations resp =
      either (Told a) (resp.type == get_conversations_response)
        (parsed (Told a) (wire.get_conversations_response_format.parse resp.payload) unchanged
          (λ r. loaded refl refl (rw quiet refl)))
        unchanged

  by_callback : (cb : Callback) (resp : Packet) → ToldIf (run_callback wire cb resp a)
  unfolding run_callback
  by_callback (on_login username) resp = once _ (by_login username resp)
  by_callback on_register resp = once _ (by_register resp)
  by_callback on_contacts resp = by_contacts resp
  by_callback on_friend_added resp = once _ (by_added resp)
  by_callback (on_friend_deleted id) resp = once _ (by_deleted id resp)
  by_callback on_search resp = once _ (by_search resp)
  by_callback (on_message_sent id) resp = once _ (by_message id resp)
  by_callback (on_history id) resp = once _ (by_history id resp)
  by_callback on_conversations resp = once _ (by_conversations resp)

  -- a packet that answers no request
  pub by_signal : (s : Signal) → Told a (take_signal wire s a)
  unfolding take_signal on_packet_received handle_message_push take_push refresh_conversations
  by_signal (packet_received pkt) =
      either (Told a) (pkt.type == message_push)
        (parsed (Told a) (wire.message_push_format.parse pkt.payload) unchanged
          (λ push. pushed (from_info push) refl refl (rw quiet refl)))
        unchanged
  by_signal connected = unchanged
  by_signal disconnected = unchanged
  by_signal (reconnecting attempt delay) = unchanged
  by_signal connection_failed = unchanged

-- Whichever request is answered, and whatever the answer is.
pub run_callback-Told :
    (wire : Wire) (cb : Callback) (resp : Packet) (a x : App)
    → a.events ≡ []
    → run_callback wire cb resp a ≡ some x
    → Told a x
run_callback-Told wire cb resp a x quiet run = by_callback wire a quiet cb resp x run
