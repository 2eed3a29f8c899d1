-- ===== src/Client/ContactService.antt =====
-- client/src/service/ContactService.cpp
use nova_chat.Prelude.{
  not, Option, none, some, List, [], ◌∷◌, ◌++◌, ◌==◌, if◌then◌else◌, map, filter,
}
use nova_chat.Prelude.Text.{Text, text_eq}
use nova_chat.MessageType.{
  get_contacts_request, get_contacts_response, add_friend_request, add_friend_response,
  delete_friend_request, delete_friend_response, search_user_request, search_user_response,
  error_response,
}
use nova_chat.Codec.{Packet}
use nova_chat.Proto.{Wire, ContactInfo, AddFriendResponse}
use nova_chat.Client.Db.Tables.{Contact}
use nova_chat.Client.Db.Contacts
use nova_chat.Client.App.{
  App, User, on_contacts, on_friend_added, on_friend_deleted, on_search, contacts_synced,
  contact_added, contact_deleted, search_result, operation_failed, auth_has_expired, emit, request,
  is_auth_expired,
}

unfoldable pub to_contact : Text → ContactInfo → Contact
to_contact owner_id ci = record {
  user_id = ci.user_id;
  owner_id = owner_id;
  username = ci.username;
  display_name = ci.display_name;
  avatar_url = ci.avatar_url;
}

-- searchUser leaves the owner and the avatar empty
unfoldable pub to_result : ContactInfo → Contact
to_result ci = record {
  user_id = ci.user_id;
  owner_id = [];
  username = ci.username;
  display_name = ci.display_name;
  avatar_url = [];
}

-- `contact()` of a message in which it is not set
abbrev pub contact_of : AddFriendResponse → ContactInfo
contact_of r = elim r.contact [
  | none ↦ record { user_id = []; username = []; display_name = []; avatar_url = [] }
  | some ci ↦ ci
]

-- the constructor: the list is that of the last time
unfoldable pub new_service : User → App → App
new_service user a = record a {
  current_user = user;
  contacts = Contacts.find_all user.server_id a.db;
}

module _ (wire : Wire) where
  -- the branch for an ErrorResponse, which three lambdas share
  unfoldable pub fail : Packet → App → App
  fail resp a =
      let er = wire.error_content resp.payload in
      if is_auth_expired er then emit a auth_has_expired else emit a (operation_failed er.message)

  unfoldable pub sync_contacts : App → App
  sync_contacts a =
      request get_contacts_request
        (wire.get_contacts_request_format.serialize (record { token = a.current_user.token }))
        on_contacts a

  -- `none` where replaceAll's statement is not the one that was meant
  unfoldable pub store_contacts : List Contact → App → Option App
  store_contacts list a = elim (Contacts.replace_all a.current_user.server_id list a.db) [
    | none ↦ none
    | some db ↦ some (emit (record a { db = db; contacts = list }) (contacts_synced list))
  ]

  -- the lambda of syncContacts
  unfoldable pub contacts_answered : Packet → App → Option App
  unfolding store_contacts
  contacts_answered resp a =
      if resp.type == get_contacts_response
      then elim (wire.get_contacts_response_format.parse resp.payload) [
        | none ↦ some a
        | some infos ↦ store_contacts (map (to_contact a.current_user.server_id) infos) a
      ]
      else if resp.type == error_response
      then some (fail resp a)
      else some a

  unfoldable pub add_friend : Text → App → App
  add_friend target_user_id a =
      request add_friend_request
        (wire.add_friend_request_format.serialize
          (record { token = a.current_user.token; target_user_id = target_user_id }))
        on_friend_added a

  unfoldable pub store_contact : Contact → App → App
  store_contact c a =
      emit (record a { db = Contacts.save c a.db; contacts = a.contacts ++ c ∷ [] })
        (contact_added c)

  -- the lambda of addFriend
  unfoldable pub friend_added : Packet → App → App
  unfolding store_contact
  friend_added resp a =
      if resp.type == add_friend_response
      then elim (wire.add_friend_response_format.parse resp.payload) [
        | none ↦ a
        | some r ↦ store_contact (to_contact a.current_user.server_id (contact_of r)) a
      ]
      else if resp.type == error_response
      then fail resp a
      else a

  unfoldable pub delete_friend : Text → App → App
  delete_friend target_user_id a =
      request delete_friend_request
        (wire.delete_friend_request_format.serialize
          (record { token = a.current_user.token; target_user_id = target_user_id }))
        (on_friend_deleted target_user_id) a

  -- the lambda of deleteFriend
  unfoldable pub friend_deleted : Text → Packet → App → App
  friend_deleted target_user_id resp a =
      if resp.type == delete_friend_response
      then emit
          (record a {
            db = Contacts.remove a.current_user.server_id target_user_id a.db;
            contacts = filter (λ c. not (text_eq c.user_id target_user_id)) a.contacts;
          })
          (contact_deleted target_user_id)
      else if resp.type == error_response
      then fail resp a
      else a

  unfoldable pub search_user : Text → App → App
  search_user keyword a =
      request search_user_request
        (wire.search_user_request_format.serialize
          (record { token = a.current_user.token; keyword = keyword }))
        on_search a

  -- the lambda of searchUser
  unfoldable pub search_answered : Packet → App → App
  search_answered resp a =
      if resp.type == search_user_response
      then elim (wire.search_user_response_format.parse resp.payload) [
        | none ↦ a
        | some infos ↦ emit a (search_result (map to_result infos))
      ]
      else a
