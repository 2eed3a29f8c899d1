-- ===== src/Server/Access.antt =====
-- What a token opens: requests with a bad one change nothing, and what a logout takes away.
use nova_chat.Prelude.{
  ℕ, ◌≡◌, refl, Bool, ◌==◌, Option, none, some, [], if◌then◌else◌, arith, map, length,
}
use nova_chat.Prelude.Text.{Text, bytes, text_eq}
use nova_chat.Prelude.Int.{ℤ, pos, eq_int}
use nova_chat.Codec.{Packet}
use nova_chat.Proto.{Wire, TokenRequest, GetHistoryRequest, auth_expired}
use nova_chat.Server.Storage.{UserRecord, find_by_token, find_session, get_history, remove_session}
use nova_chat.Server.Storage.Tokens.{find_by_token-remove_session}
use nova_chat.Server.World.{World, set_user_id, with_storage, send_packet}
use nova_chat.MessageType.{
  get_history_response, get_contacts_request, add_friend_request, delete_friend_request,
  search_user_request, send_message_request, get_history_request, get_conversations_request,
}
use mathlib.Core.Option
use nova_chat.Server.AuthHandler
use nova_chat.Server.ContactHandler
use nova_chat.Server.ChatHandler

-- The token that a packet of a known contact request carries, if its payload parses.
abbrev pub contact_token : Wire → Packet → Option Text
contact_token wire pkt =
    if pkt.type == get_contacts_request
    then Option.map (λ r. r.token) (wire.get_contacts_request_format.parse pkt.payload)
    else if pkt.type == add_friend_request
    then Option.map (λ r. r.token) (wire.add_friend_request_format.parse pkt.payload)
    else if pkt.type == delete_friend_request
    then Option.map (λ r. r.token) (wire.delete_friend_request_format.parse pkt.payload)
    else if pkt.type == search_user_request
    then Option.map (λ r. r.token) (wire.search_user_request_format.parse pkt.payload)
    else none

-- The token that a packet of a known chat request carries, if its payload parses.
abbrev pub chat_token : Wire → Packet → Option Text
chat_token wire pkt =
    if pkt.type == send_message_request
    then Option.map (λ r. r.token) (wire.send_message_request_format.parse pkt.payload)
    else if pkt.type == get_history_request
    then Option.map (λ r. r.token) (wire.get_history_request_format.parse pkt.payload)
    else if pkt.type == get_conversations_request
    then Option.map (λ r. r.token) (wire.get_conversations_request_format.parse pkt.payload)
    else none

none-some : {t : Text} → none ≡ some t → ⊥
none-some e = cc

module _ (wire : Wire) (i : ℕ) (pkt : Packet) (w : World) (token : Text) where
  -- Every contact request reads its payload and then asks for its token's user.
  contact_refused :
      {M : Type 0} (o : Option M) (token_of : M → Text) (k : M → UserRecord → World → World)
      (bad : World)
      → Option.map token_of o ≡ some token
      → find_by_token w.storage token ≡ none
      → elim o [
        | none ↦ bad
        | some req ↦
            ContactHandler.if_valid wire
              (ContactHandler.validate_token wire i (token_of req) pkt.seq_id w)
              (k req)
      ]
        ≡ ContactHandler.send_error wire i pkt.seq_id auth_expired
            (bytes "Token invalid or expired")
            w
  unfolding ContactHandler.validate_token
  contact_refused none token_of k bad t h = absurd (none-some t)
  contact_refused (some req) token_of k bad t h =
      let e : token_of req ≡ token = ground arith in rw e (rw (h, ContactHandler.validate_token))

  get_contacts_refused :
      Option.map (λ r. r.token) (wire.get_contacts_request_format.parse pkt.payload) ≡ some token
      → find_by_token w.storage token ≡ none
      → ContactHandler.on_get_contacts wire i pkt w
        ≡ ContactHandler.send_error wire i pkt.seq_id auth_expired
            (bytes "Token invalid or expired")
            w
  unfolding ContactHandler.on_get_contacts
  get_contacts_refused =
      contact_refused (wire.get_contacts_request_format.parse pkt.payload) (λ r. r.token) _ _

  add_friend_refused :
      Option.map (λ r. r.token) (wire.add_friend_request_format.parse pkt.payload) ≡ some token
      → find_by_token w.storage token ≡ none
      → ContactHandler.on_add_friend wire i pkt w
        ≡ ContactHandler.send_error wire i pkt.seq_id auth_expired
            (bytes "Token invalid or expired")
            w
  unfolding ContactHandler.on_add_friend
  add_friend_refused =
      contact_refused (wire.add_friend_request_format.parse pkt.payload) (λ r. r.token) _ _

  delete_friend_refused :
      Option.map (λ r. r.token) (wire.delete_friend_request_format.parse pkt.payload) ≡ some token
      → find_by_token w.storage token ≡ none
      → ContactHandler.on_delete_friend wire i pkt w
        ≡ ContactHandler.send_error wire i pkt.seq_id auth_expired
            (bytes "Token invalid or expired")
            w
  unfolding ContactHandler.on_delete_friend
  delete_friend_refused =
      contact_refused (wire.delete_friend_request_format.parse pkt.payload) (λ r. r.token) _ _

  search_user_refused :
      Option.map (λ r. r.token) (wire.search_user_request_format.parse pkt.payload) ≡ some token
      → find_by_token w.storage token ≡ none
      → ContactHandler.on_search_user wire i pkt w
        ≡ ContactHandler.send_error wire i pkt.seq_id auth_expired
            (bytes "Token invalid or expired")
            w
  unfolding ContactHandler.on_search_user
  search_user_refused =
      contact_refused (wire.search_user_request_format.parse pkt.payload) (λ r. r.token) _ _

  -- A contact request that parses, under a token that leads to no user, is answered AUTH_EXPIRED,
  -- and that is all that happens: no friendship changes and nothing is read out.
  pub contacts_need_token :
      contact_token wire pkt ≡ some token
      → find_by_token w.storage token ≡ none
      → ContactHandler.handle wire i pkt w
        ≡ ContactHandler.send_error wire i pkt.seq_id auth_expired
            (bytes "Token invalid or expired")
            w
  unfolding ContactHandler.handle
  contacts_need_token t h =
      ground (
        arith, get_contacts_refused, add_friend_refused, delete_friend_refused, search_user_refused,
      )

  -- Every chat request does so too.
  chat_refused :
      {M : Type 0} (o : Option M) (token_of : M → Text) (k : M → UserRecord → World → World)
      (bad : World)
      → Option.map token_of o ≡ some token
      → find_by_token w.storage token ≡ none
      → elim o [
        | none ↦ bad
        | some req ↦
            ChatHandler.if_valid wire
              (ChatHandler.validate_token wire i (token_of req) pkt.seq_id w)
              (k req)
      ]
        ≡ ChatHandler.send_error wire i pkt.seq_id auth_expired (bytes "Token invalid") w
  unfolding ChatHandler.validate_token
  chat_refused none token_of k bad t h = absurd (none-some t)
  chat_refused (some req) token_of k bad t h =
      let e : token_of req ≡ token = ground arith in rw e (rw (h, ChatHandler.validate_token))

  send_message_refused :
      Option.map (λ r. r.token) (wire.send_message_request_format.parse pkt.payload) ≡ some token
      → find_by_token w.storage token ≡ none
      → ChatHandler.on_send_message wire i pkt w
        ≡ ChatHandler.send_error wire i pkt.seq_id auth_expired (bytes "Token invalid") w
  unfolding ChatHandler.on_send_message
  send_message_refused =
      chat_refused (wire.send_message_request_format.parse pkt.payload) (λ r. r.token) _ _

  get_history_refused :
      Option.map (λ r. r.token) (wire.get_history_request_format.parse pkt.payload) ≡ some token
      → find_by_token w.storage token ≡ none
      → ChatHandler.on_get_history wire i pkt w
        ≡ ChatHandler.send_error wire i pkt.seq_id auth_expired (bytes "Token invalid") w
  unfolding ChatHandler.on_get_history
  get_history_refused =
      chat_refused (wire.get_history_request_format.parse pkt.payload) (λ r. r.token) _ _

  get_conversations_refused :
      Option.map (λ r. r.token) (wire.get_conversations_request_format.parse pkt.payload)
        ≡ some token
      → find_by_token w.storage token ≡ none
      → ChatHandler.on_get_conversations wire i pkt w
        ≡ ChatHandler.send_error wire i pkt.seq_id auth_expired (bytes "Token invalid") w
  unfolding ChatHandler.on_get_conversations
  get_conversations_refused =
      chat_refused (wire.get_conversations_request_format.parse pkt.payload) (λ r. r.token) _ _

  -- A chat request that parses, under a token that leads to no user, is answered AUTH_EXPIRED, and
  -- that is all that happens: no message is stored or pushed, and no history or conversation is
  -- read out.
  pub chat_needs_token :
      chat_token wire pkt ≡ some token
      → find_by_token w.storage token ≡ none
      → ChatHandler.handle wire i pkt w
        ≡ ChatHandler.send_error wire i pkt.seq_id auth_expired (bytes "Token invalid") w
  unfolding ChatHandler.handle
  chat_needs_token t h =
      ground (arith, send_message_refused, get_history_refused, get_conversations_refused)

-- A logout that parses takes the token away: afterwards it leads to no user, every other token
-- leads where it led, and the session has no user. But the registry of online sessions is not
-- touched, so a user who was online there still is, and goes on being sent messages.
pub logout_lem :
    (wire : Wire) (i : ℕ) (pkt : Packet) (w : World) (req : TokenRequest)
    → wire.logout_request_format.parse pkt.payload ≡ some req
    → let w' : World = AuthHandler.on_logout_request wire i pkt w in
      ((token : Text)
        → find_by_token w'.storage token
          ≡ (if text_eq req.token token then none else find_by_token w.storage token))
      × ((w'.session i).user_id ≡ [])
      × ((alive : ℕ → Bool) (user_id : Text)
          → find_session alive w'.storage user_id ≡ find_session alive w.storage user_id)
unfolding AuthHandler.on_logout_request set_user_id with_storage remove_session
logout_lem wire i pkt w req e =
    rw (e, AuthHandler.on_logout_request)
      (
        λ token. find_by_token-remove_session w.storage req.token token,
        ground arith,
        λ alive user_id. (unfold find_session in refl),
      )

-- Whoever has a valid token is sent the page of any conversation by its id, on a request that
-- parses: the code does not ask whether the user takes part in it. The limit is brought between 1
-- and 50.
pub get_history_any_user :
    (wire : Wire) (i : ℕ) (pkt : Packet) (w : World) (req : GetHistoryRequest) (user : UserRecord)
    → wire.get_history_request_format.parse pkt.payload ≡ some req
    → find_by_token w.storage req.token ≡ some user
    → let limit : ℤ = ChatHandler.clamp req.limit (pos 1) (pos 50) in
      let page = get_history w.storage req.conversation_id req.before_timestamp limit in
      ChatHandler.on_get_history wire i pkt w
      ≡ send_packet w i (record {
        type = get_history_response;
        seq_id = pkt.seq_id;
        payload = wire.get_history_response_format.serialize (record {
          messages = map ChatHandler.to_message_info page;
          has_more = eq_int (pos (length page)) limit;
        });
      })
unfolding ChatHandler.on_get_history ChatHandler.validate_token ChatHandler.history_page
get_history_any_user wire i pkt w req user e t =
    rw (e, ChatHandler.on_get_history) (rw (t, ChatHandler.validate_token) refl)
