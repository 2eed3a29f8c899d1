-- ===== src/Tests/ServerCases.antt =====
-- Packets, handlers and conversation ids of the server.
use nova_chat.Prelude.{
  ℕ, ◌^◌, ◌≡◌, ◌<◌, refl, none, some, List, [], ◌∷◌, ◌++◌, ap, ◌∙◌, append-nil, take-append-drop,
  arith, take, drop, subst, inl, inr, Bool-cases, ==_iff, ◌==◌, if◌then◌else◌, All,
}
use nova_chat.Prelude.Text.{bytes, text_eq}
use nova_chat.Prelude.Dict.{get, member}
use nova_chat.MessageType.{
  get_contacts_request, send_message_request, login_request, logout_request,
}
use nova_chat.Codec.{Bytes, Packet, encode, feed_all, feed, feed_loop}
use nova_chat.Codec.Frame.{IsPacket}
use nova_chat.Codec.Stream.{join, encode_all, feed-encode, feed_all-encode_all, feed_fuel}
use nova_chat.Proto.{SendMessageRequest, auth_expired}
use nova_chat.Server.Storage.{friend_set, find_by_token}
use nova_chat.Server.Storage.Accounts.{IsIndexed, IsFresh}
use nova_chat.Server.Storage.Friends.{are_friends}
use nova_chat.Server.World.{put_session}
use nova_chat.Server.Soundness.{IsSound, IsSafe, Returns}
use nova_chat.Server.Runs.{IsFreshRead, fresh_for, none_left, on_read-IsSafe}
use nova_chat.Server.Chunks.{reads, serve, reads-serve}
use nova_chat.Server.Chunks.Decoding.{of_session}
use nova_chat.Prelude.Branches.{either}
use nova_chat.Server.Answering.{Answers}
use nova_chat.Server.Replies.{dispatch-Answers}
use nova_chat.Server.Access.{contacts_need_token, chat_needs_token, logout_lem}
use nova_chat.Server.AuthHandler
use nova_chat.Server.ContactHandler
use nova_chat.Server.ChatHandler
use nova_chat.Server.ChatHandler.{make_conv_id, peer_of, preview, on_send_message}
use nova_chat.Server.Dispatch.{dispatch, on_read}
use nova_chat.Tests.Data.{
  test_wire, test_json, empty_store, store, world_of, world, packet, alice, asks,
}

pub packet-IsPacket : (type : ℕ) → type < 2 ^ 16 → IsPacket (packet type)
packet-IsPacket type h = record {
  type_fits = h;
  seq_fits = omega arith;
  payload_fits = omega arith;
}

abbrev two : List Packet
two = packet login_request ∷ packet send_message_request ∷ []

abbrev halves : List Bytes
halves = take 5 (encode_all two) ∷ drop 5 (encode_all two) ∷ []

abbrev rubbish : Bytes
rubbish = 1 ∷ 2 ∷ 3 ∷ 4 ∷ 5 ∷ 6 ∷ 7 ∷ 8 ∷ 9 ∷ 10 ∷ 11 ∷ 12 ∷ 13 ∷ []

feed_all-encode_all_example : feed_all [] halves ≡ (two, [])
feed_all-encode_all_example =
    feed_all-encode_all two halves
      (
        packet-IsPacket login_request (omega arith),
        (packet-IsPacket send_message_request (omega arith), tt),
      )
      (ap (λ r. take 5 (encode_all two) ++ r) (append-nil (drop 5 (encode_all two)))
        ∙ take-append-drop 5 (encode_all two))

-- session 7 asks for its contacts while the packets of session 4 come in two parts
abbrev mixed : List (ℕ × Bytes)
mixed =
    (4, take 5 (encode_all two))
    ∷ (7, encode_all (packet get_contacts_request ∷ []))
    ∷ (4, drop 5 (encode_all two))
    ∷ []

abbrev sent_by : ℕ → List Packet
sent_by i = if 4 == i then two else if 7 == i then packet get_contacts_request ∷ [] else []

sent_by-IsPacket : (i : ℕ) → All IsPacket (sent_by i)
sent_by-IsPacket i =
    either (All IsPacket) (4 == i)
      (
        packet-IsPacket login_request (omega arith),
        (packet-IsPacket send_message_request (omega arith), tt),
      )
      (either (All IsPacket) (7 == i) (packet-IsPacket get_contacts_request (omega arith), tt) tt)

mixed_whole : (i : ℕ) → join (of_session i mixed) ≡ encode_all (sent_by i)
mixed_whole i = elim (Bool-cases (4 == i)) [
  | inl first ↦
      subst (λ k. join (of_session k mixed) ≡ encode_all (sent_by k)) ((==_iff 4 i).0 first)
        (ap (λ r. take 5 (encode_all two) ++ r) (append-nil (drop 5 (encode_all two)))
          ∙ take-append-drop 5 (encode_all two))
  | inr other ↦ elim (Bool-cases (7 == i)) [
    | inl second ↦
        subst (λ k. join (of_session k mixed) ≡ encode_all (sent_by k)) ((==_iff 7 i).0 second)
          (append-nil _)
    | inr neither ↦ rw other (rw neither refl)
  ]
]

reads-serve_example :
    (served : List (ℕ × Packet)) × ((i : ℕ) → of_session i served ≡ sent_by i)
    × (reads test_wire test_json mixed world ≡ serve test_wire test_json served world)
reads-serve_example =
    reads-serve test_wire test_json mixed sent_by world (λ i. refl) sent_by-IsPacket mixed_whole

feed_fuel_example : feed_loop 40 ([] ++ rubbish) ≡ feed [] rubbish
feed_fuel_example = feed_fuel 40 [] rubbish (omega arith)

empty-IsIndexed : IsIndexed empty_store
unfolding get
empty-IsIndexed = record {
  named = λ name id h. cc;
  listed = λ id rec h. cc;
  signed_in = λ token id h. cc;
}

empty-IsSound : IsSound empty_store
unfolding are_friends friend_set member get
empty-IsSound = record { indexed = empty-IsIndexed; both_ways = λ a b. refl }

empty-IsFresh : IsFresh empty_store
unfolding get
empty-IsFresh = refl

login_is_fresh :
    IsFreshRead test_wire test_json 4 (encode (packet login_request)) (world_of empty_store)
unfolding get put_session
login_is_fresh =
    rw (feed-encode (packet login_request) (packet-IsPacket login_request (omega arith)))
      (fresh_for empty-IsFresh (λ w e. none_left))

on_read-IsSafe_example :
    Returns IsSafe
      (on_read test_wire test_json 4 (some (encode (packet login_request))) (world_of empty_store))
on_read-IsSafe_example =
    on_read-IsSafe test_wire test_json 4 (encode (packet login_request)) (world_of empty_store)
      login_is_fresh empty-IsSound

dispatch-Answers_example :
    Returns
      (Answers 4 3 (world_of empty_store))
      (dispatch test_wire test_json 4 (packet login_request) (world_of empty_store))
dispatch-Answers_example =
    dispatch-Answers test_wire test_json 4 (packet login_request) (world_of empty_store) refl
      empty-IsIndexed

abbrev hello : SendMessageRequest
hello = record {
  token = bytes "t";
  local_msg_id = bytes "l";
  receiver_id = bytes "u2";
  content = bytes "hi";
}

pub alice_signed_in : find_by_token store (bytes "t") ≡ some alice
unfolding find_by_token get text_eq
alice_signed_in = refl

nobody_signed_in : find_by_token empty_store (bytes "t") ≡ none
unfolding find_by_token get
nobody_signed_in = refl

contacts_need_token_example :
    ContactHandler.handle test_wire 4 (packet get_contacts_request) (world_of empty_store)
    ≡ ContactHandler.send_error test_wire 4 3 auth_expired
        (bytes "Token invalid or expired")
        (world_of empty_store)
contacts_need_token_example =
    contacts_need_token test_wire 4 (packet get_contacts_request) (world_of empty_store) (bytes "t")
      refl nobody_signed_in

chat_needs_token_example :
    ChatHandler.handle test_wire 4 (packet send_message_request) (world_of empty_store)
    ≡ ChatHandler.send_error test_wire 4 3 auth_expired
        (bytes "Token invalid")
        (world_of empty_store)
chat_needs_token_example =
    chat_needs_token test_wire 4 (packet send_message_request) (world_of empty_store) (bytes "t")
      refl nobody_signed_in

logout_example :
    ((AuthHandler.on_logout_request test_wire 7 (packet logout_request) world).session 7).user_id
    ≡ []
logout_example = (logout_lem test_wire 7 (packet logout_request) world asks refl).1
