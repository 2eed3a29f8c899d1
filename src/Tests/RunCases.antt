-- ===== src/Tests/RunCases.antt =====
-- A server is started without a file. A session registers carol and dave, logs carol in and then makes
-- the two friends, or sends dave a message.
use nova_chat.Prelude.{ℕ, ◌≡◌, refl, ap, ◌∙◌, true, none, some, [], arith, All}
use nova_chat.Prelude.Text.{Text, bytes, text_eq}
use nova_chat.Prelude.Dict.{get, put}
use nova_chat.Prelude.Int.{pos}
use nova_chat.MessageType.{
  register_request, login_request, add_friend_request, send_message_request,
}
use nova_chat.Codec.{Packet, encode}
use nova_chat.Codec.Frame.{IsPacket}
use nova_chat.Proto.{Wire}
use nova_chat.Server.Hex.{Rng, generate_id, generate_token, generate_hex, hex_byte, hex_digit}
use nova_chat.Server.Storage.{
  UserRecord, conversation, returned, register_user, authenticate, check_password,
}
use nova_chat.Server.Storage.Friends.{are_friends}
use nova_chat.Server.Persist.{load_from_file}
use nova_chat.Server.World.{World, put_session, set_user_id, with_storage, send_packet}
use nova_chat.Server.AuthHandler
use nova_chat.Server.ContactHandler
use nova_chat.Server.ChatHandler
use nova_chat.Server.ChatHandler.{make_conv_id}
use nova_chat.Server.Dispatch.{dispatch}
use nova_chat.Server.Process.{start, new_storage, accept, Step, accepted, has_read, Run, done, more}
use nova_chat.Server.Effects.{Effect, dispatch-Effect}
use nova_chat.Server.Authors.{IsAuthored}
use nova_chat.Server.Runs.{Run-IsMutual, Run-IsAuthored}
use nova_chat.Exchange.Reads.{on_read-encode}
use nova_chat.Tests.Data.{constant, test_wire, test_json}

abbrev draws : Rng
draws n = n

abbrev carol_id : Text
carol_id = (generate_id draws).0

abbrev dave_id : Text
dave_id = (generate_id (generate_id draws).1).0

abbrev carol_token : Text
carol_token = (generate_token (generate_id (generate_id draws).1).1).0

-- A registration's payload is the name.
abbrev wire : Wire
wire = record test_wire {
  register_request_format = record {
    parse = λ b. some (record { username = b; password = bytes "p"; display_name = b });
    serialize = λ x. [];
  };
  login_request_format = constant (record { username = bytes "carol"; password = bytes "p" });
  add_friend_request_format = constant (record { token = carol_token; target_user_id = dave_id });
  send_message_request_format = constant (record {
    token = carol_token;
    local_msg_id = bytes "l";
    receiver_id = dave_id;
    content = bytes "hi";
  });
}

abbrev packet : ℕ → Text → Packet
packet type payload = record { type = type; seq_id = 3; payload = payload }

abbrev started : World
started = start test_json draws (pos 5) none

abbrev connected : World
connected = accept 4 started

abbrev with_carol : World
with_carol =
    AuthHandler.on_register_request wire test_json 4 (packet register_request (bytes "carol"))
      connected

abbrev with_dave : World
with_dave =
    AuthHandler.on_register_request wire test_json 4 (packet register_request (bytes "dave"))
      with_carol

abbrev carol : UserRecord
carol = record {
  user_id = carol_id;
  username = bytes "carol";
  display_name = bytes "carol";
  password = bytes "p";
}

abbrev signed_in : World
signed_in = AuthHandler.log_in wire 4 (packet login_request []) carol with_dave

abbrev with_friend : World
with_friend = ContactHandler.on_add_friend wire 4 (packet add_friend_request []) signed_in

abbrev with_message : World
with_message = ChatHandler.on_send_message wire 4 (packet send_message_request []) signed_in

-- A read of one whole packet is a step.
read_step :
    (p : Packet) (w w' : World)
    → (w.session 4).alive ≡ true
    → (w.session 4).buffer ≡ []
    → IsPacket p
    → dispatch wire test_json 4 p w ≡ returned w'
    → Step wire test_json w w'
read_step p w w' there empty fits ran =
    has_read 4 (some (encode p)) there (on_read-encode wire test_json 4 p w empty fits ∙ ran)

accepts : Step wire test_json started connected
unfolding start new_storage load_from_file get
accepts = accepted 4 refl (λ user h. cc)

registers_carol : Step wire test_json connected with_carol
unfolding accept put_session dispatch AuthHandler.handle
registers_carol =
    read_step (packet register_request (bytes "carol")) connected with_carol refl refl
      (record { type_fits = omega arith; seq_fits = omega arith; payload_fits = omega arith }) refl

registers_dave : Step wire test_json with_carol with_dave
unfolding accept put_session dispatch AuthHandler.handle AuthHandler.on_register_request
    AuthHandler.finish_register AuthHandler.send_registered with_storage send_packet register_user
    start new_storage load_from_file get
registers_dave =
    read_step (packet register_request (bytes "dave")) with_carol with_dave refl refl
      (record { type_fits = omega arith; seq_fits = omega arith; payload_fits = omega arith }) refl

carol_known : authenticate with_dave.storage (bytes "carol") (bytes "p") ≡ returned (some carol)
unfolding accept put_session AuthHandler.on_register_request AuthHandler.finish_register
    AuthHandler.send_registered with_storage send_packet register_user start new_storage
    load_from_file authenticate check_password get put text_eq generate_id generate_hex hex_byte
    hex_digit
carol_known = refl

logs_in_carol : Step wire test_json with_dave signed_in
unfolding accept put_session dispatch AuthHandler.handle AuthHandler.on_register_request
    AuthHandler.finish_register AuthHandler.send_registered with_storage send_packet register_user
    start new_storage load_from_file get put text_eq AuthHandler.on_login_request
    AuthHandler.finish_login
logs_in_carol =
    read_step (packet login_request []) with_dave signed_in refl refl
      (record { type_fits = omega arith; seq_fits = omega arith; payload_fits = omega arith })
      (ap (λ r. AuthHandler.finish_login wire 4 (packet login_request []) r with_dave) carol_known)

befriends_dave : Step wire test_json signed_in with_friend
unfolding accept put_session dispatch ContactHandler.handle AuthHandler.on_register_request
    AuthHandler.finish_register AuthHandler.send_registered with_storage send_packet register_user
    start new_storage load_from_file get put text_eq AuthHandler.log_in set_user_id
befriends_dave =
    read_step (packet add_friend_request []) signed_in with_friend refl refl
      (record { type_fits = omega arith; seq_fits = omega arith; payload_fits = omega arith }) refl

message_handled :
    dispatch wire test_json 4 (packet send_message_request []) signed_in ≡ returned with_message
unfolding dispatch ChatHandler.handle
message_handled = refl

sends_message : Step wire test_json signed_in with_message
unfolding accept put_session AuthHandler.on_register_request AuthHandler.finish_register
    AuthHandler.send_registered with_storage send_packet register_user start new_storage
    load_from_file get put text_eq AuthHandler.log_in set_user_id
sends_message =
    read_step (packet send_message_request []) signed_in with_message refl refl
      (record { type_fits = omega arith; seq_fits = omega arith; payload_fits = omega arith })
      message_handled

until_signed_in : (w : World) → Step wire test_json signed_in w → Run wire test_json started w
until_signed_in w last =
    more accepts (more registers_carol (more registers_dave (more logs_in_carol (more last done))))

dispatch-Effect_example :
    Effect wire 4
      (packet send_message_request [])
      signed_in.clock
      signed_in.storage
      with_message.storage
dispatch-Effect_example =
    dispatch-Effect wire test_json 4 (packet send_message_request []) signed_in with_message
      message_handled

Run-IsMutual_example :
    are_friends with_friend.storage carol_id dave_id
    ≡ are_friends with_friend.storage dave_id carol_id
Run-IsMutual_example =
    Run-IsMutual wire test_json draws (pos 5) none with_friend carol_id dave_id
      (until_signed_in with_friend befriends_dave)

Run-IsAuthored_example :
    All
      (IsAuthored with_message.storage.users_by_id (make_conv_id carol_id dave_id))
      (conversation with_message.storage (make_conv_id carol_id dave_id))
Run-IsAuthored_example =
    Run-IsAuthored wire test_json draws (pos 5) none with_message (make_conv_id carol_id dave_id)
      (until_signed_in with_message sends_message)
