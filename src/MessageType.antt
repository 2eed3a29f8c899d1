-- ===== src/MessageType.antt =====
-- proto/MessageType.h: the message ids. `MessageType` has a fixed underlying type, so a value that
-- comes off the wire can be any 16-bit number; a message type is that number.
use nova_chat.Prelude.{ℕ}

abbrev pub MessageType : Type 0
MessageType = ℕ

abbrev pub register_request : MessageType
register_request = 0x0001

abbrev pub register_response : MessageType
register_response = 0x0002

abbrev pub login_request : MessageType
login_request = 0x0003

abbrev pub login_response : MessageType
login_response = 0x0004

abbrev pub logout_request : MessageType
logout_request = 0x0005

abbrev pub get_contacts_request : MessageType
get_contacts_request = 0x0101

abbrev pub get_contacts_response : MessageType
get_contacts_response = 0x0102

abbrev pub add_friend_request : MessageType
add_friend_request = 0x0103

abbrev pub add_friend_response : MessageType
add_friend_response = 0x0104

abbrev pub delete_friend_request : MessageType
delete_friend_request = 0x0105

abbrev pub delete_friend_response : MessageType
delete_friend_response = 0x0106

abbrev pub search_user_request : MessageType
search_user_request = 0x0107

abbrev pub search_user_response : MessageType
search_user_response = 0x0108

abbrev pub send_message_request : MessageType
send_message_request = 0x0201

abbrev pub send_message_response : MessageType
send_message_response = 0x0202

abbrev pub message_push : MessageType
message_push = 0x0203

abbrev pub get_history_request : MessageType
get_history_request = 0x0204

abbrev pub get_history_response : MessageType
get_history_response = 0x0205

abbrev pub get_conversations_request : MessageType
get_conversations_request = 0x0206

abbrev pub get_conversations_response : MessageType
get_conversations_response = 0x0207

abbrev pub heartbeat_request : MessageType
heartbeat_request = 0x0F01

abbrev pub heartbeat_response : MessageType
heartbeat_response = 0x0F02

abbrev pub error_response : MessageType
error_response = 0x0FFF
