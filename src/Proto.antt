-- ===== src/Proto.antt =====
-- proto/*.proto: the messages, and the protobuf code that is generated from them. That code is not
-- part of the sources: each message's parser and serializer is a field of `Wire`, which the
-- handlers and services take as an argument.
use nova_chat.Prelude.{ℕ, Bool, List, Option}
use nova_chat.Prelude.Text.{Text}
use nova_chat.Prelude.Int.{ℤ}
use nova_chat.Codec.{Bytes}

-- common.proto
abbrev pub unknown_error : ℕ
unknown_error = 1

abbrev pub auth_failed : ℕ
auth_failed = 2

abbrev pub auth_expired : ℕ
auth_expired = 3

abbrev pub user_already_exists : ℕ
user_already_exists = 5

abbrev pub friend_not_found : ℕ
friend_not_found = 6

abbrev pub friend_already_exists : ℕ
friend_already_exists = 7

pub record ErrorResponse : Type 0 where
  pub code : ℕ
  pub message : Text

-- auth.proto
pub record RegisterRequest : Type 0 where
  pub username : Text
  pub password : Text
  pub display_name : Text

pub record RegisterResponse : Type 0 where
  pub user_id : Text
  pub display_name : Text

pub record LoginRequest : Type 0 where
  pub username : Text
  pub password : Text

pub record LoginResponse : Type 0 where
  pub token : Text
  pub user_id : Text
  pub display_name : Text
  pub avatar_url : Text

-- LogoutRequest, GetContactsRequest and GetConversationsRequest hold a token alone.
pub record TokenRequest : Type 0 where
  pub token : Text

-- contact.proto
pub record ContactInfo : Type 0 where
  pub user_id : Text
  pub username : Text
  pub display_name : Text
  pub avatar_url : Text

-- AddFriendRequest and DeleteFriendRequest
pub record FriendRequest : Type 0 where
  pub token : Text
  pub target_user_id : Text

-- `none` is a response whose `contact` is not set.
pub record AddFriendResponse : Type 0 where
  pub contact : Option ContactInfo

pub record SearchUserRequest : Type 0 where
  pub token : Text
  pub keyword : Text

-- chat.proto
pub record SendMessageRequest : Type 0 where
  pub token : Text
  pub local_msg_id : Text
  pub receiver_id : Text
  pub content : Text

pub record SendMessageResponse : Type 0 where
  pub local_msg_id : Text
  pub server_msg_id : Text
  pub conversation_id : Text
  pub timestamp_ms : ℤ

-- MessagePush and HistoryMessageRecord have the same fields.
pub record MessageInfo : Type 0 where
  pub message_id : Text
  pub conversation_id : Text
  pub sender_id : Text
  pub content : Text
  pub timestamp_ms : ℤ

pub record GetHistoryRequest : Type 0 where
  pub token : Text
  pub conversation_id : Text
  pub before_timestamp : ℤ
  pub limit : ℤ

pub record GetHistoryResponse : Type 0 where
  pub messages : List MessageInfo
  pub has_more : Bool

pub record ConversationInfo : Type 0 where
  pub conversation_id : Text
  pub peer_user_id : Text
  pub last_message_preview : Text
  pub last_message_time : ℤ

-- ParseFromArray, which may fail, and SerializeToArray of one message type.
pub record Format (M : Type 0) : Type 0 where
  pub parse : Bytes → Option M
  pub serialize : M → Bytes

pub record Wire : Type 0 where
  pub error_format : Format ErrorResponse
  pub register_request_format : Format RegisterRequest
  pub register_response_format : Format RegisterResponse
  pub login_request_format : Format LoginRequest
  pub login_response_format : Format LoginResponse
  pub logout_request_format : Format TokenRequest
  pub get_contacts_request_format : Format TokenRequest
  pub get_contacts_response_format : Format (List ContactInfo)
  pub add_friend_request_format : Format FriendRequest
  pub add_friend_response_format : Format AddFriendResponse
  pub delete_friend_request_format : Format FriendRequest
  pub search_user_request_format : Format SearchUserRequest
  pub search_user_response_format : Format (List ContactInfo)
  pub send_message_request_format : Format SendMessageRequest
  pub send_message_response_format : Format SendMessageResponse
  pub message_push_format : Format MessageInfo
  pub get_history_request_format : Format GetHistoryRequest
  pub get_history_response_format : Format GetHistoryResponse
  pub get_conversations_request_format : Format TokenRequest
  pub get_conversations_response_format : Format (List ConversationInfo)
  -- what an ErrorResponse holds after a ParseFromArray whose result nobody looks at
  pub error_content : Bytes → ErrorResponse
