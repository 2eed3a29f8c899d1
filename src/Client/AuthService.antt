-- ===== src/Client/AuthService.antt =====
-- client/src/service/AuthService.cpp
use nova_chat.Prelude.{true, none, some, ◌==◌, if◌then◌else◌}
use nova_chat.Prelude.Text.{Text, bytes, is_empty}
use nova_chat.MessageType.{
  login_request, login_response, register_request, register_response, logout_request,
  error_response,
}
use nova_chat.Codec.{Packet}
use nova_chat.Proto.{Wire, LoginResponse}
use nova_chat.Client.TcpClient.{send_packet}
use nova_chat.Client.Db.Tables.{LocalAccount}
use nova_chat.Client.Db.Users
use nova_chat.Client.App.{
  App, User, nobody, on_login, on_register, login_succeeded, login_failed, register_succeeded,
  register_failed, logged_out, emit, request,
}

-- the constructor: no user yet
unfoldable pub new_service : App → App
new_service a = record a { auth_user = nobody }

module _ (wire : Wire) where
  unfoldable pub login : Text → Text → App → App
  login username password =
      request login_request
        (wire.login_request_format.serialize (record { username = username; password = password }))
        (on_login username)

  unfoldable pub store_login : Text → LoginResponse → App → App
  store_login username lr a =
      let acc : LocalAccount = record {
        id = 0;
        server_id = lr.user_id;
        username = username;
        display_name = lr.display_name;
        avatar_url = lr.avatar_url;
        token = lr.token;
        is_active = true;
      } in
      let user : User = record {
        server_id = lr.user_id;
        username = username;
        display_name = lr.display_name;
        avatar_url = lr.avatar_url;
        token = lr.token;
      } in
      emit (record a { db = Users.set_active lr.user_id (Users.save acc a.db); auth_user = user })
        (login_succeeded user)

  -- the lambda of login
  unfoldable pub login_answered : Text → Packet → App → App
  login_answered username resp a =
      if resp.type == login_response
      then elim (wire.login_response_format.parse resp.payload) [
        | none ↦ emit a (login_failed (bytes "Failed to parse server response"))
        | some lr ↦ store_login username lr a
      ]
      else if resp.type == error_response
      then emit a (login_failed (wire.error_content resp.payload).message)
      else a

  unfoldable pub register_user : Text → Text → Text → App → App
  register_user username password display_name =
      request register_request
        (wire.register_request_format.serialize (record {
          username = username;
          password = password;
          display_name = if is_empty display_name then username else display_name;
        }))
        on_register

  -- the lambda of registerUser
  unfoldable pub register_answered : Packet → App → App
  register_answered resp a =
      if resp.type == register_response
      then emit a register_succeeded
      else if resp.type == error_response
      then emit a (register_failed (wire.error_content resp.payload).message)
      else a

  unfoldable pub logout : App → App
  logout a =
      if is_empty a.auth_user.token
      then a
      else emit
          (record a {
            tcp =
                send_packet
                  (record {
                    type = logout_request;
                    seq_id = 0;
                    payload =
                        wire.logout_request_format.serialize (record { token = a.auth_user.token });
                  })
                  a.tcp;
            db = Users.clear_active a.db;
            auth_user = nobody;
          })
          logged_out
