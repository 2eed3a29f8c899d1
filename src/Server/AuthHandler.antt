-- ===== src/Server/AuthHandler.antt =====
-- server/src/handler/AuthHandler.h and AuthHandler.cpp: registration, login and logout. What the
-- log is given is left out.
use nova_chat.Prelude.{ℕ, Option, none, some, ◌==◌, if◌then◌else◌, []}
use nova_chat.Prelude.Text.{Text, bytes}
use nova_chat.MessageType.{
  register_request, register_response, login_request, login_response, logout_request,
  error_response,
}
use nova_chat.Codec.{Packet}
use nova_chat.Proto.{Wire, unknown_error, user_already_exists, auth_failed}
use nova_chat.Server.Storage.{
  Storage, UserRecord, Outcome, returned, thrown, register_user, authenticate, create_session,
  remove_session, register_session,
}
use nova_chat.Server.Persist.{JsonLib, save_to_file}
use nova_chat.Server.World.{World, send_packet, set_user_id, with_storage}

module _ (wire : Wire) where
  unfoldable pub send_error : ℕ → ℕ → ℕ → Text → World → World
  send_error session seq_id code message w = send_packet w session (record {
    type = error_response;
    seq_id = seq_id;
    payload = wire.error_format.serialize (record { code = code; message = message });
  })

  unfoldable pub send_registered : ℕ → Packet → UserRecord → World → World
  send_registered session packet rec w = send_packet w session (record {
    type = register_response;
    seq_id = packet.seq_id;
    payload =
        wire.register_response_format.serialize
          (record { user_id = rec.user_id; display_name = rec.display_name });
  })

  unfoldable pub finish_register :
      JsonLib → ℕ → Packet → Option UserRecord × Storage → World → World
  finish_register json session packet (none, s) w =
      send_error session packet.seq_id user_already_exists (bytes "Username already exists")
        (with_storage w s)
  finish_register json session packet (some rec, s) w =
      let w' = send_registered session packet rec (with_storage w s) in
      record w' { file = save_to_file json w'.storage w'.file }

  unfoldable pub on_register_request : JsonLib → ℕ → Packet → World → World
  unfolding finish_register
  on_register_request json session packet w =
      elim (wire.register_request_format.parse packet.payload) [
        | none ↦ send_error session packet.seq_id unknown_error (bytes "parse error") w
        | some req ↦
            finish_register json session packet
              (register_user w.storage req.username req.password req.display_name) w
      ]

  unfoldable pub log_in : ℕ → Packet → UserRecord → World → World
  log_in session packet rec w =
      let (token, s) = create_session w.storage rec.user_id in
      let w' = set_user_id (with_storage w s) session rec.user_id in
      let w'' = with_storage w' (register_session w'.storage rec.user_id session) in
      send_packet w'' session (record {
        type = login_response;
        seq_id = packet.seq_id;
        payload = wire.login_response_format.serialize (record {
          token = token;
          user_id = rec.user_id;
          display_name = rec.display_name;
          avatar_url = [];
        });
      })

  unfoldable pub finish_login : ℕ → Packet → Outcome (Option UserRecord) → World → Outcome World
  finish_login session packet thrown w = thrown
  finish_login session packet (returned none) w =
      returned
        (send_error session packet.seq_id auth_failed (bytes "Invalid username or password") w)
  finish_login session packet (returned (some rec)) w = returned (log_in session packet rec w)

  unfoldable pub on_login_request : ℕ → Packet → World → Outcome World
  unfolding finish_login
  on_login_request session packet w = elim (wire.login_request_format.parse packet.payload) [
    | none ↦ returned (send_error session packet.seq_id unknown_error (bytes "parse error") w)
    | some req ↦ finish_login session packet (authenticate w.storage req.username req.password) w
  ]

  unfoldable pub on_logout_request : ℕ → Packet → World → World
  on_logout_request session packet w = elim (wire.logout_request_format.parse packet.payload) [
    | none ↦ w
    | some req ↦ set_user_id (with_storage w (remove_session w.storage req.token)) session []
  ]

  unfoldable pub handle : JsonLib → ℕ → Packet → World → Outcome World
  handle json session packet w =
      if packet.type == register_request
      then returned (on_register_request json session packet w)
      else if packet.type == login_request
      then on_login_request session packet w
      else if packet.type == logout_request
      then returned (on_logout_request session packet w)
      else returned w
