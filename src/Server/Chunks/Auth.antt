-- ===== src/Server/Chunks/Auth.antt =====
-- AuthHandler does the same whatever waits in the sessions' buffers.
use nova_chat.Prelude.{ℕ, ◌≡◌, refl, ap, ◌∙◌, Option, none, some, [], ◌==◌}
use nova_chat.Prelude.Branches.{either_both, parsed_both}
use nova_chat.MessageType.{register_request, login_request, login_response, logout_request}
use nova_chat.Codec.{Bytes, Packet}
use nova_chat.Proto.{Wire}
use nova_chat.Server.Storage.{
  Storage, UserRecord, Outcome, returned, thrown, create_session, register_session,
}
use nova_chat.Server.Persist.{JsonLib, save_to_file}
use nova_chat.Server.World.{World, put_session, set_user_id, send_packet, with_storage}
use nova_chat.Server.AuthHandler
use nova_chat.Server.Chunks.Buffer.{
  after, with_buffers, send_packet-with_buffers, set_user_id-with_buffers,
}

module _ (i : ℕ) (b : ℕ → Bytes) (wire : Wire) (json : JsonLib) (pkt : Packet) (w : World) where
  -- the one is the other with the bytes in the buffers
  abbrev Along : World → World → Type 0
  Along v' v = v' ≡ with_buffers b v

  abbrev AlongIf : Outcome World → Outcome World → Type 0
  AlongIf o' o = o' ≡ after (with_buffers b) o

  abbrev w' : World
  w' = with_buffers b w

  finish_register-Along :
      (r : Option UserRecord × Storage)
      → Along
          (AuthHandler.finish_register wire json i pkt r w')
          (AuthHandler.finish_register wire json i pkt r w)
  unfolding AuthHandler.finish_register AuthHandler.send_error AuthHandler.send_registered
      with_storage put_session send_packet
  finish_register-Along (none, s) = send_packet-with_buffers b (with_storage w s) i _
  finish_register-Along (some rec, s) =
      ap (λ (v : World). record v { file = save_to_file json v.storage v.file })
        (send_packet-with_buffers b (with_storage w s) i _)

  register-Along :
      Along
        (AuthHandler.on_register_request wire json i pkt w')
        (AuthHandler.on_register_request wire json i pkt w)
  unfolding AuthHandler.on_register_request AuthHandler.send_error put_session
  register-Along =
      parsed_both Along (wire.register_request_format.parse pkt.payload)
        (send_packet-with_buffers b w i _) (λ req. finish_register-Along _)

  abbrev login_answer : UserRecord → Packet
  login_answer rec = record {
    type = login_response;
    seq_id = pkt.seq_id;
    payload = wire.login_response_format.serialize (record {
      token = (create_session w.storage rec.user_id).0;
      user_id = rec.user_id;
      display_name = rec.display_name;
      avatar_url = [];
    });
  }

  -- the session is put down for the user
  abbrev put_down : UserRecord → World → World
  put_down rec v = with_storage v (register_session v.storage rec.user_id i)

  abbrev signed : UserRecord → World → World
  signed rec v = with_storage v (create_session v.storage rec.user_id).1

  logged_in :
      (rec : UserRecord)
      → put_down rec (set_user_id (signed rec w') i rec.user_id)
        ≡ with_buffers b (put_down rec (set_user_id (signed rec w) i rec.user_id))
  unfolding with_storage put_session
  logged_in rec = ap (put_down rec) (set_user_id-with_buffers b (signed rec w) i rec.user_id)

  finish_login-Along :
      (r : Outcome (Option UserRecord))
      → AlongIf (AuthHandler.finish_login wire i pkt r w') (AuthHandler.finish_login wire i pkt r w)
  unfolding AuthHandler.finish_login AuthHandler.log_in AuthHandler.send_error with_storage
      put_session
  finish_login-Along thrown = refl
  finish_login-Along (returned none) = ap returned (send_packet-with_buffers b w i _)
  finish_login-Along (returned (some rec)) = ap returned (
      ap (λ (v : World). send_packet v i (login_answer rec)) (logged_in rec)
      ∙ send_packet-with_buffers b _ i (login_answer rec))

  login-Along :
      AlongIf
        (AuthHandler.on_login_request wire i pkt w')
        (AuthHandler.on_login_request wire i pkt w)
  unfolding AuthHandler.on_login_request AuthHandler.send_error put_session
  login-Along =
      parsed_both AlongIf (wire.login_request_format.parse pkt.payload)
        (ap returned (send_packet-with_buffers b w i _)) (λ req. finish_login-Along _)

  logout-Along :
      Along
        (AuthHandler.on_logout_request wire i pkt w')
        (AuthHandler.on_logout_request wire i pkt w)
  unfolding AuthHandler.on_logout_request with_storage put_session
  logout-Along =
      parsed_both Along (wire.logout_request_format.parse pkt.payload) refl
        (λ req. set_user_id-with_buffers b (with_storage w _) i [])

  pub auth-AlongIf :
      AlongIf (AuthHandler.handle wire json i pkt w') (AuthHandler.handle wire json i pkt w)
  unfolding AuthHandler.handle
  auth-AlongIf = either_both AlongIf (pkt.type == register_request) (ap returned register-Along) (
      either_both AlongIf (pkt.type == login_request) login-Along
        (either_both AlongIf (pkt.type == logout_request) (ap returned logout-Along) refl))
