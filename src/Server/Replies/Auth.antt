-- ===== src/Server/Replies/Auth.antt =====
-- AuthHandler answers a registration and a login once.
use nova_chat.Prelude.{ℕ, ◌≡◌, ◌≢◌, refl, inl, inr, Option, none, some, arith, Option-cases}
use nova_chat.Prelude.Text.{Text}
use nova_chat.MessageType.{register_response}
use nova_chat.Codec.{Packet}
use nova_chat.Proto.{Wire}
use nova_chat.Server.Storage.{Storage, UserRecord, Outcome, returned, thrown}
use nova_chat.Server.Storage.Accounts.{IsIndexed}
use nova_chat.Server.Storage.Login.{authenticate_sound}
use nova_chat.Server.Soundness.{Returns}
use nova_chat.Server.Persist.{JsonLib}
use nova_chat.Server.World.{World, set_user_id, with_storage}
use nova_chat.Server.AuthHandler
use nova_chat.Server.Answering.{Answers, sending}

module _ (wire : Wire) (json : JsonLib) (i : ℕ) (pkt : Packet) where
  auth_error :
      (w w' : World) (code : ℕ) (message : Text)
      → ((j : ℕ) → (w'.session j).sent ≡ (w.session j).sent)
      → Answers i pkt.seq_id w (AuthHandler.send_error wire i pkt.seq_id code message w')
  unfolding AuthHandler.send_error
  auth_error w w' code message h = sending i pkt w w' _ _ h

  finish_register-Answers :
      (r : Option UserRecord × Storage) (w : World)
      → Answers i pkt.seq_id w (AuthHandler.finish_register wire json i pkt r w)
  unfolding AuthHandler.finish_register AuthHandler.send_registered with_storage
  finish_register-Answers (none, s) w = auth_error w _ _ _ (λ j. refl)
  finish_register-Answers (some rec, s) w =
      let a =
        sending i pkt w (with_storage w s) register_response
          (wire.register_response_format.serialize
            (record { user_id = rec.user_id; display_name = rec.display_name }))
          (λ j. refl) in
      record { type = a.type; payload = a.payload; own = a.own; others = a.others }

  pub register-Answers :
      (w : World) → Answers i pkt.seq_id w (AuthHandler.on_register_request wire json i pkt w)
  unfolding AuthHandler.on_register_request
  register-Answers w = elim (Option-cases (wire.register_request_format.parse pkt.payload)) [
    | inl bad ↦ rw (bad, AuthHandler.on_register_request) (auth_error w w _ _ (λ j. refl))
    | inr (req, good) ↦ rw (good, AuthHandler.on_register_request) (finish_register-Answers _ w)
  ]

  log_in-Answers :
      (rec : UserRecord) (w : World) → Answers i pkt.seq_id w (AuthHandler.log_in wire i pkt rec w)
  unfolding AuthHandler.log_in set_user_id with_storage
  log_in-Answers rec w = sending i pkt w _ _ _ (λ j. ground arith)

  finish_login-Answers :
      (r : Outcome (Option UserRecord)) (w : World)
      → r ≢ thrown
      → Returns (Answers i pkt.seq_id w) (AuthHandler.finish_login wire i pkt r w)
  unfolding AuthHandler.finish_login
  finish_login-Answers thrown w t = t refl
  finish_login-Answers (returned none) w t = auth_error w w _ _ (λ j. refl)
  finish_login-Answers (returned (some rec)) w t = log_in-Answers rec w

  pub login-Answers :
      (w : World)
      → IsIndexed w.storage
      → Returns (Answers i pkt.seq_id w) (AuthHandler.on_login_request wire i pkt w)
  unfolding AuthHandler.on_login_request
  login-Answers w v = elim (Option-cases (wire.login_request_format.parse pkt.payload)) [
    | inl bad ↦ rw (bad, AuthHandler.on_login_request) (auth_error w w _ _ (λ j. refl))
    | inr (req, good) ↦
        rw (good, AuthHandler.on_login_request)
          (finish_login-Answers _ w (authenticate_sound w.storage req.username req.password v).0)
  ]
