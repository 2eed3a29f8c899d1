-- ===== src/Server/Effects/Auth.antt =====
-- What AuthHandler does to the store.
use nova_chat.Prelude.{
  ℕ, ◌≡◌, refl, ap, subst, inl, inr, Option, none, some, ◌==◌, ==_iff, Option-cases, Bool-cases,
}
use nova_chat.Prelude.Branches.{parsed_as, tested}
use nova_chat.Prelude.Text.{Text, text_eq, text_eq_sound}
use nova_chat.Prelude.Dict.{get}
use nova_chat.MessageType.{register_request, login_request, logout_request}
use nova_chat.Codec.{Packet}
use nova_chat.Proto.{Wire, LoginRequest}
use nova_chat.Server.Storage.{
  Storage, UserRecord, Outcome, returned, thrown, check_password, authenticate,
}
use nova_chat.Server.Persist.{JsonLib}
use nova_chat.Server.World.{World, send_packet, set_user_id, with_storage, put_session}
use nova_chat.Server.AuthHandler
use nova_chat.Server.Effects.Kinds.{Effect, HasName, nothing, registers, logs_in, logs_out}

-- A login that is let in gave the name and the password of the user.
authenticate-HasName :
    (s : Storage) (username password : Text) (rec : UserRecord)
    → authenticate s username password ≡ returned (some rec)
    → HasName s username rec × (rec.password ≡ password)
unfolding authenticate check_password
authenticate-HasName s username password rec ok =
    elim (Option-cases (get s.username_to_id username)) [
      | inl nobody ↦ absurd (never (rw (nobody, authenticate) at ok))
      | inr (id, leads) ↦
          (let (is_user, same) = right (get s.users_by_id id) (rw (leads, authenticate) at ok) in
            ((id, leads, is_user), same))
    ]
  where
    never : returned none ≡ returned (some rec) → ⊥
    never e = cc

    right :
        (o : Option UserRecord)
        → check_password password o ≡ returned (some rec)
        → (o ≡ some rec) × (rec.password ≡ password)
    right none e = cc
    right (some found) e = elim (Bool-cases (text_eq found.password password)) [
      | inl same ↦
          (let it : found ≡ rec = one (rw same at e) in
            (
              ap some it,
              subst (λ (r : UserRecord). r.password ≡ password) it
                  (text_eq_sound found.password password same),
            ))
      | inr other ↦ absurd (never (rw other at e))
    ]
      where
        one : returned (some found) ≡ returned (some rec) → found ≡ rec
        one same = cc

module _ (wire : Wire) (json : JsonLib) (i : ℕ) (pkt : Packet) (w : World) where
  abbrev Does : World → Type 0
  Does w' = Effect wire i pkt w.clock w.storage w'.storage

  abbrev DoesIf : Outcome World → Type 0
  DoesIf thrown = Unit
  DoesIf (returned w') = Does w'

  -- an answer leaves the store
  none_done : Does w
  none_done = nothing refl

  finish_register-storage :
      (r : Option UserRecord × Storage)
      → (AuthHandler.finish_register wire json i pkt r w).storage ≡ r.1
  unfolding AuthHandler.finish_register AuthHandler.send_error AuthHandler.send_registered
      send_packet with_storage
  finish_register-storage (none, s) = refl
  finish_register-storage (some rec, s) = refl

  register-Does :
      pkt.type ≡ register_request → Does (AuthHandler.on_register_request wire json i pkt w)
  unfolding AuthHandler.on_register_request AuthHandler.send_error send_packet
  register-Does kind =
      parsed_as Does (wire.register_request_format.parse pkt.payload) none_done
        (λ req read. registers req kind read (finish_register-storage _))

  log_in-Does :
      (req : LoginRequest) (r : Outcome (Option UserRecord))
      → pkt.type ≡ login_request
      → wire.login_request_format.parse pkt.payload ≡ some req
      → ((rec : UserRecord)
          → r ≡ returned (some rec)
          → HasName w.storage req.username rec × (rec.password ≡ req.password))
      → DoesIf (AuthHandler.finish_login wire i pkt r w)
  unfolding AuthHandler.finish_login AuthHandler.log_in AuthHandler.send_error set_user_id
      with_storage send_packet put_session
  log_in-Does req thrown kind read right = tt
  log_in-Does req (returned none) kind read right = none_done
  log_in-Does req (returned (some rec)) kind read right =
      let (named, same) = right rec refl in logs_in req rec kind read named same refl

  login-Does : pkt.type ≡ login_request → DoesIf (AuthHandler.on_login_request wire i pkt w)
  unfolding AuthHandler.on_login_request AuthHandler.send_error send_packet
  login-Does kind =
      parsed_as DoesIf (wire.login_request_format.parse pkt.payload) none_done (λ req read.
        log_in-Does req (authenticate w.storage req.username req.password) kind read
          (λ rec ok. authenticate-HasName w.storage req.username req.password rec ok))

  logout-Does : pkt.type ≡ logout_request → Does (AuthHandler.on_logout_request wire i pkt w)
  unfolding AuthHandler.on_logout_request set_user_id with_storage put_session
  logout-Does kind =
      parsed_as Does (wire.logout_request_format.parse pkt.payload) none_done
        (λ req read. logs_out req kind read refl)

  pub auth-Does : DoesIf (AuthHandler.handle wire json i pkt w)
  unfolding AuthHandler.handle
  auth-Does =
      tested DoesIf (pkt.type == register_request)
        (λ e. register-Does ((==_iff pkt.type register_request).0 e))
        (tested DoesIf (pkt.type == login_request)
          (λ e. login-Does ((==_iff pkt.type login_request).0 e))
          (tested DoesIf (pkt.type == logout_request)
            (λ e. logout-Does ((==_iff pkt.type logout_request).0 e)) none_done))
