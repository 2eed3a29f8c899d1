-- ===== src/Server/Safety.antt =====
-- The store stays in order under every packet that the server handles, and no packet throws.
use nova_chat.Prelude.{ℕ, ◌≢◌, refl, sym, subst, inl, inr, Option, none, some, ◌==◌, ◌||◌}
use nova_chat.Prelude.Branches.{either, parsed}
use nova_chat.MessageType.{
  heartbeat_request, register_request, login_request, logout_request, get_contacts_request,
  add_friend_request, delete_friend_request, search_user_request, send_message_request,
  get_history_request, get_conversations_request,
}
use nova_chat.Codec.{Packet}
use nova_chat.Proto.{Wire}
use nova_chat.Server.Storage.{Storage, UserRecord, Outcome, returned, thrown}
use nova_chat.Server.Storage.Accounts.{IsIndexed, IsFresh}
use nova_chat.Server.Storage.Login.{authenticate_sound}
use nova_chat.Server.Persist.{JsonLib}
use nova_chat.Server.World.{World}
use nova_chat.Server.AuthHandler
use nova_chat.Server.Dispatch.{dispatch}
use nova_chat.Server.Effects.{
  Change, leaves, enters, signs_in, signs_out, joins, parts, saves, dispatch-Change,
}
use nova_chat.Server.Soundness.{
  IsSound, Returns, IsSafe, Outcome-cases, register_user-IsSound, create_session-IsSound,
  remove_session-IsSound, register_session-IsSound, save_message-IsSound, add_friend-IsSound,
  remove_friend-IsSound,
}

Change-IsSound : (i : ℕ) (s t : Storage) → Change i s t → IsFresh s → IsSound s → IsSound t
Change-IsSound i s t (leaves e) fresh v = subst IsSound (sym e) v
Change-IsSound i s t (enters username password display_name e) fresh v =
    subst IsSound (sym e) (register_user-IsSound s username password display_name fresh v)
Change-IsSound i s t (signs_in username password rec ok e) fresh v =
    let (_, right) = authenticate_sound s username password v.indexed in
    subst IsSound (sym e) (
      register_session-IsSound _ rec.user_id i
        (create_session-IsSound s rec (((right rec).0 ok).0) v))
Change-IsSound i s t (signs_out token e) fresh v =
    subst IsSound (sym e) (remove_session-IsSound s token v)
Change-IsSound i s t (joins token user other ok e) fresh v =
    subst IsSound (sym e) (add_friend-IsSound s user.user_id other v)
Change-IsSound i s t (parts token user other ok e) fresh v =
    subst IsSound (sym e) (remove_friend-IsSound s user.user_id other v)
Change-IsSound i s t (saves token sender receiver msg ok from to e) fresh v =
    subst IsSound (sym e) (save_message-IsSound s msg v)

module _ (wire : Wire) (json : JsonLib) (i : ℕ) (pkt : Packet) (w : World) where
  -- there is a result
  abbrev Ends : Outcome World → Type 0
  Ends = Returns (λ v. Unit)

  finish_login-Ends :
      (r : Outcome (Option UserRecord))
      → r ≢ thrown
      → Ends (AuthHandler.finish_login wire i pkt r w)
  unfolding AuthHandler.finish_login
  finish_login-Ends thrown h = h refl
  finish_login-Ends (returned none) h = tt
  finish_login-Ends (returned (some rec)) h = tt

  auth-Ends : IsIndexed w.storage → Ends (AuthHandler.handle wire json i pkt w)
  unfolding AuthHandler.handle AuthHandler.on_login_request
  auth-Ends v = either Ends (pkt.type == register_request) tt (
      either Ends (pkt.type == login_request)
        (parsed Ends (wire.login_request_format.parse pkt.payload) tt
          (λ req. finish_login-Ends _ (authenticate_sound w.storage req.username req.password v).0))
        (either Ends (pkt.type == logout_request) tt tt))

  dispatch-Ends : IsIndexed w.storage → Ends (dispatch wire json i pkt w)
  unfolding dispatch
  dispatch-Ends v = either Ends (pkt.type == heartbeat_request) tt (
      either Ends
        (pkt.type == register_request || pkt.type == login_request || pkt.type == logout_request)
        (auth-Ends v)
        (either Ends
          (pkt.type == get_contacts_request
            || pkt.type == add_friend_request
            || pkt.type == delete_friend_request
            || pkt.type == search_user_request)
          tt
          (either Ends
            (pkt.type == send_message_request
              || pkt.type == get_history_request
              || pkt.type == get_conversations_request)
            tt tt)))

  -- From a sound store, whatever packet comes, the server handles it without an exception and its
  -- store stays sound: the maps of users and tokens agree and friendship goes both ways. The id
  -- that a registration would draw must belong to nobody.
  pub dispatch-IsSafe : IsFresh w.storage → IsSafe w → Returns IsSafe (dispatch wire json i pkt w)
  dispatch-IsSafe fresh v = elim (Outcome-cases (dispatch wire json i pkt w)) [
    | inl threw ↦ absurd (subst Ends threw (dispatch-Ends v.indexed))
    | inr (w', ran) ↦
        subst (Returns IsSafe) (sym ran)
          (Change-IsSound i w.storage w'.storage (dispatch-Change wire json i pkt w w' ran) fresh v)
  ]
