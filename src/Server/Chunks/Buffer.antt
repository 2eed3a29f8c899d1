-- ===== src/Server/Chunks/Buffer.antt =====
-- Bytes that wait in the sessions' buffers, and what a handler does to a session.
use nova_chat.Prelude.{ℕ, ◌≡◌, ap, arith, ==_iff}
use nova_chat.Prelude.Text.{Text}
use nova_chat.Codec.{Bytes, Packet}
use nova_chat.Server.Storage.{Outcome, returned, thrown}
use nova_chat.Server.World.{World, ClientSession, put_session, set_user_id, send_packet}
use mathlib.Core.Path.{fun_ext}

-- what a handler returned, changed
abbrev pub after : (World → World) → Outcome World → Outcome World
after f thrown = thrown
after f (returned w) = returned (f w)

module _ (b : ℕ → Bytes) where
  -- `w` with other bytes in the sessions' buffers
  abbrev pub with_buffers : World → World
  with_buffers w = record w { session = λ j. record (w.session j) { buffer = b j } }

  same_sessions :
      (w : World) (f g : ℕ → ClientSession)
      → ((j : ℕ) → f j ≡ g j)
      → ◌≡◌ {A = World} (record w { session = f }) (record w { session = g })
  same_sessions w f g e = ap (λ (h : ℕ → ClientSession). record w { session = h }) (fun_ext e)

  -- an answer or a push, to any session
  pub send_packet-with_buffers :
      (w : World) (j : ℕ) (p : Packet)
      → send_packet (with_buffers w) j p ≡ with_buffers (send_packet w j p)
  unfolding send_packet put_session
  send_packet-with_buffers w j p = same_sessions w _ _ (λ k. ground (arith, ==_iff j k))

  pub set_user_id-with_buffers :
      (w : World) (j : ℕ) (id : Text)
      → set_user_id (with_buffers w) j id ≡ with_buffers (set_user_id w j id)
  unfolding set_user_id put_session
  set_user_id-with_buffers w j id = same_sessions w _ _ (λ k. ground (arith, ==_iff j k))
