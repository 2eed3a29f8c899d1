-- ===== src/Server/World.antt =====
-- server/src/network/ClientSession.h and ClientSession.cpp, and what the handlers share: the store,
-- the sessions behind their shared pointers, the file that users are kept in and the clock.
-- A shared pointer to a session is the session's number; the server runs on one thread.
use nova_chat.Prelude.{ℕ, ◌≡◌, refl, Bool, Option, List, [], ◌∷◌, ◌++◌, ◌==◌, if◌then◌else◌, arith}
use nova_chat.Prelude.Text.{Text}
use nova_chat.Prelude.Int.{ℤ}
use nova_chat.Codec.{Bytes, Packet, encode}
use nova_chat.Server.Storage.{Storage}

-- `sent` holds the buffers given to async_write, first to last; `alive` says whether a shared
-- pointer to the session is left, which is what `lock` of a weak one asks.
pub record ClientSession : Type 0 where
  pub user_id : Text
  pub buffer : Bytes
  pub alive : Bool
  pub sent : List Bytes

pub record World : Type 0 where
  pub storage : Storage
  pub session : ℕ → ClientSession
  pub file : Option Text
  pub clock : ℤ

unfoldable pub put_session : World → ℕ → ClientSession → World
put_session w i s = record w { session = λ j. if i == j then s else w.session j }

-- session->setUserId(id)
unfoldable pub set_user_id : World → ℕ → Text → World
unfolding put_session
set_user_id w i id = put_session w i (record (w.session i) { user_id = id })

-- session->sendPacket(packet)
unfoldable pub send_packet : World → ℕ → Packet → World
unfolding put_session
send_packet w i packet =
    put_session w i (record (w.session i) { sent = (w.session i).sent ++ encode packet ∷ [] })

unfoldable pub with_storage : World → Storage → World
with_storage w s = record w { storage = s }

-- A packet goes to the end of one session's output, and nothing else changes.
pub sent-send_packet :
    (w : World) (i j : ℕ) (p : Packet)
    → ((send_packet w i p).session j).sent
      ≡ (if i == j then (w.session i).sent ++ encode p ∷ [] else (w.session j).sent)
unfolding send_packet
sent-send_packet w i j p = ground arith

pub storage-send_packet : (w : World) (i : ℕ) (p : Packet) → (send_packet w i p).storage ≡ w.storage
unfolding send_packet
storage-send_packet w i p = refl
