-- ===== src/Client/Resync.antt =====
-- What the slots of TcpClient::connected that launch_main connects in client/src/main.cpp send.
use nova_chat.Prelude.{
  ℕ, ◌≡◌, refl, sym, ◌∙◌, ◌⊎◌, inl, inr, true, some, [], ◌∷◌, ◌++◌, ◌==◌, append_assoc, Bool-cases,
  if◌then◌else◌,
}
use mathlib.Core.Option.{some-injective}
use mathlib.Core.List.{List}
use nova_chat.MessageType.{get_contacts_request, get_conversations_request}
use nova_chat.Codec.{Packet, encode}
use nova_chat.Proto.{Wire}
use nova_chat.Client.TcpClient.{
  connected, find_callback, put_callback, next_seq_id, send_packet, send_request,
}
use nova_chat.Client.Requests.{find-put}
use nova_chat.Client.App.{App, Callback, request}
use nova_chat.Client.App.{on_contacts, on_conversations}
use nova_chat.Client.ContactService.{sync_contacts}
use nova_chat.Client.ChatService.{sync_conversations}
use nova_chat.Client.EventLoop
use nova_chat.Client.Ui.{Qt}
use nova_chat.Client.Start.{Desktop, on_connected, take_signal}

-- From `a` to `b` two requests were sent, one for the contacts and then one for the conversations,
-- and nothing else; no callback but theirs began to wait; and the database was left.
pub record Resyncs (a b : App) : Type 0 where
  pub contacts : Packet
  pub conversations : Packet
  pub contacts_type : contacts.type ≡ get_contacts_request
  pub conversations_type : conversations.type ≡ get_conversations_request
  pub sends : b.tcp.sent ≡ a.tcp.sent ++ encode contacts ∷ encode conversations ∷ []
  pub waits :
      (k : ℕ) (cb : Callback)
      → find_callback b.tcp.callbacks k ≡ some cb
      → (cb ≡ on_contacts) ⊎ ((cb ≡ on_conversations) ⊎ (find_callback a.tcp.callbacks k ≡ some cb))
  pub same_db : b.db ≡ a.db

found_in {ℓ} :
    {C : Type ℓ} (m : List (ℕ × C)) (j k : ℕ) (c cb : C)
    → find_callback (put_callback m j c) k ≡ some cb
    → (cb ≡ c) ⊎ (find_callback m k ≡ some cb)
found_in m j k c cb h =
    let e : (if j == k then some c else find_callback m k) ≡ some cb = sym (find-put m j k c) ∙ h in
    elim (Bool-cases (j == k)) [
      | inl here ↦ inl (sym (some-injective c cb (rw here at e)))
      | inr away ↦ inr (rw away at e)
    ]

pub on_connected-Resyncs :
    (qt : Qt) (wire : Wire) (a : App) → Resyncs a (on_connected qt wire connected a)
unfolding on_connected sync_conversations sync_contacts request send_request send_packet
    put_callback find_callback next_seq_id
on_connected-Resyncs qt wire a = record {
  contacts = record {
    type = get_contacts_request;
    seq_id = (next_seq_id a.tcp).0;
    payload = wire.get_contacts_request_format.serialize (record { token = a.current_user.token });
  };
  conversations = record {
    type = get_conversations_request;
    seq_id = (next_seq_id (sync_contacts wire a).tcp).0;
    payload =
        wire.get_conversations_request_format.serialize (record { token = a.current_user.token });
  };
  contacts_type = refl;
  conversations_type = refl;
  sends = append_assoc a.tcp.sent _ _;
  waits = λ k cb h.
      first k cb (found_in (sync_contacts wire a).tcp.callbacks _ k on_conversations cb h);
  same_db = refl;
}
  where
    first :
        (k : ℕ) (cb : Callback)
        → (cb ≡ on_conversations) ⊎ (find_callback (sync_contacts wire a).tcp.callbacks k ≡ some cb)
        → (cb ≡ on_contacts)
          ⊎ ((cb ≡ on_conversations) ⊎ (find_callback a.tcp.callbacks k ≡ some cb))
    first k cb (inl e) = inr (inl e)
    first k cb (inr e) = elim (found_in a.tcp.callbacks _ k on_contacts cb e) [
      | inl mine ↦ inl mine
      | inr old ↦ inr (inr old)
    ]

-- At the signal of a connection a desktop that launched a main window sends both requests.
pub take_signal-Resyncs :
    (qt : Qt) (wire : Wire) (d : Desktop)
    → d.launched ≡ true
    → Resyncs d.app (take_signal qt wire connected d).app
unfolding take_signal EventLoop.take_signal
take_signal-Resyncs qt wire d launched = rw launched (on_connected-Resyncs qt wire d.app)
