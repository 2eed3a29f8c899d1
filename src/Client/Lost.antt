-- ===== src/Client/Lost.antt =====
-- A message whose request was on its way when the connection was lost.
use nova_chat.Prelude.{
  ℕ, ◌≡◌, refl, subst, ap, ◌∙◌, ◌⊎◌, inl, inr, true, false, none, some, [], ◌∷◌, ◌++◌, append_assoc,
}
use nova_chat.Prelude.Text.{Text}
use nova_chat.Proto.{Wire}
use nova_chat.MessageType.{get_contacts_request, get_conversations_request}
use nova_chat.Codec.{Packet, encode}
use nova_chat.Client.TcpClient.{
  TcpClient, connected, disconnected, reconnecting, opened, find_callback, on_connection_lost,
  connect_succeeded, reconnect_timer_ended, timer_checks, timer_connects, run_posted,
  run_first_posted, run_task, schedule_reconnect, do_connect, schedule_heartbeat, opened_by,
  delay_sec, send_request, next_seq_id, send_packet,
}
use nova_chat.Client.Db.Tables.{Message, exists_where, sending}
use nova_chat.Client.Db.Messages
use nova_chat.Client.Db.Messages.{has_id}
use nova_chat.Client.Db.Messages.Saved.{find_by_id-save}
use nova_chat.Client.Db.Conversations
use nova_chat.Client.App.{App, Callback, on_contacts, on_conversations, request}
use nova_chat.Client.ChatService.{local_message, send_message}
use nova_chat.Client.Ui.{Qt}
use nova_chat.Client.EventLoop
use nova_chat.Client.Start.{Desktop, on_connected, take_signal}
use nova_chat.Client.Resync.{Resyncs, take_signal-Resyncs}

-- the connection is lost, the wait goes by, and the next attempt to connect succeeds
abbrev back {ℓ} : {C : Type ℓ} → TcpClient C → TcpClient C
back t = connect_succeeded (run_posted (reconnect_timer_ended (on_connection_lost t)))

-- A connection that was not closed by hand comes back behind a wait of two seconds.
record Returns {ℓ} {C : Type ℓ} (t : TcpClient C) : Type ℓ where
  waited : (on_connection_lost t).reconnect_timer ≡ some 2
  open_again : (back t).socket ≡ opened
  told : (back t).signals ≡ t.signals ++ disconnected ∷ reconnecting 1 2 ∷ connected ∷ []
  unsent : (back t).sent ≡ t.sent

back-Returns {ℓ} :
    {C : Type ℓ} (t : TcpClient C)
    → t.manual_disconnect ≡ false
    → t.reconnect_attempt ≡ 0
    → t.posted ≡ []
    → Returns t
unfolding connect_succeeded reconnect_timer_ended on_connection_lost schedule_reconnect do_connect
    schedule_heartbeat timer_checks timer_connects run_posted run_first_posted run_task opened_by
    delay_sec
back-Returns t automatic connected_before settled = rw automatic (
    rw connected_before (
      rw settled (record {
        waited = refl;
        open_again = refl;
        told =
            append_assoc (t.signals ++ disconnected ∷ []) (reconnecting 1 2 ∷ []) (connected ∷ [])
            ∙ append_assoc t.signals (disconnected ∷ []) (reconnecting 1 2 ∷ connected ∷ []);
        unsent = refl;
      })))

module _ (qt : Qt) (wire : Wire) where
  -- the main thread takes the three signals of that
  abbrev told_back : Desktop → Desktop
  told_back d =
      take_signal qt wire connected
        (take_signal qt wire (reconnecting 1 2) (take_signal qt wire disconnected d))

  told_back-Resyncs : (d : Desktop) → d.launched ≡ true → Resyncs d.app (told_back d).app
  unfolding take_signal EventLoop.take_signal on_connected
  told_back-Resyncs d launched =
      let same : (take_signal qt wire (reconnecting 1 2) (take_signal qt wire disconnected d)).app
          ≡ d.app =
        rw launched refl in
      subst (λ a. Resyncs a (told_back d).app) same
        (take_signal-Resyncs qt wire
          (take_signal qt wire (reconnecting 1 2) (take_signal qt wire disconnected d)) launched)

  -- A client that launched a main window, whose connection was made and was not closed by hand, and
  -- for which nothing is posted, sends a message under a new id. The connection is lost before the
  -- answer and comes back two seconds later, and the main thread takes the three signals of that.
  -- Then the client has sent, behind what it had sent when the connection was lost, a request for
  -- the contacts and one for the conversations, and not the message again; no callback waits but
  -- those of these two requests; and the message stands in the database as it was written, with
  -- status Sending.
  pub lost_message :
      (d : Desktop) (receiver_id content : Text)
      → d.launched ≡ true
      → d.app.tcp.manual_disconnect ≡ false
      → d.app.tcp.reconnect_attempt ≡ 0
      → d.app.tcp.posted ≡ []
      → exists_where (has_id (local_message receiver_id content d.app).message_id) d.app.db.messages
        ≡ false
      → let a : App = send_message wire receiver_id content d.app in
        let b : App = (told_back (record d { app = record a { tcp = back a.tcp } })).app in
        ((on_connection_lost a.tcp).reconnect_timer ≡ some 2)
        × ((back a.tcp).socket ≡ opened)
        × ((back a.tcp).signals ≡ a.tcp.signals ++ disconnected ∷ reconnecting 1 2 ∷ connected ∷ [])
        × (contacts : Packet) × (conversations : Packet) × (contacts.type ≡ get_contacts_request)
        × (conversations.type ≡ get_conversations_request)
        × (b.tcp.sent ≡ a.tcp.sent ++ encode contacts ∷ encode conversations ∷ [])
        × ((k : ℕ) (cb : Callback)
            → find_callback b.tcp.callbacks k ≡ some cb
            → (cb ≡ on_contacts) ⊎ (cb ≡ on_conversations))
        × (m : Message) × (Messages.find_by_id
              (local_message receiver_id content d.app).message_id
              b.db
            ≡ some m)
        × (m.content ≡ content)
        × (m.status ≡ sending)
  unfolding send_message request local_message Messages.save Messages.find_by_id
      Conversations.save_or_update connect_succeeded schedule_heartbeat send_request next_seq_id
      send_packet find_callback
  lost_message d receiver_id content launched automatic before settled new =
      let a : App = send_message wire receiver_id content d.app in
      let msg : Message = local_message receiver_id content d.app in
      let r : Returns a.tcp = back-Returns a.tcp automatic before settled in
      let v : Resyncs (record a { tcp = back a.tcp })
          (told_back (record d { app = record a { tcp = back a.tcp } })).app =
        told_back-Resyncs (record d { app = record a { tcp = back a.tcp } }) launched in
      (
        r.waited,
        r.open_again,
        r.told,
        v.contacts,
        v.conversations,
        v.contacts_type,
        v.conversations_type,
        v.sends ∙ ap (λ bs. bs ++ encode v.contacts ∷ encode v.conversations ∷ []) r.unsent,
        λ k cb h. elim (v.waits k cb h) [
          | inl mine ↦ inl mine
          | inr (inl mine) ↦ inr mine
          | inr (inr old) ↦ absurd (none_some old)
        ],
        msg,
        ap (Messages.find_by_id msg.message_id) v.same_db ∙ find_by_id-save msg d.app.db new,
        refl,
        refl,
      )
    where
      none_some : {cb : Callback} → none ≡ some cb → ⊥
      none_some e = cc
