-- ===== src/Exchange/Push.antt =====
-- A pushed message at the client of its receiver.
use nova_chat.Prelude.{◌≡◌, refl, ap, ◌∙◌, false, some, [], ◌∷◌, ◌++◌}
use nova_chat.Codec.{encode}
use nova_chat.Codec.Frame.{IsPacket}
use nova_chat.Proto.{Wire}
use nova_chat.Server.Storage.{MsgRecord}
use nova_chat.Server.ChatHandler.{to_message_info}
use nova_chat.Server.Delivery.{push_packet}
use nova_chat.Client.TcpClient.{TcpClient, packet_received, emit}
use nova_chat.Client.Requests.{IsPending, handle_packet-push}
use nova_chat.Client.Db.Tables.{exists_where, text, sent}
use nova_chat.Client.Db.Messages
use nova_chat.Client.Db.Messages.{has_id}
use nova_chat.Client.App.{App, message_received}
use nova_chat.Client.ChatService.{from_info, handle_message_push, on_packet_received}
use nova_chat.Client.EventLoop.{take_signal, client_reads}
use nova_chat.Client.Inbox.{take_push_lem}
use nova_chat.Exchange.Reads.{client_reads-encode}

-- The push of a stored message, read alone by a client that has nothing half read and whose requests
-- have numbers from 1 on, is announced by packetReceived and runs no callback; and the slot of that
-- signal stores the message, with the id, conversation, sender, content and time that the server has
-- for it, and announces it. The payload is parsed as it was serialized and fits its frame, and the
-- id is new to the client.
pub push_arrives :
    (wire : Wire) (msg : MsgRecord) (b : App)
    → let push = push_packet wire msg in
      let info = to_message_info msg in
      (b.tcp.buffer ≡ [])
      → IsPending b.tcp.callbacks b.tcp.seq_counter
      → wire.message_push_format.parse push.payload ≡ some info
      → IsPacket push
      → exists_where (has_id msg.message_id) b.db.messages ≡ false
      → let b' : App = client_reads (encode push) b in
        let b'' : App = take_signal wire (packet_received push) b' in
        (b'.tcp.signals ≡ b.tcp.signals ++ packet_received push ∷ [])
        × (b'.tcp.queued ≡ b.tcp.queued)
        × (b''.events ≡ b.events ++ message_received (from_info info) ∷ [])
        × (Messages.find_by_id msg.message_id b''.db
            ≡ some (record {
              message_id = msg.message_id;
              conversation_id = msg.conversation_id;
              sender_id = msg.sender_id;
              content = msg.content;
              type = text;
              timestamp_ms = msg.timestamp_ms;
              status = sent;
            }))
unfolding take_signal on_packet_received handle_message_push from_info to_message_info
push_arrives wire msg b quiet pending reads fits new =
    let push = push_packet wire msg in
    let read : client_reads (encode push) b ≡ record b { tcp = emit b.tcp (packet_received push) } =
      client_reads-encode push b quiet fits
      ∙ ap (λ (t : TcpClient _). record b { tcp = t })
          (handle_packet-push push b.tcp refl pending) in
    rw read (
      rw (reads, handle_message_push)
        (let (found, told, own, others) =
            take_push_lem wire (to_message_info msg)
              (record b { tcp = emit b.tcp (packet_received push) }) new in
          (refl, refl, told, found)))
