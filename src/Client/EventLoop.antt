-- ===== src/Client/EventLoop.antt =====
-- The client's main thread: the calls that TcpClient posts to it (client/src/network/TcpClient.cpp,
-- handlePacket), and the slots of its signals that are connected in client/src/service.
use nova_chat.Prelude.{Option, some, List, [], ◌∷◌}
use nova_chat.Codec.{Bytes, Packet}
use nova_chat.Proto.{Wire}
use nova_chat.Client.TcpClient.{Signal, packet_received, received, on_read}
use nova_chat.Client.App.{
  App, Callback, on_login, on_register, on_contacts, on_friend_added, on_friend_deleted, on_search,
  on_message_sent, on_history, on_conversations,
}
use nova_chat.Client.AuthService.{login_answered, register_answered}
use nova_chat.Client.ContactService.{
  contacts_answered, friend_added, friend_deleted, search_answered,
}
use nova_chat.Client.ChatService.{
  message_answered, history_answered, conversations_answered, on_packet_received,
}

module _ (wire : Wire) where
  -- `cb(pkt)`: the lambda that was given with the request; `none` as for `contacts_answered`
  unfoldable pub run_callback : Callback → Packet → App → Option App
  run_callback (on_login username) pkt a = some (login_answered wire username pkt a)
  run_callback on_register pkt a = some (register_answered wire pkt a)
  run_callback on_contacts pkt a = contacts_answered wire pkt a
  run_callback on_friend_added pkt a = some (friend_added wire pkt a)
  run_callback (on_friend_deleted id) pkt a = some (friend_deleted wire id pkt a)
  run_callback on_search pkt a = some (search_answered wire pkt a)
  run_callback (on_message_sent id) pkt a = some (message_answered wire id pkt a)
  run_callback (on_history conv_id) pkt a = some (history_answered wire conv_id pkt a)
  run_callback on_conversations pkt a = some (conversations_answered wire pkt a)

  -- the next posted callback, of those that wait
  unfoldable pub run_first : List (Callback × Packet) → App → Option App
  run_first [] a = some a
  run_first ((cb, pkt) ∷ rest) a =
      run_callback cb pkt (record a { tcp = record a.tcp { queued = rest } })

  unfoldable pub run_next : App → Option App
  unfolding run_first
  run_next a = run_first a.tcp.queued a

  -- ChatService::onPacketReceived, the one slot of packetReceived
  unfoldable pub take_signal : Signal → App → App
  take_signal (packet_received pkt) a = on_packet_received wire pkt a
  take_signal other a = a

-- a read of the io thread
unfoldable pub client_reads : Bytes → App → App
client_reads incoming a = record a { tcp = on_read (received incoming) a.tcp }
