-- ===== src/Client/TcpClient.antt =====
-- client/src/network/TcpClient.h and TcpClient.cpp. Each function is one handler that runs on the
-- io thread or one call from the main thread. What asio decides (whether a connection comes about,
-- what a read returns, when a timer ends) is which handler runs next, and with which argument.
use nova_chat.Prelude.{
  ℕ, ◌+◌, ◌%◌, ◌^◌, min, Bool, true, false, Option, none, some, List, [], ◌∷◌, ◌++◌, ltb, ◌==◌,
  if◌then◌else◌,
}
use nova_chat.Prelude.Text.{Text}
use nova_chat.MessageType.{heartbeat_request}
use nova_chat.Codec.{Bytes, Packet, encode, feed}

pub data Signal : Type 0 where
  connected : Signal
  disconnected : Signal
  reconnecting : ℕ → ℕ → Signal
  connection_failed : Signal
  packet_received : Packet → Signal

-- What becomes of the socket: without a connection or an attempt to make one, with an async_connect
-- under way, or with a connection.
pub data Socket : Type 0 where
  closed : Socket
  connecting : Socket
  opened : Socket

-- What was posted to the io thread and has not run yet: the lambda of doConnect, or that of
-- disconnectFromServer.
pub data Posted : Type 0 where
  opens : Posted
  closes : Posted

-- `checked` says that the handler of the reconnect timer has found the client not disconnected by
-- hand and has not called doConnect yet; the main thread may run in between.
-- `reconnect_timer` and `heartbeat_timer` hold the seconds that a running timer was set to;
-- `queued` are the callbacks handed to the main thread. `C` is the type of callbacks.
pub record TcpClient {ℓ} (C : Type ℓ) : Type ℓ where
  pub buffer : Bytes
  pub seq_counter : ℕ
  pub callbacks : List (ℕ × C)
  pub cached_host : Text
  pub cached_port : ℕ
  pub reconnect_attempt : ℕ
  pub manual_disconnect : Bool
  pub socket : Socket
  pub posted : List Posted
  pub checked : Bool
  pub reconnect_timer : Option ℕ
  pub heartbeat_timer : Option ℕ
  pub heartbeat_interval : ℕ
  pub sent : List Bytes
  pub signals : List Signal
  pub queued : List (C × Packet)

-- How an async_read_some ends: operation_aborted, another error, or bytes.
pub data ReadResult : Type 0 where
  aborted : ReadResult
  failed : ReadResult
  received : Bytes → ReadResult

abbrev pub max_reconnect_attempts : ℕ
max_reconnect_attempts = 8

abbrev pub max_reconnect_delay_sec : ℕ
max_reconnect_delay_sec = 60

-- `1 << attempt` seconds, but at most a minute
unfoldable pub delay_sec : ℕ → ℕ
delay_sec attempt = min (2 ^ attempt) max_reconnect_delay_sec

-- A connection that came about before its socket was closed again does not open it.
unfoldable pub opened_by : Socket → Socket
opened_by closed = closed
opened_by connecting = opened
opened_by opened = opened

-- std::unordered_map<uint32_t, ResponseCallback>
module _ {ℓ} {C : Type ℓ} where
  unfoldable pub find_callback : List (ℕ × C) → ℕ → Option C
  find_callback [] seq = none
  find_callback ((k, cb) ∷ m) seq = if k == seq then some cb else find_callback m seq

  unfoldable pub erase_callback : List (ℕ × C) → ℕ → List (ℕ × C)
  erase_callback [] seq = []
  erase_callback ((k, cb) ∷ m) seq =
      if k == seq then erase_callback m seq else (k, cb) ∷ erase_callback m seq

  -- callbacks_[seq] = callback
  unfoldable pub put_callback : List (ℕ × C) → ℕ → C → List (ℕ × C)
  put_callback [] seq c = (seq, c) ∷ []
  put_callback ((k, cb) ∷ m) seq c =
      if k == seq then (seq, c) ∷ m else (k, cb) ∷ put_callback m seq c

  abbrev pub emit : TcpClient C → Signal → TcpClient C
  emit t s = record t { signals = t.signals ++ s ∷ [] }

  unfoldable pub next_seq_id : TcpClient C → ℕ × TcpClient C
  next_seq_id t = let seq = (t.seq_counter + 1) % 2 ^ 32 in (seq, record t { seq_counter = seq })

  unfoldable pub do_connect : TcpClient C → TcpClient C
  do_connect t = record t { posted = t.posted ++ opens ∷ [] }

  unfoldable pub connect_to_server : Text → ℕ → TcpClient C → TcpClient C
  unfolding do_connect
  connect_to_server host port t = do_connect (record t {
    cached_host = host;
    cached_port = port;
    manual_disconnect = false;
    reconnect_attempt = 0;
  })

  unfoldable pub disconnect_from_server : TcpClient C → TcpClient C
  disconnect_from_server t = record t { manual_disconnect = true; posted = t.posted ++ closes ∷ [] }

  -- The lambda of doConnect closes the socket and begins to connect; where the name is not resolved,
  -- `connect_failed` follows at once. That of disconnectFromServer closes the socket and cancels the
  -- timers.
  unfoldable pub run_task : Posted → TcpClient C → TcpClient C
  run_task opens t = record t { socket = connecting }
  run_task closes t = record t { socket = closed; reconnect_timer = none; heartbeat_timer = none }

  -- the io thread takes what was posted first
  unfoldable pub run_first_posted : List Posted → TcpClient C → TcpClient C
  unfolding run_task
  run_first_posted [] t = t
  run_first_posted (p ∷ ps) t = run_task p (record t { posted = ps })

  unfoldable pub run_posted : TcpClient C → TcpClient C
  unfolding run_first_posted
  run_posted t = run_first_posted t.posted t

  unfoldable pub schedule_reconnect : TcpClient C → TcpClient C
  unfolding delay_sec
  schedule_reconnect t =
      let attempt = t.reconnect_attempt + 1 in
      let off = record t {
        signals = t.signals ++ disconnected ∷ [];
        reconnect_attempt = attempt;
      } in
      if t.manual_disconnect
      then t
      else if ltb max_reconnect_attempts attempt
      then emit off connection_failed
      else record (emit off (reconnecting attempt (delay_sec attempt))) {
        reconnect_timer = some (delay_sec attempt);
      }

  -- the name was not resolved, or async_connect failed
  unfoldable pub connect_failed : TcpClient C → TcpClient C
  connect_failed t = schedule_reconnect (record t { socket = closed })

  unfoldable pub schedule_heartbeat : TcpClient C → TcpClient C
  schedule_heartbeat t = record t { heartbeat_timer = some t.heartbeat_interval }

  -- async_connect succeeded
  unfoldable pub connect_succeeded : TcpClient C → TcpClient C
  unfolding schedule_heartbeat opened_by
  connect_succeeded t = schedule_heartbeat (
      emit
        (record t {
          socket = opened_by t.socket;
          reconnect_attempt = 0;
          callbacks = [];
          buffer = [];
        })
        connected)

  -- The reconnect timer ended by itself: its handler asks whether the client was disconnected by
  -- hand,
  unfoldable pub timer_checks : TcpClient C → TcpClient C
  timer_checks t =
      let off = record t { reconnect_timer = none } in
      if t.manual_disconnect then off else record off { checked = true }

  -- and then calls doConnect.
  unfoldable pub timer_connects : TcpClient C → TcpClient C
  unfolding do_connect
  timer_connects t = if t.checked then do_connect (record t { checked = false }) else t

  -- the handler where the main thread does nothing in between
  unfoldable pub reconnect_timer_ended : TcpClient C → TcpClient C
  unfolding timer_checks timer_connects
  reconnect_timer_ended t = timer_connects (timer_checks t)

  unfoldable pub on_connection_lost : TcpClient C → TcpClient C
  on_connection_lost t = schedule_reconnect (record t { callbacks = []; heartbeat_timer = none })

  unfoldable pub send_packet : Packet → TcpClient C → TcpClient C
  send_packet packet t = record t { sent = t.sent ++ encode packet ∷ [] }

  -- sendPacket with a callback
  unfoldable pub send_request : Packet → C → TcpClient C → TcpClient C
  unfolding send_packet
  send_request packet callback t =
      let (seq, t') = next_seq_id t in
      send_packet (record packet { seq_id = seq })
        (record t' { callbacks = put_callback t'.callbacks seq callback })

  -- the heartbeat timer ended by itself
  unfoldable pub heartbeat_timer_ended : TcpClient C → TcpClient C
  unfolding next_seq_id schedule_heartbeat
  heartbeat_timer_ended t =
      let (seq, t') = next_seq_id t in
      schedule_heartbeat
        (send_packet (record { type = heartbeat_request; seq_id = seq; payload = [] }) t')

  unfoldable pub handle_packet : Packet → TcpClient C → TcpClient C
  handle_packet packet t = elim (find_callback t.callbacks packet.seq_id) [
    | none ↦ emit t (packet_received packet)
    | some cb ↦ record t {
      callbacks = erase_callback t.callbacks packet.seq_id;
      queued = t.queued ++ (cb, packet) ∷ [];
    }
  ]

  unfoldable pub handle_packets : List Packet → TcpClient C → TcpClient C
  handle_packets [] t = t
  handle_packets (p ∷ ps) t = handle_packets ps (handle_packet p t)

  -- the completion of async_read_some
  unfoldable pub on_read : ReadResult → TcpClient C → TcpClient C
  on_read aborted t = t
  on_read failed t = on_connection_lost t
  on_read (received incoming) t =
      let (packets, left) = feed t.buffer incoming in
      handle_packets packets (record t { buffer = left })
