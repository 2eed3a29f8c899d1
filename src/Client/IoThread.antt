-- ===== src/Client/IoThread.antt =====
-- The io thread of TcpClient: what may happen on it, and what can come of that once disconnectFromServer
-- was called.
use nova_chat.Prelude.{ℕ, ◌≡◌, refl, true, false, Option, none, List, [], ◌∷◌, ◌++◌}
use nova_chat.Prelude.Branches.{parsed}
use nova_chat.Codec.{Packet}
use nova_chat.Client.TcpClient.{
  TcpClient, ReadResult, aborted, failed, received, Socket, closed, connecting, opened, Posted,
  opens, closes, opened_by, find_callback, do_connect, disconnect_from_server, run_task,
  run_first_posted, run_posted, schedule_reconnect, schedule_heartbeat, connect_failed,
  connect_succeeded, timer_checks, timer_connects, on_connection_lost, send_packet,
  heartbeat_timer_ended, handle_packet, handle_packets, on_read,
}

-- What the io thread runs next. An attempt that was aborted is one whose socket was closed before it
-- came to an end.
pub data IoEvent : Type 0 where
  task : IoEvent
  attempt_failed : IoEvent
  attempt_aborted : IoEvent
  attempt_succeeded : IoEvent
  wait_over : IoEvent
  wait_handled : IoEvent
  beat : IoEvent
  reads : ReadResult → IoEvent

-- the socket when what is posted has run, and the reconnect timer
abbrev pub socket_after : List Posted → Socket → Socket
socket_after [] s = s
socket_after (opens ∷ ps) s = socket_after ps connecting
socket_after (closes ∷ ps) s = socket_after ps closed

abbrev pub timer_after : List Posted → Option ℕ → Option ℕ
timer_after [] r = r
timer_after (opens ∷ ps) r = timer_after ps r
timer_after (closes ∷ ps) r = timer_after ps none

-- the io thread runs all that is posted
abbrev pub tasks : List Posted → List IoEvent
tasks [] = []
tasks (p ∷ ps) = task ∷ tasks ps

socket_after-closes : (ps : List Posted) (s : Socket) → socket_after (ps ++ closes ∷ []) s ≡ closed
socket_after-closes [] s = refl
socket_after-closes (opens ∷ ps) s = socket_after-closes ps connecting
socket_after-closes (closes ∷ ps) s = socket_after-closes ps closed

timer_after-closes : (ps : List Posted) (r : Option ℕ) → timer_after (ps ++ closes ∷ []) r ≡ none
timer_after-closes [] r = refl
timer_after-closes (opens ∷ ps) r = timer_after-closes ps r
timer_after-closes (closes ∷ ps) r = timer_after-closes ps none

-- A socket that will be closed will be closed whatever becomes of it before.
socket_after-closed :
    (ps : List Posted) (s : Socket) → socket_after ps s ≡ closed → socket_after ps closed ≡ closed
socket_after-closed [] s h = refl
socket_after-closed (opens ∷ ps) s h = h
socket_after-closed (closes ∷ ps) s h = h

socket_after-opened_by :
    (ps : List Posted) (s : Socket)
    → socket_after ps s ≡ closed
    → socket_after ps (opened_by s) ≡ closed
unfolding opened_by
socket_after-opened_by [] closed h = refl
socket_after-opened_by [] connecting h = absurd (not_closed h)
  where
    not_closed : connecting ≡ closed → ⊥
    not_closed e = cc
socket_after-opened_by [] opened h = h
socket_after-opened_by (opens ∷ ps) s h = h
socket_after-opened_by (closes ∷ ps) s h = h

timer_after-none : (ps : List Posted) → timer_after ps none ≡ none
timer_after-none [] = refl
timer_after-none (opens ∷ ps) = timer_after-none ps
timer_after-none (closes ∷ ps) = timer_after-none ps

module _ {ℓ} {C : Type ℓ} where
  -- A handler that asio had queued before its operation was cancelled still runs, so any event may
  -- come at any time.
  unfoldable pub io_step : IoEvent → TcpClient C → TcpClient C
  io_step task t = run_posted t
  io_step attempt_failed t = connect_failed t
  io_step attempt_aborted t = schedule_reconnect t
  io_step attempt_succeeded t = connect_succeeded t
  io_step wait_over t = timer_checks t
  io_step wait_handled t = timer_connects t
  io_step beat t = heartbeat_timer_ended t
  io_step (reads r) t = on_read r t

  unfoldable pub io_steps : List IoEvent → TcpClient C → TcpClient C
  io_steps [] t = t
  io_steps (e ∷ es) t = io_steps es (io_step e t)

  -- The client was disconnected by hand, and when what is posted has run its socket is closed and no
  -- wait is left.
  pub record IsOff (t : TcpClient C) : Type 0 where
    pub by_hand : t.manual_disconnect ≡ true
    pub unchecked : t.checked ≡ false
    pub shut : socket_after t.posted t.socket ≡ closed
    pub no_wait : timer_after t.posted t.reconnect_timer ≡ none

  handle_packet-IsOff : (p : Packet) (t : TcpClient C) → IsOff t → IsOff (handle_packet p t)
  unfolding handle_packet
  handle_packet-IsOff p t v =
      parsed IsOff (find_callback t.callbacks p.seq_id)
        (record {
          by_hand = v.by_hand;
          unchecked = v.unchecked;
          shut = v.shut;
          no_wait = v.no_wait;
        })
        (λ cb. record {
          by_hand = v.by_hand;
          unchecked = v.unchecked;
          shut = v.shut;
          no_wait = v.no_wait;
        })

  handle_packets-IsOff :
      (ps : List Packet) (t : TcpClient C) → IsOff t → IsOff (handle_packets ps t)
  unfolding handle_packets
  handle_packets-IsOff [] t v = v
  handle_packets-IsOff (p ∷ ps) t v =
      handle_packets-IsOff ps (handle_packet p t) (handle_packet-IsOff p t v)

  run_first_posted-IsOff :
      (ps : List Posted) (t : TcpClient C) → t.posted ≡ ps → IsOff t → IsOff (run_first_posted ps t)
  unfolding run_first_posted run_task
  run_first_posted-IsOff [] t e v = v
  run_first_posted-IsOff (opens ∷ ps) t e v = record {
    by_hand = v.by_hand;
    unchecked = v.unchecked;
    shut = rw e at v.shut;
    no_wait = rw e at v.no_wait;
  }
  run_first_posted-IsOff (closes ∷ ps) t e v = record {
    by_hand = v.by_hand;
    unchecked = v.unchecked;
    shut = rw e at v.shut;
    no_wait = rw e at v.no_wait;
  }

  io_step-IsOff : (e : IoEvent) (t : TcpClient C) → IsOff t → IsOff (io_step e t)
  unfolding io_step connect_failed connect_succeeded schedule_heartbeat timer_checks timer_connects
      on_read on_connection_lost schedule_reconnect heartbeat_timer_ended send_packet run_posted
  io_step-IsOff task t v = run_first_posted-IsOff t.posted t refl v
  io_step-IsOff attempt_failed t v = rw v.by_hand (record {
    by_hand = refl;
    unchecked = v.unchecked;
    shut = socket_after-closed t.posted t.socket v.shut;
    no_wait = v.no_wait;
  })
  io_step-IsOff attempt_aborted t v =
      rw v.by_hand
        (record { by_hand = refl; unchecked = v.unchecked; shut = v.shut; no_wait = v.no_wait })
  io_step-IsOff attempt_succeeded t v = record {
    by_hand = v.by_hand;
    unchecked = v.unchecked;
    shut = socket_after-opened_by t.posted t.socket v.shut;
    no_wait = v.no_wait;
  }
  io_step-IsOff wait_over t v = rw v.by_hand (record {
    by_hand = refl;
    unchecked = v.unchecked;
    shut = v.shut;
    no_wait = timer_after-none t.posted;
  })
  io_step-IsOff wait_handled t v =
      rw v.unchecked
        (record { by_hand = v.by_hand; unchecked = refl; shut = v.shut; no_wait = v.no_wait })
  io_step-IsOff beat t v = record {
    by_hand = v.by_hand;
    unchecked = v.unchecked;
    shut = v.shut;
    no_wait = v.no_wait;
  }
  io_step-IsOff (reads aborted) t v = v
  io_step-IsOff (reads failed) t v =
      rw v.by_hand
        (record { by_hand = refl; unchecked = v.unchecked; shut = v.shut; no_wait = v.no_wait })
  io_step-IsOff (reads (received incoming)) t v =
      handle_packets-IsOff _ _ (record {
        by_hand = v.by_hand;
        unchecked = v.unchecked;
        shut = v.shut;
        no_wait = v.no_wait;
      })

  pub io_steps-IsOff : (es : List IoEvent) (t : TcpClient C) → IsOff t → IsOff (io_steps es t)
  unfolding io_steps
  io_steps-IsOff [] t v = v
  io_steps-IsOff (e ∷ es) t v = io_steps-IsOff es (io_step e t) (io_step-IsOff e t v)

  -- Where the client is off and everything posted runs, its socket is closed and no wait is left.
  pub IsOff-settled :
      (ps : List Posted) (t : TcpClient C)
      → t.posted ≡ ps
      → IsOff t
      → let u : TcpClient C = io_steps (tasks ps) t in
        (u.posted ≡ []) × (u.socket ≡ closed) × (u.reconnect_timer ≡ none)
  unfolding io_steps io_step run_posted run_first_posted run_task
  IsOff-settled [] t e v = (e, rw e at v.shut, rw e at v.no_wait)
  IsOff-settled (opens ∷ ps) t e v = rw e (
      IsOff-settled ps (run_first_posted (opens ∷ ps) t) refl
        (run_first_posted-IsOff (opens ∷ ps) t e v))
  IsOff-settled (closes ∷ ps) t e v = rw e (
      IsOff-settled ps (run_first_posted (closes ∷ ps) t) refl
        (run_first_posted-IsOff (closes ∷ ps) t e v))

  -- After disconnectFromServer the socket is closed and no wait is left when what is posted has run,
  -- whatever happens on the io thread, until connectToServer is called, if no handler of the
  -- reconnect timer stands between its question and its call of doConnect.
  pub disconnect_is_final :
      (es : List IoEvent) (t : TcpClient C)
      → t.checked ≡ false
      → IsOff (io_steps es (disconnect_from_server t))
  unfolding disconnect_from_server
  disconnect_is_final es t unchecked = io_steps-IsOff es _ (record {
    by_hand = refl;
    unchecked = unchecked;
    shut = socket_after-closes t.posted t.socket;
    no_wait = timer_after-closes t.posted t.reconnect_timer;
  })

  -- If a handler of the reconnect timer stands between its question and its call of doConnect, and
  -- nothing else is posted, a connection comes about behind disconnectFromServer.
  late_connect :
      (t : TcpClient C)
      → t.checked ≡ true
      → t.posted ≡ []
      → let u : TcpClient C =
          io_steps
            (wait_handled ∷ task ∷ task ∷ attempt_succeeded ∷ [])
            (disconnect_from_server t) in
        (u.manual_disconnect ≡ true) × (u.socket ≡ opened)
  unfolding io_steps io_step disconnect_from_server timer_connects do_connect run_posted
      run_first_posted run_task connect_succeeded opened_by schedule_heartbeat
  late_connect t between nothing = rw between (rw nothing (refl, refl))
