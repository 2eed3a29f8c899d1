-- ===== src/Client/Connection.antt =====
-- How TcpClient connects again: the waits behind failed attempts, and the end of them.
use nova_chat.Prelude.{
  ℕ, zero, suc, ◌+◌, ◌≤◌, ◌<◌, ◌≡◌, refl, sym, ap, ◌∙◌, subst, false, Option, none, some, List, [],
  ◌∷◌, ◌++◌, append_assoc, append-nil, ltb, arith,
}
use nova_chat.Client.TcpClient.{
  TcpClient, Signal, disconnected, reconnecting, connection_failed, Socket, closed, connecting,
  delay_sec, do_connect, run_task, run_first_posted, run_posted, schedule_reconnect, connect_failed,
  timer_checks, timer_connects, reconnect_timer_ended,
}

-- what is announced, and waited for, by `m` failures behind `n`
abbrev waits : ℕ → ℕ → List Signal
waits n zero = []
waits n (suc m) = disconnected ∷ reconnecting (suc n) (delay_sec (suc n)) ∷ waits (suc n) m

abbrev delays : ℕ → ℕ → List ℕ
delays n zero = []
delays n (suc m) = delay_sec (suc n) ∷ delays (suc n) m

module _ {ℓ} {C : Type ℓ} where
  -- if the next attempt is under way
  abbrev if_connecting : ℕ → TcpClient C → Socket → Option (ℕ × TcpClient C)
  if_connecting sec u connecting = some (sec, u)
  if_connecting sec u other = none

  -- An attempt has failed. Where a wait was begun, of so many seconds, it goes by, and what was posted
  -- then runs, behind which the next attempt is under way. `none` where no wait was begun or no
  -- attempt is under way behind it.
  abbrev wait_out : TcpClient C → Option (ℕ × TcpClient C)
  wait_out t = elim t.reconnect_timer [
    | none ↦ none
    | some sec ↦ (let u = run_posted (reconnect_timer_ended t) in if_connecting sec u u.socket)
  ]

  -- The attempt under way fails, and so do the ones behind it, `n` in all: the seconds of the waits,
  -- and the client with the next attempt under way.
  unfoldable pub fail_times : ℕ → TcpClient C → Option (List ℕ × TcpClient C)
  fail_times zero t = some ([], t)
  fail_times (suc n) t = elim (wait_out (connect_failed t)) [
    | none ↦ none
    | some (sec, u) ↦ elim (fail_times n u) [ none ↦ none | some (secs, v) ↦ some (sec ∷ secs, v) ]
  ]

  -- An attempt is under way, behind `n` that failed.
  record Trying (n : ℕ) (t : TcpClient C) : Type ℓ where
    counted : t.reconnect_attempt ≡ n
    automatic : t.manual_disconnect ≡ false
    under_way : t.socket ≡ connecting
    settled : t.posted ≡ []
    unchecked : t.checked ≡ false

  -- what a failed attempt with a wait, and a new attempt, come to
  abbrev next_try : ℕ → TcpClient C → TcpClient C
  next_try n t = record t {
    socket = connecting;
    reconnect_attempt = suc n;
    reconnect_timer = none;
    posted = [];
    checked = false;
    signals = (t.signals ++ disconnected ∷ []) ++ reconnecting (suc n) (delay_sec (suc n)) ∷ [];
  }

  one_more :
      (n : ℕ) (t : TcpClient C)
      → n < 8
      → Trying n t
      → wait_out (connect_failed t) ≡ some (delay_sec (suc n), next_try n t)
  unfolding connect_failed schedule_reconnect reconnect_timer_ended timer_checks timer_connects
      do_connect run_posted run_first_posted run_task delay_sec
  one_more n t h v =
      let e : t.reconnect_attempt + 1 ≡ suc n = omega (arith, v.counted) in
      let room : ltb 8 (suc n) ≡ false = ground arith in
      rw v.automatic (rw e (rw room (rw v.settled refl)))

  -- `m` more
  abbrev tries : ℕ → ℕ → TcpClient C → TcpClient C
  tries n zero t = t
  tries n (suc m) t = tries (suc n) m (next_try n t)

  next_try-Trying : (n : ℕ) (t : TcpClient C) → Trying n t → Trying (suc n) (next_try n t)
  next_try-Trying n t v = record {
    counted = refl;
    automatic = v.automatic;
    under_way = refl;
    settled = refl;
    unchecked = refl;
  }

  fail_times-tries :
      (m n : ℕ) (t : TcpClient C)
      → n + m ≤ 8
      → Trying n t
      → fail_times m t ≡ some (delays n m, tries n m t)
  unfolding fail_times
  fail_times-tries zero n t h v = refl
  fail_times-tries (suc m) n t h v =
      rw (one_more n t (omega arith) v, fail_times)
        (rw (fail_times-tries m (suc n) (next_try n t) (omega arith) (next_try-Trying n t v)) refl)

  tries-Trying : (m n : ℕ) (t : TcpClient C) → Trying n t → Trying (n + m) (tries n m t)
  tries-Trying zero n t v = record {
    counted = omega (arith, v.counted);
    automatic = v.automatic;
    under_way = v.under_way;
    settled = v.settled;
    unchecked = v.unchecked;
  }
  tries-Trying (suc m) n t v =
      let e : suc n + m ≡ n + suc m = omega arith in
      subst (λ k. Trying k (tries (suc n) m (next_try n t))) e
        (tries-Trying m (suc n) (next_try n t) (next_try-Trying n t v))

  signals-tries : (m n : ℕ) (t : TcpClient C) → (tries n m t).signals ≡ t.signals ++ waits n m
  signals-tries zero n t = sym (append-nil t.signals)
  signals-tries (suc m) n t =
      signals-tries m (suc n) (next_try n t)
      ∙ append_assoc (t.signals ++ disconnected ∷ []) _ _
      ∙ append_assoc t.signals (disconnected ∷ []) _

  gives_up :
      (u : TcpClient C)
      → Trying 8 u
      → ((connect_failed u).signals ≡ u.signals ++ disconnected ∷ connection_failed ∷ [])
        × ((connect_failed u).reconnect_timer ≡ u.reconnect_timer)
        × ((connect_failed u).posted ≡ [])
        × ((connect_failed u).socket ≡ closed)
  unfolding connect_failed schedule_reconnect
  gives_up u v =
      let e : u.reconnect_attempt + 1 ≡ 9 = omega (arith, v.counted) in
      rw v.automatic (
        rw e (
          append_assoc u.signals (disconnected ∷ []) (connection_failed ∷ []),
          refl,
          v.settled,
          refl,
        ))

  -- From a client that was not disconnected by hand, whose first attempt to connect is under way,
  -- with nothing posted and no handler of the timer between its question and its call of doConnect,
  -- the first eight failures each begin a wait, of 2, 4, 8, 16, 32 and then three times 60 seconds,
  -- behind which the next attempt is under way; the ninth gives up: the socket is closed, no timer
  -- runs and nothing is posted. Each failure is announced, with the wait that it begins or with the
  -- end, and nothing else is. Nothing else happens in between.
  pub fail_times_give_up :
      (t : TcpClient C)
      → t.manual_disconnect ≡ false
      → t.reconnect_attempt ≡ 0
      → t.socket ≡ connecting
      → t.posted ≡ []
      → t.checked ≡ false
      → (u : TcpClient C) × (fail_times 8 t ≡ some (2 ∷ 4 ∷ 8 ∷ 16 ∷ 32 ∷ 60 ∷ 60 ∷ 60 ∷ [], u))
        × (u.socket ≡ connecting)
        × ((connect_failed u).signals
            ≡ t.signals
              ++ disconnected
                ∷ reconnecting 1 2
                ∷ disconnected
                ∷ reconnecting 2 4
                ∷ disconnected
                ∷ reconnecting 3 8
                ∷ disconnected
                ∷ reconnecting 4 16
                ∷ disconnected
                ∷ reconnecting 5 32
                ∷ disconnected
                ∷ reconnecting 6 60
                ∷ disconnected
                ∷ reconnecting 7 60
                ∷ disconnected
                ∷ reconnecting 8 60
                ∷ disconnected
                ∷ connection_failed
                ∷ [])
        × ((connect_failed u).reconnect_timer ≡ none)
        × ((connect_failed u).posted ≡ [])
        × ((connect_failed u).socket ≡ closed)
  unfolding delay_sec
  fail_times_give_up t m a s p k =
      let v : Trying 0 t = record {
        counted = a;
        automatic = m;
        under_way = s;
        settled = p;
        unchecked = k;
      } in
      let u : TcpClient C = tries 0 8 t in
      let w : Trying 8 u = tries-Trying 8 0 t v in
      let (signals, timer, posted, socket) = gives_up u w in
      (
        u,
        fail_times-tries 8 0 t (omega arith) v,
        w.under_way,
        signals
            ∙ ap (λ r. r ++ disconnected ∷ connection_failed ∷ []) (signals-tries 8 0 t)
            ∙ append_assoc t.signals (waits 0 8) (disconnected ∷ connection_failed ∷ []),
        timer,
        posted,
        socket,
      )
