-- ===== src/Client/Requests.antt =====
-- Sequence numbers and response callbacks of TcpClient.
use nova_chat.Prelude.{
  ℕ, ◌+◌, ◌%◌, ◌^◌, ◌≤◌, ◌<◌, ◌≡◌, refl, inl, inr, Option, none, some, List, [], ◌∷◌, ◌++◌, ◌==◌,
  if◌then◌else◌, arith, Option-cases,
}
use nova_chat.Codec.{Packet}
use nova_chat.Client.TcpClient.{
  TcpClient, packet_received, find_callback, put_callback, erase_callback, emit, next_seq_id,
  send_packet, send_request, handle_packet, connect_succeeded, on_connection_lost,
  schedule_reconnect,
}

module _ {ℓ} {C : Type ℓ} where
  pub find-put :
      (m : List (ℕ × C)) (k j : ℕ) (c : C)
      → find_callback (put_callback m k c) j ≡ (if k == j then some c else find_callback m j)
  unfolding find_callback put_callback
  find-put [] k j c = refl
  find-put ((i, cb) ∷ m) k j c = ground (arith, find-put m k j c)

  find-erase :
      (m : List (ℕ × C)) (k j : ℕ)
      → find_callback (erase_callback m k) j ≡ (if k == j then none else find_callback m j)
  unfolding find_callback erase_callback
  find-erase [] k j = ground arith
  find-erase ((i, cb) ∷ m) k j = ground (arith, find-erase m k j)

  -- The sequence numbers that wait for a response have been drawn, and none is 0.
  abbrev pub IsPending : List (ℕ × C) → ℕ → Type ℓ
  IsPending m n = (k : ℕ) (cb : C) → find_callback m k ≡ some cb → (0 < k) × (k ≤ n)

  -- If the counter does not wrap and the numbers that wait stand between 1 and the counter, a
  -- request gets a number that no request waits under, the numbers that wait stay between 1 and the
  -- counter, and every other callback stays what it was.
  pub send_request-IsPending :
      (p : Packet) (cb : C) (t : TcpClient C)
      → t.seq_counter + 1 < 2 ^ 32
      → IsPending t.callbacks t.seq_counter
      → let t' : TcpClient C = send_request p cb t in
        (t'.seq_counter ≡ t.seq_counter + 1)
        × IsPending t'.callbacks t'.seq_counter
        × (find_callback t.callbacks t'.seq_counter ≡ none)
        × ((k : ℕ)
            → find_callback t'.callbacks k
              ≡ (if t'.seq_counter == k then some cb else find_callback t.callbacks k))
  unfolding send_request next_seq_id send_packet
  send_request-IsPending p cb t h v =
      let e : (t.seq_counter + 1) % 2 ^ 32 ≡ t.seq_counter + 1 = omega arith in
      rw e (
        refl,
        λ k c f. bound k c (find-put t.callbacks (t.seq_counter + 1) k cb) f (v k c),
        unused (find_callback t.callbacks (t.seq_counter + 1)) refl (v (t.seq_counter + 1)),
        λ k. find-put t.callbacks (t.seq_counter + 1) k cb,
      )
    where
      bound :
          (k : ℕ) (c : C)
          → find_callback (put_callback t.callbacks (t.seq_counter + 1) cb) k
            ≡ (if t.seq_counter + 1 == k then some cb else find_callback t.callbacks k)
          → find_callback (put_callback t.callbacks (t.seq_counter + 1) cb) k ≡ some c
          → (find_callback t.callbacks k ≡ some c → (0 < k) × (k ≤ t.seq_counter))
          → (0 < k) × (k ≤ t.seq_counter + 1)
      bound k c e f old = ground arith

      unused :
          (o : Option C)
          → find_callback t.callbacks (t.seq_counter + 1) ≡ o
          → ((c : C)
              → find_callback t.callbacks (t.seq_counter + 1) ≡ some c
              → (0 < t.seq_counter + 1) × (t.seq_counter + 1 ≤ t.seq_counter))
          → find_callback t.callbacks (t.seq_counter + 1) ≡ none
      unused none e w = e
      unused (some c) e w = absurd (omega (arith, (w c e).1))

  -- A response runs the callback of the request with its number: once, since the callback is gone
  -- afterwards, and without touching the callbacks of other numbers. It emits no signal.
  pub handle_packet-answer :
      (p : Packet) (cb : C) (t : TcpClient C)
      → find_callback t.callbacks p.seq_id ≡ some cb
      → let t' : TcpClient C = handle_packet p t in
        (t'.queued ≡ t.queued ++ (cb, p) ∷ [])
        × (t'.signals ≡ t.signals)
        × ((k : ℕ)
            → find_callback t'.callbacks k
              ≡ (if p.seq_id == k then none else find_callback t.callbacks k))
  unfolding handle_packet
  handle_packet-answer p cb t h =
      rw (h, handle_packet) (refl, refl, λ k. find-erase t.callbacks p.seq_id k)

  -- If no request waits under number 0, a push, which has that number, goes to packetReceived: it
  -- never runs the callback of a request.
  pub handle_packet-push :
      (p : Packet) (t : TcpClient C)
      → p.seq_id ≡ 0
      → IsPending t.callbacks t.seq_counter
      → handle_packet p t ≡ emit t (packet_received p)
  unfolding handle_packet
  handle_packet-push p t z v = elim (Option-cases (find_callback t.callbacks p.seq_id)) [
    | inl free ↦ rw (free, handle_packet)
    | inr (cb, found) ↦ absurd (omega (arith, (v p.seq_id cb found).0))
  ]

  -- No callback waits right after a connection has come about, and none right after one was lost: a
  -- request of an old connection is never answered by a new one.
  pub callbacks_cleared :
      (t : TcpClient C) (k : ℕ)
      → (find_callback (connect_succeeded t).callbacks k ≡ none)
        × (find_callback (on_connection_lost t).callbacks k ≡ none)
  unfolding connect_succeeded on_connection_lost schedule_reconnect find_callback
  callbacks_cleared t k = (refl, ground arith)
