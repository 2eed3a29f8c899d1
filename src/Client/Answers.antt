-- ===== src/Client/Answers.antt =====
-- Each request that waits is given the first packet with its number.
use nova_chat.Prelude.{
  ℕ, ◌≡◌, refl, sym, ap, ◌∙◌, ◌⊎◌, inl, inr, true, false, Option, none, some, List, [], ◌∷◌, ◌++◌,
  ◌==◌, if◌then◌else◌, arith, All, filter, filter-append, append_assoc, append-nil, Bool-cases,
  Option-cases, ==_iff,
}
use nova_chat.Codec.{Bytes, Packet}
use nova_chat.Codec.Frame.{IsPacket}
use nova_chat.Codec.Stream.{join, encode_all}
use nova_chat.Client.TcpClient.{TcpClient, find_callback, handle_packet, handle_packets}
use nova_chat.Client.Requests.{handle_packet-answer}
use nova_chat.Client.Chunks.{reads, reads-encode_all}

module _ {ℓ} {C : Type ℓ} where
  -- of what was posted to the main thread, the packets with this number
  abbrev pub given : ℕ → List (C × Packet) → List (C × Packet)
  given k = filter λ x. x.1.seq_id == k

  -- the packet, where a callback waits for it
  abbrev pub first_for : Option C → List Packet → List (C × Packet)
  first_for none ps = []
  first_for (some cb) [] = []
  first_for (some cb) (p ∷ ps) = (cb, p) ∷ []

  find-handle_packet :
      (k : ℕ) (p : Packet) (t : TcpClient C)
      → find_callback (handle_packet p t).callbacks k
        ≡ (if p.seq_id == k then none else find_callback t.callbacks k)
  unfolding handle_packet
  find-handle_packet k p t = elim (Option-cases (find_callback t.callbacks p.seq_id)) [
    | inl push ↦ rw (push, handle_packet) (ground (arith, ==_iff p.seq_id k, push))
    | inr (cb, waits) ↦ (let (_, _, found) = handle_packet-answer p cb t waits in found k)
  ]

  given-handle_packet :
      (k : ℕ) (p : Packet) (t : TcpClient C)
      → given k (handle_packet p t).queued
        ≡ given k t.queued
          ++ (if p.seq_id == k then first_for (find_callback t.callbacks k) (p ∷ []) else [])
  unfolding handle_packet
  given-handle_packet k p t = elim (Option-cases (find_callback t.callbacks p.seq_id)) [
    | inl push ↦
        rw (push, handle_packet)
          (sym (append-nil (given k t.queued)) ∙ ap (λ r. given k t.queued ++ r) (unasked push))
    | inr (cb, waits) ↦
        rw (waits, handle_packet)
          (filter-append (λ x. x.1.seq_id == k) t.queued ((cb, p) ∷ [])
            ∙ ap (λ r. given k t.queued ++ r) (asked cb waits))
  ]
    where
      unasked :
          find_callback t.callbacks p.seq_id ≡ none
          → [] ≡ (if p.seq_id == k then first_for (find_callback t.callbacks k) (p ∷ []) else [])
      unasked push = elim (Bool-cases (p.seq_id == k)) [
        | inl own ↦ rw own (
            ap (λ (o : Option C). first_for o (p ∷ []))
              (sym push ∙ ap (find_callback t.callbacks) ((==_iff p.seq_id k).0 own)))
        | inr other ↦ rw other refl
      ]

      asked :
          (cb : C)
          → find_callback t.callbacks p.seq_id ≡ some cb
          → given k ((cb, p) ∷ [])
            ≡ (if p.seq_id == k then first_for (find_callback t.callbacks k) (p ∷ []) else [])
      asked cb waits = elim (Bool-cases (p.seq_id == k)) [
        | inl own ↦ rw own (
            ap (λ (o : Option C). first_for o (p ∷ []))
              (sym waits ∙ ap (find_callback t.callbacks) ((==_iff p.seq_id k).0 own)))
        | inr other ↦ rw other refl
      ]

  first_for-numbered :
      (k : ℕ) (p : Packet) (ps : List Packet) (o : Option C)
      → (if p.seq_id == k then first_for o (p ∷ []) else [])
          ++ first_for (if p.seq_id == k then none else o) (filter (λ q. q.seq_id == k) ps)
        ≡ first_for o (filter (λ q. q.seq_id == k) (p ∷ ps))
  first_for-numbered k p ps o = elim (Bool-cases (p.seq_id == k)) [
    | inl own ↦ rw own (one o)
    | inr other ↦ rw other refl
  ]
    where
      one :
          (r : Option C)
          → first_for r (p ∷ []) ++ [] ≡ first_for r (p ∷ filter (λ q. q.seq_id == k) ps)
      one none = refl
      one (some cb) = refl

  given-handle_packets :
      (k : ℕ) (ps : List Packet) (t : TcpClient C)
      → given k (handle_packets ps t).queued
        ≡ given k t.queued
          ++ first_for (find_callback t.callbacks k) (filter (λ q. q.seq_id == k) ps)
  unfolding handle_packets
  given-handle_packets k [] t =
      sym (append-nil (given k t.queued)) ∙ ap (λ r. given k t.queued ++ r) (nobody _)
    where
      nobody : (o : Option C) → [] ≡ first_for o []
      nobody none = refl
      nobody (some cb) = refl
  given-handle_packets k (p ∷ ps) t =
      given-handle_packets k ps (handle_packet p t)
      ∙ ap
          (λ r.
            r
            ++ first_for (find_callback (handle_packet p t).callbacks k)
                (filter (λ q. q.seq_id == k) ps))
          (given-handle_packet k p t)
      ∙ append_assoc (given k t.queued) _ _
      ∙ ap (λ r. given k t.queued ++ r)
          (ap
              (λ (o : Option C).
                (if p.seq_id == k then first_for (find_callback t.callbacks k) (p ∷ []) else [])
                ++ first_for o (filter (λ q. q.seq_id == k) ps))
              (find-handle_packet k p t)
            ∙ first_for-numbered k p ps (find_callback t.callbacks k))

  -- the callback, where no packet has come for it
  abbrev pub left_for : Option C → List Packet → Option C
  left_for o [] = o
  left_for o (p ∷ ps) = none

  find-handle_packets :
      (k : ℕ) (ps : List Packet) (t : TcpClient C)
      → find_callback (handle_packets ps t).callbacks k
        ≡ left_for (find_callback t.callbacks k) (filter (λ q. q.seq_id == k) ps)
  unfolding handle_packets
  find-handle_packets k [] t = refl
  find-handle_packets k (p ∷ ps) t =
      find-handle_packets k ps (handle_packet p t)
      ∙ ap (λ (o : Option C). left_for o (filter (λ q. q.seq_id == k) ps))
          (find-handle_packet k p t)
      ∙ last (filter (λ q. q.seq_id == k) ps) (Bool-cases (p.seq_id == k))
    where
      gone : (qs : List Packet) → ◌≡◌ {A = Option C} (left_for none qs) none
      gone [] = refl
      gone (q ∷ qs) = refl

      last :
          (qs : List Packet)
          → ((p.seq_id == k) ≡ true) ⊎ ((p.seq_id == k) ≡ false)
          → left_for (if p.seq_id == k then none else find_callback t.callbacks k) qs
            ≡ left_for (find_callback t.callbacks k) (if p.seq_id == k then p ∷ qs else qs)
      last qs (inl own) = rw own (gone qs)
      last qs (inr other) = rw other refl

  -- However the bytes of some packets are cut into reads, each callback that waits is handed over
  -- once, with the first packet that has its number, and does not wait any more; where no packet has
  -- its number it goes on waiting, and a number under which nothing waits hands over nothing. What
  -- had been handed over before stays in front. The conditions: nothing is half read before, and the
  -- packets' fields fit their places in the header.
  pub reads-given :
      (pkts : List Packet) (chunks : List Bytes) (t : TcpClient C) (k : ℕ)
      → t.buffer ≡ []
      → All IsPacket pkts
      → join chunks ≡ encode_all pkts
      → (given k (reads chunks t).queued
          ≡ given k t.queued
            ++ first_for (find_callback t.callbacks k) (filter (λ q. q.seq_id == k) pkts))
        × (find_callback (reads chunks t).callbacks k
            ≡ left_for (find_callback t.callbacks k) (filter (λ q. q.seq_id == k) pkts))
  reads-given pkts chunks t k empty fit cut =
      let whole = reads-encode_all pkts chunks t empty fit cut in
      (
        ap (λ (u : TcpClient C). given k u.queued) whole ∙ given-handle_packets k pkts t,
        ap (λ (u : TcpClient C). find_callback u.callbacks k) whole ∙ find-handle_packets k pkts t,
      )
