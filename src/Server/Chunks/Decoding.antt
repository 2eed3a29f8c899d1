-- ===== src/Server/Chunks/Decoding.antt =====
-- The packets that the sessions' decoders make of mixed reads.
use nova_chat.Prelude.{
  ℕ, ◌≡◌, refl, sym, ap, subst, ◌∙◌, inl, inr, false, List, [], ◌∷◌, ◌++◌, ◌==◌, if◌then◌else◌,
  ==_iff, eqb_refl, Bool-cases, map,
}
use nova_chat.Codec.{Bytes, Packet, feed, feed_all}

-- what is kept for each session, with another value for one
abbrev pub set : (ℕ → Bytes) → ℕ → Bytes → ℕ → Bytes
set b i left j = if i == j then left else b j

-- The packets that reads complete, in the order in which they do, each with its session, and what is
-- left in the buffers. A read is a session and the bytes that came.
unfoldable pub decode : (ℕ → Bytes) → List (ℕ × Bytes) → List (ℕ × Packet) × (ℕ → Bytes)
decode b [] = ([], b)
decode b ((i, chunk) ∷ rest) =
    let (now, left) = feed (b i) chunk in
    let (later, last) = decode (set b i left) rest in (map (λ p. (i, p)) now ++ later, last)

-- of these only the session's
abbrev pub of_session : {A : Type 0} → ℕ → List (ℕ × A) → List A
of_session i [] = []
of_session i ((j, x) ∷ rest) = if j == i then x ∷ of_session i rest else of_session i rest

of_session-append :
    (i : ℕ) (xs ys : List (ℕ × Packet))
    → of_session i (xs ++ ys) ≡ of_session i xs ++ of_session i ys
of_session-append i [] ys = refl
of_session-append i ((j, x) ∷ xs) ys = elim (Bool-cases (j == i)) [
  | inl own ↦ rw own (ap (λ r. x ∷ r) (of_session-append i xs ys))
  | inr other ↦ rw other (of_session-append i xs ys)
]

own_packets : (i : ℕ) (pkts : List Packet) → of_session i (map (λ p. (i, p)) pkts) ≡ pkts
own_packets i [] = refl
own_packets i (p ∷ pkts) = rw (eqb_refl i) (ap (λ r. p ∷ r) (own_packets i pkts))

other_packets :
    (i j : ℕ) (pkts : List Packet) → (j == i) ≡ false → of_session i (map (λ p. (j, p)) pkts) ≡ []
other_packets i j [] h = refl
other_packets i j (p ∷ pkts) h = rw h (other_packets i j pkts h)

-- what a session's decoder has done, for the reads that follow
abbrev Decoded : ℕ → List (ℕ × Bytes) → Type 0
Decoded i rs =
    (b : ℕ → Bytes)
    → ◌≡◌ {A = List Packet × Bytes} (of_session i (decode b rs).0, (decode b rs).1 i)
        (feed_all (b i) (of_session i rs))

own_read :
    (i : ℕ) (chunk : Bytes) (rs : List (ℕ × Bytes)) (b : ℕ → Bytes)
    → Decoded i rs
    → ◌≡◌ {A = List Packet × Bytes}
        (of_session i (decode b ((i, chunk) ∷ rs)).0, (decode b ((i, chunk) ∷ rs)).1 i)
        (feed_all (b i) (chunk ∷ of_session i rs))
unfolding decode feed_all
own_read i chunk rs b h =
    let (now, left) = feed (b i) chunk in
    let (later, last) = decode (set b i left) rs in
    let rest : ◌≡◌ {A = List Packet × Bytes} (of_session i later, last i)
        (feed_all left (of_session i rs)) =
      h (set b i left) ∙ ap (λ c. feed_all c (of_session i rs)) (rw (eqb_refl i) refl) in
    ap (λ (xs : List Packet). (xs, last i))
      (of_session-append i (map (λ p. (i, p)) now) later
        ∙ ap (λ r. r ++ of_session i later) (own_packets i now))
    ∙ ap (λ (r : List Packet × Bytes). (now ++ r.0, r.1)) rest

other_read :
    (i j : ℕ) (chunk : Bytes) (rs : List (ℕ × Bytes)) (b : ℕ → Bytes)
    → (j == i) ≡ false
    → Decoded i rs
    → ◌≡◌ {A = List Packet × Bytes}
        (of_session i (decode b ((j, chunk) ∷ rs)).0, (decode b ((j, chunk) ∷ rs)).1 i)
        (feed_all (b i) (of_session i rs))
unfolding decode
other_read i j chunk rs b other h =
    let (now, left) = feed (b j) chunk in
    let (later, last) = decode (set b j left) rs in
    ap (λ (xs : List Packet). (xs, last i))
      (of_session-append i (map (λ p. (j, p)) now) later
        ∙ ap (λ r. r ++ of_session i later) (other_packets i j now other))
    ∙ h (set b j left)
    ∙ ap (λ c. feed_all c (of_session i rs)) (rw other refl)

-- Each session's packets and rest are what its decoder alone makes of its own reads.
pub of_session-decode : (i : ℕ) (rs : List (ℕ × Bytes)) → Decoded i rs
unfolding decode feed_all
of_session-decode i [] b = refl
of_session-decode i ((j, chunk) ∷ rs) b = elim (Bool-cases (j == i)) [
  | inl own ↦ rw own (
      subst
        (λ k.
          ◌≡◌ {A = List Packet × Bytes}
            (of_session i (decode b ((k, chunk) ∷ rs)).0, (decode b ((k, chunk) ∷ rs)).1 i)
            (feed_all (b i) (chunk ∷ of_session i rs)))
        (sym ((==_iff j i).0 own)) (own_read i chunk rs b (of_session-decode i rs)))
  | inr other ↦ rw other (other_read i j chunk rs b other (of_session-decode i rs))
]
