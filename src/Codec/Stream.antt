-- ===== src/Codec/Stream.antt =====
-- Streams of frames: `encode` at one end of a connection and `feed` at the other, whatever the
-- pieces in which the bytes arrive.
use nova_chat.Prelude.{
  ℕ, zero, suc, ◌≤◌, ◌<◌, ◌≡◌, refl, sym, ap, ◌∙◌, inl, inr, Bool-cases, ltb, ltb→lt, ltb→le, List,
  [], ◌∷◌, ◌++◌, append-nil, append_assoc, arith, length, length-append, append_split, All,
}
use nova_chat.Codec.{
  Bytes, Packet, magic, header_size, encode, from_be16, feed_loop, feed, feed_all,
}
use nova_chat.Codec.Frame.{
  IsPacket, length-encode, feed_loop-encode, feed_loop-short, feed_loop_fuel, IsWaiting,
  feed_loop-IsWaiting,
}

-- What a sender writes for a list of packets, one `async_write` after the other.
abbrev pub encode_all : List Packet → Bytes
encode_all [] = []
encode_all (p ∷ ps) = encode p ++ encode_all ps

abbrev pub join : List Bytes → Bytes
join [] = []
join (c ∷ cs) = c ++ join cs

-- A buffer is less than the first frame that is still to be delivered.
abbrev IsPartOf : Bytes → List Packet → Type 0
IsPartOf b [] = b ≡ []
IsPartOf b (p ∷ ps) = length b < length (encode p)

-- The loop on a prefix of a stream: it delivers `now`, and keeps a part of what is `later`.
record Cut (f : ℕ) (buffer rest : Bytes) (ps : List Packet) : Type 0 where
  now : List Packet
  later : List Packet
  left : Bytes
  looped : feed_loop f buffer ≡ (now, left)
  split : ps ≡ now ++ later
  stream : left ++ rest ≡ encode_all later
  valid : All IsPacket later
  part : IsPartOf left later

encode-pos : (p : Packet) → 0 < length (encode p)
encode-pos p = omega (arith, length-encode p)

Cut-more :
    (f : ℕ) (p : Packet) (ps : List Packet) (buffer m rest : Bytes)
    → IsPacket p
    → buffer ≡ encode p ++ m
    → Cut f m rest ps
    → Cut (suc f) buffer rest (p ∷ ps)
Cut-more f p ps buffer m rest v b c = record {
  now = p ∷ c.now;
  later = c.later;
  left = c.left;
  looped =
      ap (feed_loop (suc f)) b
      ∙ feed_loop-encode f p m v
      ∙ ap (λ (r : List Packet × Bytes). (p ∷ r.0, r.1)) c.looped;
  split = ap (λ r. p ∷ r) c.split;
  stream = c.stream;
  valid = c.valid;
  part = c.part;
}

Cut-here :
    (f : ℕ) (p : Packet) (ps : List Packet) (buffer rest : Bytes)
    → All IsPacket (p ∷ ps)
    → buffer ++ rest ≡ encode_all (p ∷ ps)
    → length buffer < length (encode p)
    → Cut f buffer rest (p ∷ ps)
Cut-here f p ps buffer rest v e short = record {
  now = [];
  later = p ∷ ps;
  left = buffer;
  looped = feed_loop-short f p buffer rest (encode_all ps) v.0 e short;
  split = refl;
  stream = e;
  valid = v;
  part = short;
}

append-eq-nil : (xs ys : Bytes) → xs ++ ys ≡ [] → xs ≡ []
append-eq-nil [] ys e = refl
append-eq-nil (x ∷ xs) ys e = cc

feed_loop-Cut :
    (ps : List Packet) (f : ℕ) (buffer rest : Bytes)
    → All IsPacket ps
    → buffer ++ rest ≡ encode_all ps
    → length buffer ≤ f
    → Cut f buffer rest ps
feed_loop-Cut [] f buffer rest v e h =
    let b : buffer ≡ [] = append-eq-nil buffer rest e in
    record {
      now = [];
      later = [];
      left = [];
      looped =
          ap (feed_loop f) b
          ∙ feed_loop_fuel f 0 [] (omega arith) (omega arith)
          ∙ (unfold feed_loop in refl);
      split = refl;
      stream = cc;
      valid = tt;
      part = refl;
    }
feed_loop-Cut (p ∷ ps) zero buffer rest v e h =
    Cut-here zero p ps buffer rest v e (omega (arith, encode-pos p))
feed_loop-Cut (p ∷ ps) (suc f) buffer rest v e h =
    elim (Bool-cases (ltb (length buffer) (length (encode p)))) [
      | inl short ↦ Cut-here (suc f) p ps buffer rest v e (ltb→lt _ _ short)
      | inr whole ↦
          (let (m, b, s) =
              append_split buffer rest (encode p) (encode_all ps) e (ltb→le _ _ whole) in
            Cut-more f p ps buffer m rest v.0 b (
              feed_loop-Cut ps f m rest v.1 (sym s)
                (omega (arith, ap length b, length-append (encode p) m, encode-pos p, h))))
    ]

feed_all-part :
    (chunks : List Bytes) (ps : List Packet) (left : Bytes)
    → All IsPacket ps
    → left ++ join chunks ≡ encode_all ps
    → IsPartOf left ps
    → feed_all left chunks ≡ (ps, [])
unfolding feed_all feed
feed_all-part [] [] left v e part = cc
feed_all-part [] (p ∷ ps) left v e part = absurd (
    omega
      (arith, ap length e, ap length (append-nil left), length-append (encode p) (encode_all ps)))
feed_all-part (chunk ∷ chunks) ps left v e part =
    let c : Cut (length (left ++ chunk)) (left ++ chunk) (join chunks) ps =
      feed_loop-Cut ps (length (left ++ chunk)) (left ++ chunk) (join chunks) v
        (append_assoc left chunk (join chunks) ∙ e) (omega arith) in
    rw c.looped (
      rw (feed_all-part chunks c.later c.left c.valid c.stream c.part)
        (ap (λ (r : List Packet). (r, [])) (sym c.split)))

-- Packets whose fields fit their places in the header, encoded one behind the other and cut into any
-- chunks, come out as they went in, in order and complete, with nothing left in the buffer.
pub feed_all-encode_all :
    (ps : List Packet) (chunks : List Bytes)
    → All IsPacket ps
    → join chunks ≡ encode_all ps
    → feed_all [] chunks ≡ (ps, [])
feed_all-encode_all ps chunks v e = feed_all-part chunks ps [] v e (part ps)
  where
    part : (qs : List Packet) → IsPartOf [] qs
    part [] = refl
    part (q ∷ qs) = encode-pos q

-- After any call of `feed` the buffer holds less than a header, or an incomplete frame behind a
-- good magic number: no complete frame waits for the next read.
pub feed-IsWaiting : (buffer incoming : Bytes) → IsWaiting (feed buffer incoming).1
unfolding feed
feed-IsWaiting buffer incoming =
    feed_loop-IsWaiting (length (buffer ++ incoming)) (buffer ++ incoming) (omega arith)

-- Fuel equal to the buffer's length is enough: with any more the loop of `feed` does the same.
pub feed_fuel :
    (fuel : ℕ) (buffer incoming : Bytes)
    → length (buffer ++ incoming) ≤ fuel
    → feed_loop fuel (buffer ++ incoming) ≡ feed buffer incoming
unfolding feed
feed_fuel fuel buffer incoming h =
    feed_loop_fuel fuel (length (buffer ++ incoming)) (buffer ++ incoming) h (omega arith)

-- A buffer of a header or more that does not begin with the magic number is thrown away whole.
pub feed-sync_lost :
    (buffer incoming : Bytes)
    → header_size ≤ length (buffer ++ incoming)
    → ¬ (from_be16 (buffer ++ incoming) ≡ magic)
    → feed buffer incoming ≡ ([], [])
unfolding feed
feed-sync_lost buffer incoming long bad =
    lost (buffer ++ incoming) (length (buffer ++ incoming)) long (omega arith) bad
  where
    lost :
        (b : Bytes) (f : ℕ)
        → header_size ≤ length b
        → header_size ≤ f
        → ¬ (from_be16 b ≡ magic)
        → feed_loop f b ≡ ([], [])
    lost b zero h k n = absurd (omega arith)
    lost b (suc f) h k n = unfold feed_loop in ground arith

-- A frame that comes alone and whole is delivered at once.
pub feed-encode : (p : Packet) → IsPacket p → feed [] (encode p) ≡ (p ∷ [], [])
unfolding feed_all
feed-encode p v =
    one (feed [] (encode p)) (p ∷ [], [])
      (feed_all-encode_all (p ∷ []) (encode p ∷ []) (v, tt) refl)
  where
    one :
        (r whole : List Packet × Bytes)
        → ◌≡◌ {A = List Packet × Bytes} (r.0 ++ [], r.1) whole
        → r ≡ whole
    one (ps, left) whole e = ap (λ (qs : List Packet). (qs, left)) (sym (append-nil ps)) ∙ e
