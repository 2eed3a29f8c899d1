-- ===== src/Codec/Frame.antt =====
-- One frame: what `encode` lays out, and what a round of the loop in `feed` does with it.
use nova_chat.Prelude.{
  ℕ, zero, suc, ◌+◌, ◌%◌, ◌^◌, ◌≤◌, ◌<◌, ◌≡◌, refl, sym, ap, ◌∙◌, ◌⊎◌, inl, inr, [], ◌∷◌, ◌++◌,
  append_assoc, arith, ltb, ltb-true, ltb-false, ltb→le, Bool-cases, length, length-append,
  length-drop, drop, take-append-length, drop-append-length, append_split,
}
use nova_chat.Codec.{
  Bytes, Packet, magic, header_size, copy16, copy32, to_be16, to_be32, from_be16, from_be32, header,
  encode, payload_len, frame_size, read_packet, feed_loop,
}
use nova_chat.Codec.Words.{from_be32-to_be32, from_be16-to_be16}

-- The fields fit their places in the header; C++ types see to this.
pub record IsPacket (p : Packet) : Type 0 where
  pub type_fits : p.type < 2 ^ 16
  pub seq_fits : p.seq_id < 2 ^ 32
  pub payload_fits : length p.payload < 2 ^ 32

pub length-header : (p : Packet) → length (header p) ≡ header_size
unfolding header copy16 copy32
length-header p = refl

pub length-encode : (p : Packet) → length (encode p) ≡ header_size + length p.payload
unfolding encode
length-encode p =
    length-append (header p) p.payload ∙ ap (λ n. n + length p.payload) (length-header p)

pub magic-header : (p : Packet) (t : Bytes) → from_be16 (header p ++ t) ≡ magic
unfolding header copy16 copy32 from_be16 to_be16
magic-header p t = refl

pub payload_len-header :
    (p : Packet) (t : Bytes) → IsPacket p → payload_len (header p ++ t) ≡ length p.payload
unfolding header copy16 copy32 payload_len
payload_len-header p t v =
    let e : length p.payload % 2 ^ 32 ≡ length p.payload = omega (arith, v.payload_fits) in
    rw e (
      from_be32-to_be32 (length p.payload)
        (copy16 (to_be16 p.type) ++ (copy32 (to_be32 p.seq_id) ++ t)) v.payload_fits)

pub type-header :
    (p : Packet) (t : Bytes) → IsPacket p → from_be16 (drop 6 (header p ++ t)) ≡ p.type
unfolding header copy16 copy32
type-header p t v = from_be16-to_be16 p.type _ v.type_fits

pub seq_id-header :
    (p : Packet) (t : Bytes) → IsPacket p → from_be32 (drop 8 (header p ++ t)) ≡ p.seq_id
unfolding header copy16 copy32
seq_id-header p t v = from_be32-to_be32 p.seq_id _ v.seq_fits

drop-header : (p : Packet) (t : Bytes) → drop header_size (header p ++ t) ≡ t
unfolding header copy16 copy32
drop-header p t = refl

pub frame_size-header :
    (p : Packet) (t : Bytes) → IsPacket p → frame_size (header p ++ t) ≡ length (encode p)
unfolding frame_size
frame_size-header p t v = rw (payload_len-header p t v, length-encode p)

-- The first frame of a buffer is the packet that was encoded there.
pub read_packet-encode : (p : Packet) (r : Bytes) → IsPacket p → read_packet (encode p ++ r) ≡ p
unfolding read_packet encode
read_packet-encode p r v = rw append_assoc (
    rw (
      type-header p (p.payload ++ r) v,
      seq_id-header p (p.payload ++ r) v,
      payload_len-header p (p.payload ++ r) v,
      drop-header p (p.payload ++ r),
      take-append-length p.payload r,
    ))

encode-append : (p : Packet) (r : Bytes) → encode p ++ r ≡ header p ++ (p.payload ++ r)
unfolding encode
encode-append p r = append_assoc (header p) p.payload r

frame_size-encode :
    (p : Packet) (r : Bytes) → IsPacket p → frame_size (encode p ++ r) ≡ length (encode p)
frame_size-encode p r v = ap frame_size (encode-append p r) ∙ frame_size-header p (p.payload ++ r) v

magic-encode : (p : Packet) (r : Bytes) → from_be16 (encode p ++ r) ≡ magic
magic-encode p r = ap from_be16 (encode-append p r) ∙ magic-header p (p.payload ++ r)

-- A round at a whole frame delivers its packet and goes on with the bytes behind it.
pub feed_loop-encode :
    (f : ℕ) (p : Packet) (r : Bytes)
    → IsPacket p
    → feed_loop (suc f) (encode p ++ r) ≡ (p ∷ (feed_loop f r).0, (feed_loop f r).1)
unfolding feed_loop
feed_loop-encode f p r v =
    let l : length (encode p ++ r) ≡ length (encode p) + length r = length-append (encode p) r in
    rw (ltb-false (length (encode p ++ r)) header_size (omega (arith, l, length-encode p))) (
      rw (magic-encode p r) (
        rw (frame_size-encode p r v) (
          rw (ltb-false (length (encode p ++ r)) (length (encode p)) (omega (arith, l)))
            (rw (read_packet-encode p r v, drop-append-length (encode p) r)))))

-- A round at the start of a frame whose rest has not come keeps the bytes.
pub feed_loop-short :
    (f : ℕ) (p : Packet) (buffer rest tail : Bytes)
    → IsPacket p
    → buffer ++ rest ≡ encode p ++ tail
    → length buffer < length (encode p)
    → feed_loop f buffer ≡ ([], buffer)
unfolding feed_loop
feed_loop-short zero p buffer rest tail v e short = refl
feed_loop-short (suc f) p buffer rest tail v e short =
    elim (Bool-cases (ltb (length buffer) header_size)) [
      | inl few ↦ rw few
      | inr many ↦
          (let (m, b, _) =
              append_split buffer rest (header p) (p.payload ++ tail) (e ∙ encode-append p tail)
                (omega (arith, length-header p, ltb→le (length buffer) header_size many)) in
            rw many (
              rw (ap from_be16 b ∙ magic-header p m) (
                rw (
                  ltb-true (length buffer) (frame_size buffer)
                    (omega (arith, ap frame_size b, frame_size-header p m v))))))
    ]

feed_loop-nil : (f : ℕ) → feed_loop f [] ≡ ([], [])
unfolding feed_loop
feed_loop-nil zero = refl
feed_loop-nil (suc f) = refl

-- Without its frame a buffer that is not empty is shorter.
drop-frame-lt :
    (x : ℕ) (b : Bytes) (n : ℕ) → length b ≤ n → length (drop (frame_size (x ∷ b)) (x ∷ b)) ≤ n
unfolding frame_size
drop-frame-lt x b n h = omega (arith, length-drop (header_size + payload_len (x ∷ b)) (x ∷ b))

-- Fuel above the buffer's length changes nothing: the loop has ended by itself.
pub feed_loop_fuel :
    (f g : ℕ) (b : Bytes) → length b ≤ f → length b ≤ g → feed_loop f b ≡ feed_loop g b
unfolding feed_loop
feed_loop_fuel f g [] h k = feed_loop-nil f ∙ sym (feed_loop-nil g)
feed_loop_fuel zero g (x ∷ b) h k = elim h [ ]
feed_loop_fuel (suc f) zero (x ∷ b) h k = elim k [ ]
feed_loop_fuel (suc f) (suc g) (x ∷ b) h k = rw (
    feed_loop_fuel f g (drop (frame_size (x ∷ b)) (x ∷ b)) (drop-frame-lt x b f (omega arith))
      (drop-frame-lt x b g (omega arith)))

-- What the loop can leave behind: nothing, part of a header, or a frame that is not all there.
abbrev pub IsWaiting : Bytes → Type 0
IsWaiting b = (length b < header_size) ⊎ ((from_be16 b ≡ magic) × (length b < frame_size b))

waits_here :
    (f : ℕ) (b : Bytes)
    → IsWaiting (feed_loop f (drop (frame_size b) b)).1
    → IsWaiting (feed_loop (suc f) b).1
unfolding feed_loop
waits_here f b h = ground arith

pub feed_loop-IsWaiting : (f : ℕ) (b : Bytes) → length b ≤ f → IsWaiting (feed_loop f b).1
feed_loop-IsWaiting f [] h = rw (feed_loop-nil f) (inl (omega arith))
feed_loop-IsWaiting zero (x ∷ b) h = elim h [ ]
feed_loop-IsWaiting (suc f) (x ∷ b) h =
    waits_here f (x ∷ b) (
      feed_loop-IsWaiting f (drop (frame_size (x ∷ b)) (x ∷ b)) (drop-frame-lt x b f (omega arith)))
