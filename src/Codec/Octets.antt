-- ===== src/Codec/Octets.antt =====
-- What `encode` lays out are bytes.
use nova_chat.Prelude.{ℕ, ◌+◌, ◌<◌, ◌≡◌, [], ◌∷◌, ◌++◌, All, arith, length}
use nova_chat.Codec.{Bytes, Packet, header, header_size, encode, copy16, copy32}
use nova_chat.Codec.Frame.{length-encode}

-- Numbers that fit a byte.
abbrev pub AreOctets : Bytes → Type 0
AreOctets = All λ b. b < 256

append-AreOctets : (a b : Bytes) → AreOctets a → AreOctets b → AreOctets (a ++ b)
append-AreOctets [] b h k = k
append-AreOctets (x ∷ a) b h k = (h.0, append-AreOctets a b h.1 k)

copy16-AreOctets : (v : ℕ) → AreOctets (copy16 v)
unfolding copy16
copy16-AreOctets v = (omega arith, (omega arith, tt))

copy32-AreOctets : (v : ℕ) → AreOctets (copy32 v)
unfolding copy32
copy32-AreOctets v = (omega arith, (omega arith, (omega arith, (omega arith, tt))))

-- If the payload is bytes, so is the frame, whatever the packet's numbers are, and it is twelve
-- bytes longer.
pub encode-AreOctets :
    (p : Packet)
    → AreOctets p.payload
    → AreOctets (encode p) × (length (encode p) ≡ header_size + length p.payload)
unfolding encode header
encode-AreOctets p h = (
  append-AreOctets _ p.payload
      (append-AreOctets _ _ (copy16-AreOctets _) (
        append-AreOctets _ _ (copy32-AreOctets _)
          (append-AreOctets _ _ (copy16-AreOctets _) (copy32-AreOctets _))))
      h,
  length-encode p,
)
