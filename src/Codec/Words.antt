-- ===== src/Codec/Words.antt =====
-- The byte order of the header's words.
use nova_chat.Prelude.{ℕ, ◌^◌, ◌<◌, ◌≡◌, ◌++◌, arith}
use nova_chat.Codec.{Bytes, copy16, copy32, to_be16, to_be32, from_be16, from_be32}

-- A word written as the sender writes it is the word that the receiver reads.
pub from_be32-to_be32 :
    (v : ℕ) (rest : Bytes) → v < 2 ^ 32 → from_be32 (copy32 (to_be32 v) ++ rest) ≡ v
unfolding from_be32 copy32 to_be32
from_be32-to_be32 v rest h = omega arith

pub from_be16-to_be16 :
    (v : ℕ) (rest : Bytes) → v < 2 ^ 16 → from_be16 (copy16 (to_be16 v) ++ rest) ≡ v
unfolding from_be16 copy16 to_be16
from_be16-to_be16 v rest h = omega arith
