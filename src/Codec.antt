-- ===== src/Codec.antt =====
-- proto/ProtocolCodec.h and proto/ProtocolCodec.cpp: the binary frame, a 12-byte header before the
-- payload. Bytes are numbers below 256. The shifted fields of a word do not overlap, so the
-- source's `|` is `+` here; `memcpy` of a word copies its bytes lowest first (a little-endian host).
pub mod Words
pub mod Frame
pub mod Stream
pub mod Octets
use nova_chat.Prelude.{
  ℕ, zero, suc, ◌+◌, ◌*◌, ◌/◌, ◌%◌, ◌^◌, List, [], ◌∷◌, ◌++◌, ltb, ◌==◌, if◌then◌else◌, length,
  get_or, take, drop,
}
use nova_chat.MessageType.{MessageType}

abbrev pub Bytes : Type 0
Bytes = List ℕ

pub record Packet : Type 0 where
  pub type : MessageType
  pub seq_id : ℕ
  pub payload : Bytes

abbrev pub magic : ℕ
magic = 0x4E43

abbrev pub header_size : ℕ
header_size = 12

unfoldable pub to_be32 : ℕ → ℕ
to_be32 v =
    v % 256 * 2 ^ 24 + v / 2 ^ 8 % 256 * 2 ^ 16 + v / 2 ^ 16 % 256 * 2 ^ 8 + v / 2 ^ 24 % 256

unfoldable pub to_be16 : ℕ → ℕ
to_be16 v = (v % 256 * 2 ^ 8 + v / 2 ^ 8 % 256) % 2 ^ 16

unfoldable pub copy32 : ℕ → Bytes
copy32 v = (v % 256) ∷ (v / 2 ^ 8 % 256) ∷ (v / 2 ^ 16 % 256) ∷ (v / 2 ^ 24 % 256) ∷ []

unfoldable pub copy16 : ℕ → Bytes
copy16 v = (v % 256) ∷ (v / 2 ^ 8 % 256) ∷ []

-- `p[i]` of the bytes at `p`
abbrev pub byte_at : Bytes → ℕ → ℕ
byte_at p i = get_or p i 0

unfoldable pub from_be32 : Bytes → ℕ
from_be32 p = byte_at p 0 * 2 ^ 24 + byte_at p 1 * 2 ^ 16 + byte_at p 2 * 2 ^ 8 + byte_at p 3

unfoldable pub from_be16 : Bytes → ℕ
from_be16 p = (byte_at p 0 * 2 ^ 8 + byte_at p 1) % 2 ^ 16

-- the twelve bytes that `encode` writes before the payload
unfoldable pub header : Packet → Bytes
header packet =
    copy16 (to_be16 magic)
    ++ (copy32 (to_be32 (length packet.payload % 2 ^ 32))
        ++ (copy16 (to_be16 packet.type) ++ copy32 (to_be32 packet.seq_id)))

unfoldable pub encode : Packet → Bytes
encode packet = header packet ++ packet.payload

-- the header's fields, as `feed` reads them at `h`
unfoldable pub payload_len : Bytes → ℕ
payload_len h = from_be32 (drop 2 h)

unfoldable pub frame_size : Bytes → ℕ
frame_size h = header_size + payload_len h

unfoldable pub read_packet : Bytes → Packet
read_packet h = record {
  type = from_be16 (drop 6 h);
  seq_id = from_be32 (drop 8 h);
  payload = take (payload_len h) (drop header_size h);
}

-- The `while` loop of `feed`: the packets handed to the callback, in order, and the buffer left.
-- Every round but the last takes a frame of twelve bytes or more away.
unfoldable pub feed_loop : ℕ → Bytes → List Packet × Bytes
feed_loop zero buffer = ([], buffer)
feed_loop (suc fuel) buffer =
    let more = feed_loop fuel (drop (frame_size buffer) buffer) in
    if ltb (length buffer) header_size
    then ([], buffer)
    else if from_be16 buffer == magic
    then (if ltb (length buffer) (frame_size buffer)
        then ([], buffer)
        else (read_packet buffer ∷ more.0, more.1))
    else ([], [])

-- The buffer's length is fuel enough: `Frame.feed_loop_fuel`.
unfoldable pub feed : Bytes → Bytes → List Packet × Bytes
feed buffer incoming = feed_loop (length (buffer ++ incoming)) (buffer ++ incoming)

-- One call of `feed` for each chunk that a read returns.
unfoldable pub feed_all : Bytes → List Bytes → List Packet × Bytes
feed_all buffer [] = ([], buffer)
feed_all buffer (chunk ∷ chunks) =
    let (now, left) = feed buffer chunk in
    let (later, last) = feed_all left chunks in (now ++ later, last)
