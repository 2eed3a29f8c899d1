-- ===== src/Client/Suite/CodecCases.antt =====
-- client/tests/network/test_codec.cpp
use nova_chat.Prelude.{
  ℕ, zero, suc, ◌-◌, ◌≡◌, refl, ap, Bool, true, false, ◌&&◌, List, [], ◌∷◌, ◌++◌, ◌==◌, length, map,
  take, arith,
}
use nova_chat.Prelude.Text.{text_eq, text_eq_refl}
use nova_chat.MessageType.{
  heartbeat_request, heartbeat_response, login_request, send_message_request,
}
use nova_chat.Codec.{
  Bytes, Packet, encode, header, header_size, feed, feed_all, feed_loop, frame_size, payload_len,
  read_packet, copy32, copy16, to_be32, to_be16, from_be32, from_be16,
}
use nova_chat.Codec.Frame.{IsPacket}
use nova_chat.Codec.Stream.{feed-encode}

abbrev make_packet : ℕ → ℕ → Bytes → Packet
make_packet type seq payload = record { type = type; seq_id = seq; payload = payload }

-- one packet was decoded, and it passes
abbrev only : (Packet → Bool) → List Packet → Bool
only p [] = false
only p (x ∷ []) = p x
only p (x ∷ y ∷ xs) = false

abbrev no_packet : List Packet → Bool
no_packet [] = true
no_packet (x ∷ xs) = false

abbrev heartbeat : Packet
heartbeat = make_packet heartbeat_request 42 (1 ∷ 2 ∷ 3 ∷ [])

abbrev round_trip : Bool
round_trip =
    only
      (λ p.
        (p.type == heartbeat.type)
        && (p.seq_id == heartbeat.seq_id)
        && text_eq p.payload heartbeat.payload)
      (feed [] (encode heartbeat)).0

abbrev empty_payload : Bool
empty_payload =
    let original = make_packet heartbeat_response 0 [] in
    (length (encode original) == header_size)
    && only (λ p. length p.payload == 0) (feed [] (encode original)).0

abbrev singles : Bytes → List Bytes
singles = map λ (b : ℕ). b ∷ []

-- Nothing is decoded before the last byte.
abbrev byte_by_byte : Bool
byte_by_byte =
    let encoded = encode (make_packet login_request 7 (0xAB ∷ 0xCD ∷ [])) in
    no_packet (feed_all [] (singles (take (length encoded - 1) encoded))).0
    && only (λ p. p.seq_id == 7) (feed_all [] (singles encoded)).0

abbrev numbers : List Packet → List ℕ
numbers = map λ (p : Packet). p.seq_id

abbrev concatenated : Bool
concatenated =
    let p1 = make_packet heartbeat_request 1 [] in
    let p2 = make_packet heartbeat_response 2 [] in
    text_eq (numbers (feed [] (encode p1 ++ encode p2)).0) (1 ∷ 2 ∷ [])

abbrev bad_magic : Bool
bad_magic = no_packet (feed [] (0xFF ∷ 0xFF ∷ 0 ∷ 0 ∷ 0 ∷ 0 ∷ 0x0F ∷ 0x01 ∷ 0 ∷ 0 ∷ 0 ∷ 1 ∷ [])).0

abbrev same_byte : ℕ → ℕ → Bytes
same_byte zero b = []
same_byte (suc n) b = b ∷ same_byte n b

abbrev large : Packet
large = make_packet send_message_request 99 (same_byte 4096 0xAA)

abbrev large_payload : Bool
large_payload = only (λ p. text_eq p.payload large.payload) (feed [] (encode large)).0

round_trip_passes : round_trip ≡ true
unfolding feed feed_loop frame_size payload_len read_packet encode header copy32 copy16 to_be32
    to_be16 from_be32 from_be16 text_eq
round_trip_passes = refl

empty_payload_passes : empty_payload ≡ true
unfolding feed feed_loop frame_size payload_len read_packet encode header copy32 copy16 to_be32
    to_be16 from_be32 from_be16
empty_payload_passes = refl

byte_by_byte_passes : byte_by_byte ≡ true
unfolding feed_all feed feed_loop frame_size payload_len read_packet encode header copy32 copy16
    to_be32 to_be16 from_be32 from_be16
byte_by_byte_passes = refl

concatenated_passes : concatenated ≡ true
unfolding feed feed_loop frame_size payload_len read_packet encode header copy32 copy16 to_be32
    to_be16 from_be32 from_be16 text_eq
concatenated_passes = refl

bad_magic_passes : bad_magic ≡ true
unfolding feed feed_loop from_be16
bad_magic_passes = refl

length-same_byte : (n b : ℕ) → length (same_byte n b) ≡ n
length-same_byte zero b = refl
length-same_byte (suc n) b = ap suc (length-same_byte n b)

large-IsPacket : IsPacket large
large-IsPacket = record {
  type_fits = omega arith;
  seq_fits = omega arith;
  payload_fits = omega (arith, length-same_byte 4096 0xAA);
}

large_payload_passes : large_payload ≡ true
large_payload_passes = rw (feed-encode large large-IsPacket) (text_eq_refl large.payload)
