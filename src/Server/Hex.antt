-- ===== src/Server/Hex.antt =====
-- server/src/storage/ServerStorage.cpp, generateHex and its two callers. The random generator is
-- the standard library's: its state is the sequence of numbers that it is still to draw.
use nova_chat.Prelude.{
  ℕ, zero, suc, ◌+◌, ◌-◌, ◌*◌, ◌/◌, ◌%◌, ◌<◌, ◌≡◌, refl, arith, ltb, if◌then◌else◌, [], ◌∷◌, ◌++◌,
  length,
}
use nova_chat.Prelude.Text.{Text, bytes}

abbrev pub Rng : Type 0
Rng = ℕ → ℕ

unfoldable pub hex_digit : ℕ → ℕ
hex_digit n = if ltb n 10 then b'0' + n else b'a' + (n - 10)

-- std::hex, setfill('0') and setw(2), for a number below 256
unfoldable pub hex_byte : ℕ → Text
unfolding hex_digit
hex_byte b = hex_digit (b / 16) ∷ hex_digit (b % 16) ∷ []

unfoldable pub generate_hex : ℕ → Rng → Text × Rng
generate_hex zero rng = ([], rng)
generate_hex (suc n) rng =
    let (rest, rng') = generate_hex n (λ i. rng (suc i)) in (hex_byte (rng 0 % 256) ++ rest, rng')

unfoldable pub generate_id : Rng → Text × Rng
generate_id rng = let (hex, rng') = generate_hex 8 rng in (bytes "u_" ++ hex, rng')

unfoldable pub generate_token : Rng → Text × Rng
generate_token rng = let (hex, rng') = generate_hex 16 rng in (bytes "tk_" ++ hex, rng')

hex_digit_inj : (a b : ℕ) → a < 16 → b < 16 → hex_digit a ≡ hex_digit b → a ≡ b
unfolding hex_digit
hex_digit_inj a b h k e = ground arith

hex_byte_inj : (a b : ℕ) → a < 256 → b < 256 → hex_byte a ≡ hex_byte b → a ≡ b
unfolding hex_byte
hex_byte_inj a b h k e =
    let hi : a / 16 ≡ b / 16 =
      hex_digit_inj (a / 16) (b / 16) (omega arith) (omega arith) (unfold hex_byte in cc) in
    let lo : a % 16 ≡ b % 16 =
      hex_digit_inj (a % 16) (b % 16) (omega arith) (omega arith) (unfold hex_byte in cc) in
    omega arith

-- `n` bytes are `2 n` characters.
pub length-generate_hex : (n : ℕ) (rng : Rng) → length (generate_hex n rng).0 ≡ 2 * n
unfolding generate_hex hex_byte
length-generate_hex zero rng = refl
length-generate_hex (suc n) rng = omega (arith, length-generate_hex n (λ i. rng (suc i)))
