-- ===== src/Prelude/Text.antt =====
-- `std::string` as its bytes: equality, the lexicographic order of `operator<`, `find`, `substr`.
use Prim.Native.Char.{code}
use Prim.Native.Nat.{ℕ}
use Prim.Native.String.{String}
use mathlib.Core.Path.{◌≡◌, refl, ap}
use mathlib.Core.Logic.{◌↔◌, ◌≢◌, inl, inr}
use mathlib.Core.Bool.{Bool, true, false, ◌&&◌}
use mathlib.Core.List.{List, [], ◌∷◌, ◌++◌}
use native.Mathlib.Omega.{arith}
use nova_chat.Prelude.Tests.{ltb, ◌==◌, if◌then◌else◌, Bool-cases}
use nova_chat.Prelude.Lists.{drop}

abbrev pub Text : Type 0
Text = List ℕ

-- A literal's bytes, for ASCII text.
abbrev pub bytes : String → Text
bytes String.[] = []
bytes (String.◌∷◌ c s) = code c ∷ bytes s

-- operator==
unfoldable pub text_eq : Text → Text → Bool
text_eq [] [] = true
text_eq [] (b ∷ bs) = false
text_eq (a ∷ as') [] = false
text_eq (a ∷ as') (b ∷ bs) = (a == b) && text_eq as' bs

pub text_eq_refl : (a : Text) → text_eq a a ≡ true
unfolding text_eq
text_eq_refl [] = refl
text_eq_refl (a ∷ as') = ground (arith, text_eq_refl as')

pub text_eq_sound : (a b : Text) → text_eq a b ≡ true → a ≡ b
unfolding text_eq
text_eq_sound [] [] h = refl
text_eq_sound [] (b ∷ bs) h = cc
text_eq_sound (a ∷ as') [] h = cc
text_eq_sound (a ∷ as') (b ∷ bs) h = ground (arith, text_eq_sound as' bs)

pub text_eq_iff : (a b : Text) → (text_eq a b ≡ true) ↔ (a ≡ b)
text_eq_iff a b = (text_eq_sound a b, λ e. ground (arith, text_eq_refl a))

pub text_eq_comm : (a b : Text) → text_eq a b ≡ text_eq b a
unfolding text_eq
text_eq_comm [] [] = refl
text_eq_comm [] (b ∷ bs) = refl
text_eq_comm (a ∷ as') [] = refl
text_eq_comm (a ∷ as') (b ∷ bs) = ground (arith, text_eq_comm as' bs)

pub text_ne : (a b : Text) → a ≢ b → text_eq a b ≡ false
text_ne a b h = elim (Bool-cases (text_eq a b)) [
  | inl e ↦ absurd (h (text_eq_sound a b e))
  | inr e ↦ e
]

-- operator<
unfoldable pub text_lt : Text → Text → Bool
text_lt [] [] = false
text_lt [] (b ∷ bs) = true
text_lt (a ∷ as') [] = false
text_lt (a ∷ as') (b ∷ bs) = let later = text_lt as' bs in if a == b then later else ltb a b

pub text_lt_asym : (a b : Text) → text_lt a b ≡ true → text_lt b a ≡ false
unfolding text_lt
text_lt_asym [] [] h = refl
text_lt_asym [] (b ∷ bs) h = refl
text_lt_asym (a ∷ as') [] h = cc
text_lt_asym (a ∷ as') (b ∷ bs) h = ground (arith, text_lt_asym as' bs)

pub text_lt_total : (a b : Text) → text_lt a b ≡ false → text_lt b a ≡ false → a ≡ b
unfolding text_lt
text_lt_total [] [] h k = refl
text_lt_total [] (b ∷ bs) h k = cc
text_lt_total (a ∷ as') [] h k = cc
text_lt_total (a ∷ as') (b ∷ bs) h k = ground (arith, text_lt_total as' bs)

-- s.empty()
abbrev pub is_empty : Text → Bool
is_empty [] = true
is_empty (c ∷ s) = false

-- s.substr(pos), for a position inside the text
abbrev pub substr_from : ℕ → Text → Text
substr_from = drop

unfoldable pub starts_with : Text → Text → Bool
starts_with [] s = true
starts_with (c ∷ p) [] = false
starts_with (c ∷ p) (d ∷ s) = (c == d) && starts_with p s

-- s.find(p) != std::string::npos
unfoldable pub contains : Text → Text → Bool
unfolding starts_with
contains p [] = starts_with p []
contains p (d ∷ s) = let later = contains p s in if starts_with p (d ∷ s) then true else later

-- `p` occurs in `s`: what `contains` decides.
abbrev pub Occurs : Text → Text → Type 0
Occurs p s = (u : Text) × (v : Text) × (s ≡ u ++ (p ++ v))

pub starts_with_sound : (p s : Text) → starts_with p s ≡ true → (v : Text) × (s ≡ p ++ v)
unfolding starts_with
starts_with_sound [] s h = (s, refl)
starts_with_sound (c ∷ p) [] h = cc
starts_with_sound (c ∷ p) (d ∷ s) h =
    let (v, e) = starts_with_sound p s (ground arith) in (v, ground arith)

pub starts_with-append : (p v : Text) → starts_with p (p ++ v) ≡ true
unfolding starts_with
starts_with-append [] v = refl
starts_with-append (c ∷ p) v = ground (arith, starts_with-append p v)

pub contains_sound : (p s : Text) → contains p s ≡ true → Occurs p s
unfolding contains
contains_sound p [] h = let (v, e) = starts_with_sound p [] h in ([], v, e)
contains_sound p (d ∷ s) h = elim (Bool-cases (starts_with p (d ∷ s))) [
  | inl here ↦ (let (v, e) = starts_with_sound p (d ∷ s) here in ([], v, e))
  | inr away ↦ (let (u, v, e) = contains_sound p s (ground arith) in (d ∷ u, v, ap (λ r. d ∷ r) e))
]

pub contains_complete : (p u v : Text) → contains p (u ++ (p ++ v)) ≡ true
unfolding contains
contains_complete [] [] [] = refl
contains_complete [] [] (c ∷ v) = refl
contains_complete (c ∷ p) [] v = ground (arith, starts_with-append (c ∷ p) v)
contains_complete p (d ∷ u) v = ground (arith, contains_complete p u v)

pub contains_iff : (p s : Text) → (contains p s ≡ true) ↔ Occurs p s
contains_iff p s = (contains_sound p s, λ (o : Occurs p s). rw o.2 (contains_complete p o.0 o.1))
