-- ===== src/Prelude/Dict.antt =====
-- `std::unordered_map<std::string, V>` and `std::unordered_set<std::string>` as lists of entries.
-- The list's order stands for the container's iteration order, which the standard leaves open.
use mathlib.Core.Path.{◌≡◌, refl}
use mathlib.Core.Bool.{Bool, true, false}
use mathlib.Core.List.{List, [], ◌∷◌}
use mathlib.Core.Option.{Option, none, some}
use native.Mathlib.Omega.{arith}
use nova_chat.Prelude.Tests.{if◌then◌else◌, is_some}
use nova_chat.Prelude.Text.{Text, text_eq, text_eq_iff}

abbrev pub Dict {ℓ} : Type ℓ → Type ℓ
Dict V = List (Text × V)

module _ {ℓ} {V : Type ℓ} where
  -- find(k), at(k)
  unfoldable pub get : Dict V → Text → Option V
  get [] k = none
  get ((j, v) ∷ m) k = if text_eq j k then some v else get m k

  -- m[k] = v
  unfoldable pub put : Dict V → Text → V → Dict V
  put [] k v = (k, v) ∷ []
  put ((j, w) ∷ m) k v = if text_eq j k then (k, v) ∷ m else (j, w) ∷ put m k v

  -- erase(k)
  unfoldable pub remove : Dict V → Text → Dict V
  remove [] k = []
  remove ((j, v) ∷ m) k = if text_eq j k then remove m k else (j, v) ∷ remove m k

  -- count(k) != 0
  abbrev pub has : Dict V → Text → Bool
  has m k = is_some (get m k)

  pub get-put :
      (m : Dict V) (k j : Text) (v : V)
      → get (put m k v) j ≡ (if text_eq k j then some v else get m j)
  unfolding get put
  get-put [] k j v = refl
  get-put ((i, w) ∷ m) k j v =
      ground (arith, text_eq_iff k j, text_eq_iff i k, text_eq_iff i j, get-put m k j v)

  pub get-remove :
      (m : Dict V) (k j : Text) → get (remove m k) j ≡ (if text_eq k j then none else get m j)
  unfolding get remove
  get-remove [] k j = ground arith
  get-remove ((i, w) ∷ m) k j =
      ground (arith, text_eq_iff k j, text_eq_iff i k, text_eq_iff i j, get-remove m k j)

-- An unordered_set of texts.
abbrev pub TextSet : Type 0
TextSet = List Text

-- count(a) != 0
unfoldable pub member : TextSet → Text → Bool
member [] a = false
member (x ∷ s) a = if text_eq x a then true else member s a

-- insert(a): an element that is there stays
unfoldable pub insert : TextSet → Text → TextSet
insert s a = if member s a then s else a ∷ s

-- erase(a)
unfoldable pub erase : TextSet → Text → TextSet
erase [] a = []
erase (x ∷ s) a = if text_eq x a then erase s a else x ∷ erase s a

pub member-insert :
    (s : TextSet) (a b : Text) → member (insert s a) b ≡ (if text_eq a b then true else member s b)
unfolding member insert
member-insert s a b = ground (arith, text_eq_iff a b)

pub member-erase :
    (s : TextSet) (a b : Text) → member (erase s a) b ≡ (if text_eq a b then false else member s b)
unfolding member erase
member-erase [] a b = ground arith
member-erase (x ∷ s) a b =
    ground (arith, text_eq_iff a b, text_eq_iff x a, text_eq_iff x b, member-erase s a b)
