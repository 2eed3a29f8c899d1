-- ===== src/Prelude/Branches.antt =====
-- What holds in every branch of a test or a match holds of the whole.
use mathlib.Core.Bool.{Bool, true, false}
use mathlib.Core.Option.{Option, none, some}
use mathlib.Core.Path.{◌≡◌, refl}
use nova_chat.Prelude.Tests.{if◌then◌else◌}

pub either {ℓ ℓ'} :
    {A : Type ℓ} (P : A → Type ℓ') (b : Bool) {x y : A} → P x → P y → P (if b then x else y)
either P true hx hy = hx
either P false hx hy = hy

pub parsed {ℓ ℓ' ℓ''} :
    {A : Type ℓ} {B : Type ℓ'} (P : A → Type ℓ'') (o : Option B) {x : A} {f : B → A}
    → P x
    → ((b : B) → P (f b))
    → P (elim o [ none ↦ x | some b ↦ f b ])
parsed P none h k = h
parsed P (some b) h k = k b

-- the same, where what the test or the match found is known in its branch
pub tested {ℓ ℓ'} :
    {A : Type ℓ} (P : A → Type ℓ') (b : Bool) {x y : A}
    → ((b ≡ true) → P x)
    → P y
    → P (if b then x else y)
tested P true hx hy = hx refl
tested P false hx hy = hy

pub refused {ℓ ℓ'} :
    {A : Type ℓ} (P : A → Type ℓ') (b : Bool) {x y : A}
    → P x
    → ((b ≡ false) → P y)
    → P (if b then x else y)
refused P true hx hy = hx
refused P false hx hy = hy refl

pub parsed_as {ℓ ℓ' ℓ''} :
    {A : Type ℓ} {B : Type ℓ'} (P : A → Type ℓ'') (o : Option B) {x : A} {f : B → A}
    → P x
    → ((b : B) → o ≡ some b → P (f b))
    → P (elim o [ none ↦ x | some b ↦ f b ])
parsed_as P none h k = h
parsed_as P (some b) h k = k b refl

-- What relates two tests, or two matches, on the same value branch by branch relates them.
pub either_both {ℓ ℓ'} :
    {A : Type ℓ} (R : A → A → Type ℓ') (b : Bool) {x y x' y' : A}
    → R x' x
    → R y' y
    → R (if b then x' else y') (if b then x else y)
either_both R true hx hy = hx
either_both R false hx hy = hy

pub parsed_both {ℓ ℓ' ℓ''} :
    {A : Type ℓ} {B : Type ℓ'} (R : A → A → Type ℓ'') (o : Option B) {x x' : A} {f f' : B → A}
    → R x' x
    → ((b : B) → R (f' b) (f b))
    → R (elim o [ none ↦ x' | some b ↦ f' b ]) (elim o [ none ↦ x | some b ↦ f b ])
parsed_both R none h k = h
parsed_both R (some b) h k = k b
