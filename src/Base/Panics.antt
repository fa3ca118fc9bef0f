-- ===== src/Base/Panics.antt =====
-- What running a piece of the program comes to: a value, or a panic (an `unwrap` of an error, an
-- index out of bounds).
use mathlib.Core.Option.{Option, none, some}
use mathlib.Core.Logic.{◌⊎◌, inl, inr}
use mathlib.Core.Path.{◌≡◌, refl, ap, ◌∙◌}

pub data Outcome {ℓ} (A : Type ℓ) : Type ℓ where
  returned : A → Outcome A
  panicked : Outcome A

abbrev pub and_then {ℓ κ} : {A : Type ℓ} {B : Type κ} → Outcome A → (A → Outcome B) → Outcome B
and_then (returned a) f = f a
and_then panicked f = panicked

-- `Option::unwrap`
abbrev pub unwrap {ℓ} : {A : Type ℓ} → Option A → Outcome A
unwrap none = panicked
unwrap (some a) = returned a

-- The computation comes to a value.
abbrev pub Returns {ℓ} : {A : Type ℓ} → Outcome A → Type ℓ
Returns {A} o = (a : A) × (o ≡ returned a)

-- To split on a computed outcome and keep the equation.
pub Outcome-cases {ℓ} : {A : Type ℓ} (o : Outcome A) → (o ≡ panicked) ⊎ ((a : A) × (o ≡ returned a))
Outcome-cases (returned a) = inr (a, refl)
Outcome-cases panicked = inl refl

pub and_then_returned {ℓ} : {A : Type ℓ} (o : Outcome A) → and_then o returned ≡ o
and_then_returned (returned a) = refl
and_then_returned panicked = refl

pub Returns-and_then {ℓ κ} :
    {A : Type ℓ} {B : Type κ} (o : Outcome A) (f : A → Outcome B)
    → Returns o
    → ((a : A) → Returns (f a))
    → Returns (and_then o f)
Returns-and_then o f (a, made) each =
    let (b, made') = each a in (b, ap (λ p. and_then p f) made ∙ made')
