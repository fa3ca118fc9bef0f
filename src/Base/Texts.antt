-- ===== src/Base/Texts.antt =====
-- Rust's `String` and `&str` as the UTF-8 bytes that they are made of.
use Prim.Native.Char.{code}
use Prim.Native.Nat.{ℕ, ◌<◌}
use Prim.Native.String.{String}
use mathlib.Core.Path.{◌≡◌, refl, ap₂}
use mathlib.Core.Bool.{Bool, true, ◌&&◌}
use mathlib.Core.Logic.{◌≢◌, dite}
use mathlib.Core.List.{List, [], ◌∷◌}
use native.Mathlib.Decide.{ℕ_discrete}
use native.Mathlib.Omega.{arith}
use xorc_gateway.Base.Tests.{Eq, ltb}

abbrev pub Text : Type 0
Text = List ℕ

-- A text literal of ASCII characters.
abbrev pub text : String → Text
text String.[] = []
text (String.◌∷◌ c s) = code c ∷ text s

nil-ne-cons : (b : ℕ) (s : Text) → [] ≢ (b ∷ s)
nil-ne-cons b s e = cc

cons-ne-nil : (b : ℕ) (s : Text) → (b ∷ s) ≢ []
cons-ne-nil b s e = cc

heads_eq : {a b : ℕ} {s t : Text} → (a ∷ s) ≡ (b ∷ t) → a ≡ b
heads_eq e = cc

tails_eq : {a b : ℕ} {s t : Text} → (a ∷ s) ≡ (b ∷ t) → s ≡ t
tails_eq e = cc

-- Shut in proofs, where a split on `a == b` yields the equation or its negation.
unfoldable pub Text-discrete : Discrete Text
unfolding ℕ_discrete nil-ne-cons cons-ne-nil heads_eq tails_eq
Text-discrete [] [] = yes refl
Text-discrete [] (b ∷ t) = no (nil-ne-cons b t)
Text-discrete (a ∷ s) [] = no (cons-ne-nil a s)
Text-discrete (a ∷ s) (b ∷ t) =
    dite (ℕ_discrete a b)
      (λ p. dite (Text-discrete s t) (λ q. yes (ap₂ ◌∷◌ p q)) (λ n. no (λ e. n (tails_eq e))))
      (λ n. no (λ e. n (heads_eq e)))

instance unfoldable pub text_eq : Eq Text
unfolding Text-discrete
text_eq = record { dec = Text-discrete }

abbrev pub is_ascii : Text → Bool
is_ascii [] = true
is_ascii (b ∷ s) = ltb b 128 && is_ascii s

-- Every byte is below 128.
abbrev pub IsAscii : Text → Type 0
IsAscii [] = Unit
IsAscii (b ∷ s) = (b < 128) × IsAscii s

pub ascii→below : (s : Text) → is_ascii s ≡ true → IsAscii s
ascii→below [] h = tt
ascii→below (b ∷ s) h = (ground arith, ascii→below s (ground arith))
