-- ===== src/Events/Device/Languages.antt =====
-- src/events/input/sdk_device.rs: the language of a device, by its locale.
use xorc_gateway.Base.{
  ℕ, ◌≡◌, ◌≢◌, ◌↔◌, refl, ap, none, some, [], ◌∷◌, ◌++◌, length, take, Text, All, ◌==◌, ℕ_eq, arith,
  Bool-cases, Option-cases, inl, inr, take-append, sym, ◌∙◌,
}
use xorc_gateway.Events.Device.{find, language_of}

-- The text has no byte `c`.
abbrev pub IsFree : ℕ → Text → Type 0
IsFree c = All (λ b. b ≢ c)

find_before : (c : ℕ) (s rest : Text) → IsFree c s → find c (s ++ c ∷ rest) ≡ some (length s)
unfolding find
find_before c [] rest h = ground arith
find_before c (b ∷ s) rest h = ground (arith, find_before c s rest h.1)

find_split :
    (c : ℕ) (s : Text) {i : ℕ}
    → find c s ≡ some i
    → (before rest : Text) × (s ≡ before ++ c ∷ rest) × (length before ≡ i) × IsFree c before
unfolding find
find_split c [] e = cc
find_split c (b ∷ s) e = elim (Bool-cases (b == c)) [
  | inl here ↦ ([], s, ground arith, ground arith, tt)
  | inr differs ↦ elim (Option-cases (find c s)) [
    | inl missing ↦ ground arith
    | inr (j, found) ↦
        let (before, rest, split, len, free) = find_split c s found in
        (b ∷ before, rest, ap (◌∷◌ b) split, ground arith, (ground arith, free))
  ]
]

-- A device that names no language has one exactly if its locale has a `_`: the text before the
-- first.
pub language_of_iff :
    (locale language : Text)
    → (language_of none (some locale) ≡ some language)
      ↔ ((rest : Text) × (locale ≡ language ++ b'_' ∷ rest) × IsFree b'_' language)
unfolding language_of
language_of_iff locale language = (
  λ e. elim (Option-cases (find b'_' locale)) [
    | inl missing ↦ ground arith
    | inr (i, found) ↦
        let (before, rest, split, len, free) = find_split b'_' locale found in
        let cut : take i locale ≡ before = rw split (take-append before _ i len) in
        let same : before ≡ language = sym cut ∙ ground arith in
        (rest, rw (← same) split, rw (← same) free)
  ],
  λ (rest, split, free).
      rw split (rw (find_before b'_' language rest free) (ap some (take-append language _ _ refl))),
)
