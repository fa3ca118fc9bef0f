-- ===== src/Encryption/Arrays.antt =====
-- The arrays of src/encryption.rs, which loops fill byte by byte.
use mathlib.Core.List.{append_assoc}
use xorc_gateway.Base.{
  ℕ, zero, suc, ◌+◌, ◌≤◌, ◌<◌, ◌≡◌, refl, List, [], ◌∷◌, ◌++◌, length, length-append, drop,
  returned, panicked, arith, Outcome-cases, inl, inr,
}
use xorc_gateway.Encryption.{set_index, copy_into}

set_index-append :
    (before : List ℕ) (i x : ℕ) (after : List ℕ) (b : ℕ)
    → length before ≡ i
    → set_index (before ++ x ∷ after) i b ≡ returned (before ++ b ∷ after)
unfolding set_index
set_index-append [] zero x after b e = refl
set_index-append [] (suc i) x after b e = absurd (omega arith)
set_index-append (y ∷ before) zero x after b e = absurd (omega arith)
set_index-append (y ∷ before) (suc i) x after b e =
    rw (set_index-append before i x after b (omega arith))

length-set_index :
    (array : List ℕ) (i b : ℕ) (array' : List ℕ)
    → set_index array i b ≡ returned array'
    → (length array' ≡ length array) × (i < length array)
unfolding set_index
length-set_index [] i b array' e = cc
length-set_index (x ∷ array) zero b array' e = ground arith
length-set_index (x ∷ array) (suc i) b array' e = elim (Outcome-cases (set_index array i b)) [
  | inl stops ↦ ground arith
  | inr (ys, found) ↦ ground (arith, length-set_index array i b ys found)
]

-- The loop overwrites what stands from the index on.
pub copy_into-append :
    (bytes : List ℕ) (i : ℕ) (before after : List ℕ)
    → length before ≡ i
    → length bytes ≤ length after
    → copy_into bytes i (before ++ after)
      ≡ returned (before ++ (bytes ++ drop (length bytes) after))
unfolding copy_into
copy_into-append [] i before after e h = refl
copy_into-append (b ∷ bytes) i before [] e h = absurd (omega arith)
copy_into-append (b ∷ bytes) i before (x ∷ after) e h = rw (set_index-append before i x after b e) (
    simp append_assoc at (
      copy_into-append bytes (suc i) (before ++ b ∷ []) after
        (omega (arith, length-append before (b ∷ []))) (omega arith)))

-- It panics where the bytes do not fit.
pub copy_into_overflow :
    (bytes : List ℕ) (i : ℕ) (array : List ℕ)
    → i ≤ length array
    → length array < i + length bytes
    → copy_into bytes i array ≡ panicked
unfolding copy_into
copy_into_overflow [] i array k h = absurd (omega arith)
copy_into_overflow (b ∷ bytes) i array k h = elim (Outcome-cases (set_index array i b)) [
  | inl stops ↦ rw stops
  | inr (array', set) ↦
      let facts = length-set_index array i b array' set in
      rw set (copy_into_overflow bytes (suc i) array' (omega arith) (omega arith))
]
