-- ===== src/Events/Timestamp/RoundTrip.antt =====
-- Timestamps of src/events/input/sdk_event.rs: what is written reads back.
use xorc_gateway.Base.{
  ℕ, zero, suc, ◌+◌, ◌/◌, ◌%◌, ◌^◌, ◌<◌, ◌≤◌, ◌≡◌, refl, ◌∙◌, some, [], ◌∷◌, Text, arith, inl, inr,
  Bool-cases, Option-cases, ◌==◌, ℕ_eq, if◌then◌else◌,
}
use xorc_gateway.Events.Timestamp.{push_digit, read_digits, u64_from_str, write_digits, u64_to_text}

push_digit-digit : (acc n : ℕ) → acc ≡ n / 10 → n < 2 ^ 64 → push_digit acc (b'0' + n % 10) ≡ some n
unfolding push_digit
push_digit-digit acc n e b = ground arith

push_digit-lt : (acc b n : ℕ) → push_digit acc b ≡ some n → n < 2 ^ 64
unfolding push_digit
push_digit-lt acc b n e = ground arith

-- Reading what `write_digits` puts in front of `s` is reading `s` after `n`.
read-write :
    (fuel n : ℕ) (s : Text)
    → n < fuel
    → n < 2 ^ 64
    → read_digits 0 (write_digits fuel n s) ≡ read_digits n s
unfolding read_digits write_digits
read-write zero n s h b = absurd (omega arith)
read-write (suc fuel) n s h b = elim (Bool-cases (n / 10 == 0)) [
  | inl last ↦ rw (last, push_digit-digit 0 n (ground arith) b, read_digits)
  | inr more ↦ rw more (
      read-write fuel (n / 10) _ (ground arith) (ground arith)
      ∙ rw (push_digit-digit (n / 10) n refl b))
]

abbrev StartsWithDigit : Text → Type 0
StartsWithDigit [] = ⊥
StartsWithDigit (b ∷ s) = b'0' ≤ b

write_digits-StartsWithDigit :
    (fuel n b : ℕ) (s : Text) → b'0' ≤ b → StartsWithDigit (write_digits fuel n (b ∷ s))
unfolding write_digits
write_digits-StartsWithDigit zero n b s h = h
write_digits-StartsWithDigit (suc fuel) n b s h = elim (Bool-cases (n / 10 == 0)) [
  | inl last ↦ rw last (omega arith)
  | inr more ↦ rw more (write_digits-StartsWithDigit fuel (n / 10) _ (b ∷ s) (omega arith))
]

u64_to_text-StartsWithDigit : (n : ℕ) → StartsWithDigit (u64_to_text n)
unfolding u64_to_text
u64_to_text-StartsWithDigit n = elim (Bool-cases (n / 10 == 0)) [
  | inl last ↦ rw last (omega arith)
  | inr more ↦ rw more (write_digits-StartsWithDigit n (n / 10) _ [] (omega arith))
]

u64_from_str_of_StartsWithDigit : (s : Text) → StartsWithDigit s → u64_from_str s ≡ read_digits 0 s
unfolding u64_from_str
u64_from_str_of_StartsWithDigit [] h = absurd h
u64_from_str_of_StartsWithDigit (b ∷ []) h = refl
u64_from_str_of_StartsWithDigit (b ∷ c ∷ s) h = ground arith

-- A timestamp that fits `u64` is written so that it reads back.
pub u64_from_str-u64_to_text : (n : ℕ) → n < 2 ^ 64 → u64_from_str (u64_to_text n) ≡ some n
unfolding read_digits
u64_from_str-u64_to_text n b =
    u64_from_str_of_StartsWithDigit _ (u64_to_text-StartsWithDigit n)
    ∙ unfold u64_to_text in read-write (suc n) n [] (omega arith) b

read_digits-lt :
    (acc : ℕ) (s : Text) (n : ℕ) → acc < 2 ^ 64 → read_digits acc s ≡ some n → n < 2 ^ 64
unfolding read_digits
read_digits-lt acc [] n h e = ground arith
read_digits-lt acc (b ∷ s) n h e = elim (Option-cases (push_digit acc b)) [
  | inl stop ↦ ground arith
  | inr (acc', more) ↦ read_digits-lt acc' s n (push_digit-lt acc b acc' more) (ground arith)
]

-- What is read as a timestamp fits `u64`.
pub u64_from_str-lt : (s : Text) (n : ℕ) → u64_from_str s ≡ some n → n < 2 ^ 64
unfolding u64_from_str
u64_from_str-lt [] n e = cc
u64_from_str-lt (b ∷ []) n e = read_digits-lt 0 (b ∷ []) n (omega arith) e
u64_from_str-lt (b ∷ c ∷ s) n e =
    read_digits-lt 0 (if b == b'+' then c ∷ s else b ∷ c ∷ s) n (omega arith) e
