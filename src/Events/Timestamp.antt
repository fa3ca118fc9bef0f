-- ===== src/Events/Timestamp.antt =====
-- The timestamps of src/events/input/sdk_event.rs: `u64::from_str`, by which `from_str` reads them,
-- and the decimal form that `format!("{}", self.timestamp)` writes.
pub mod RoundTrip
use xorc_gateway.Base.{
  ℕ, zero, suc, ◌+◌, ◌-◌, ◌*◌, ◌/◌, ◌%◌, ◌^◌, Bool, Option, none, some, [], ◌∷◌, Text, ◌==◌, ℕ_eq,
  if◌then◌else◌, ◌&&◌, ltb, leb, ◌>>=◌,
}

abbrev is_digit : ℕ → Bool
is_digit b = leb b'0' b && leb b b'9'

-- One round of the loop of `u64::from_str`: `none` for what is no digit and on overflow.
push_digit : ℕ → ℕ → Option ℕ
push_digit acc b =
    if is_digit b
    then (if ltb (acc * 10 + (b - b'0')) (2 ^ 64) then some (acc * 10 + (b - b'0')) else none)
    else none

read_digits : ℕ → Text → Option ℕ
unfolding push_digit
read_digits acc [] = some acc
read_digits acc (b ∷ s) = do acc' ← push_digit acc b; read_digits acc' s

-- `u64::from_str`: one `+` may stand in front, and there is at least one digit.
unfoldable pub u64_from_str : Text → Option ℕ
unfolding read_digits
u64_from_str [] = none
u64_from_str (b ∷ []) = read_digits 0 (b ∷ [])
u64_from_str (b ∷ c ∷ s) = read_digits 0 (if b == b'+' then c ∷ s else b ∷ c ∷ s)

-- The decimal digits of `n`, on fuel, in front of those that are written already.
write_digits : ℕ → ℕ → Text → Text
write_digits zero n s = s
write_digits (suc fuel) n s =
    let digit = b'0' + n % 10 in
    let rest = write_digits fuel (n / 10) (digit ∷ s) in if n / 10 == 0 then digit ∷ s else rest

-- `format!("{}", n)` of an unsigned number. The number itself is enough fuel, and more.
unfoldable pub u64_to_text : ℕ → Text
unfolding write_digits
u64_to_text n = write_digits (suc n) n []
