-- ===== src/Encryption/Utf8.antt =====
-- `String::from_utf8_lossy`, which src/encryption.rs uses on decrypted bytes: well-formed UTF-8 is
-- kept, and each maximal ill-formed part becomes U+FFFD.
use xorc_gateway.Base.{
  ℕ, zero, suc, ◌≡◌, refl, Bool, List, [], ◌∷◌, ◌++◌, Text, IsAscii, if◌then◌else◌, ◌&&◌, ltb, leb,
  arith,
}

-- What is read of a character: nothing, or some bytes with the number of bytes to come after the
-- next one and the range of the next one.
pub data Progress : Type 0 where
  idle : Progress
  within : List ℕ → ℕ → ℕ → ℕ → Progress

-- U+FFFD
abbrev replacement : Text
replacement = 0xEF ∷ 0xBF ∷ 0xBD ∷ []

abbrev between : ℕ → ℕ → ℕ → Bool
between lo hi b = leb lo b && leb b hi

-- The first byte of a character.
begin_char : ℕ → Text × Progress
begin_char b =
    if ltb b 128
    then (b ∷ [], idle)
    else if between 0xC2 0xDF b
    then ([], within (b ∷ []) 0 0x80 0xBF)
    else if leb b 0xE0 && leb 0xE0 b
    then ([], within (b ∷ []) 1 0xA0 0xBF)
    else if leb b 0xED && leb 0xED b
    then ([], within (b ∷ []) 1 0x80 0x9F)
    else if between 0xE1 0xEF b
    then ([], within (b ∷ []) 1 0x80 0xBF)
    else if leb b 0xF0 && leb 0xF0 b
    then ([], within (b ∷ []) 2 0x90 0xBF)
    else if between 0xF1 0xF3 b
    then ([], within (b ∷ []) 2 0x80 0xBF)
    else if leb b 0xF4 && leb 0xF4 b
    then ([], within (b ∷ []) 2 0x80 0x8F)
    else (replacement, idle)

-- A byte that cannot follow ends the part before it and may begin a character.
next_byte : Progress → ℕ → Text × Progress
next_byte idle b = begin_char b
next_byte (within seen zero lo hi) b =
    if between lo hi b
    then (seen ++ b ∷ [], idle)
    else (replacement ++ (begin_char b).0, (begin_char b).1)
next_byte (within seen (suc more) lo hi) b =
    if between lo hi b
    then ([], within (seen ++ b ∷ []) more 0x80 0xBF)
    else (replacement ++ (begin_char b).0, (begin_char b).1)

lossy_from : Progress → List ℕ → Text
unfolding next_byte begin_char
lossy_from idle [] = []
lossy_from (within seen more lo hi) [] = replacement
lossy_from p (b ∷ s) = (next_byte p b).0 ++ lossy_from (next_byte p b).1 s

unfoldable pub from_utf8_lossy : List ℕ → Text
unfolding lossy_from
from_utf8_lossy = lossy_from idle

pub from_utf8_lossy_of_IsAscii : (s : Text) → IsAscii s → from_utf8_lossy s ≡ s
unfolding from_utf8_lossy
from_utf8_lossy_of_IsAscii [] h = refl
from_utf8_lossy_of_IsAscii (b ∷ s) h = ground (arith, from_utf8_lossy_of_IsAscii s h.1)

lossy_tests :
    (from_utf8_lossy (0xC3 ∷ 0xA9 ∷ 0x21 ∷ []) ≡ 0xC3 ∷ 0xA9 ∷ 0x21 ∷ [])
    × (from_utf8_lossy (0xE2 ∷ 0x82 ∷ 0x41 ∷ 0xFF ∷ []) ≡ replacement ++ 0x41 ∷ replacement)
unfolding from_utf8_lossy
lossy_tests = (refl, refl)
