-- ===== src/Encryption.antt =====
-- src/encryption.rs: the ids of devices under AES-256-GCM, with base64 around.
pub mod Utf8
pub mod Arrays
pub mod RoundTrip
use xorc_gateway.Base.{
  ℕ, zero, suc, ◌+◌, Bool, true, false, Option, none, some, List, [], ◌∷◌, length, take, drop,
  replicate, Text, text, ◌==◌, text_eq, if◌then◌else◌, Outcome, returned, panicked, and_then,
  unwrap, ltb, map_option, not,
}
use xorc_gateway.Crates.{Base64, Aead}
use xorc_gateway.Encryption.Utf8.{from_utf8_lossy}

-- `Ciphertext`
pub record Ciphertext : Type 0 where
  pub value : Text

-- `Cleartext`
pub record Cleartext : Type 0 where
  pub value : Text

-- The key that development uses where `SECRET` is not set.
abbrev development_secret : List ℕ
development_secret =
    129 ∷ 164 ∷ 171 ∷ 19 ∷ 88 ∷ 96 ∷ 172 ∷ 49 ∷ 218 ∷ 122 ∷ 106 ∷ 79 ∷ 226 ∷ 124 ∷ 112 ∷ 233 ∷ 172
    ∷ 165 ∷ 64 ∷ 54 ∷ 31 ∷ 139 ∷ 249 ∷ 226 ∷ 199 ∷ 148 ∷ 8 ∷ 27 ∷ 76 ∷ 91 ∷ 164 ∷ 146 ∷ []

-- `SECRET`, for the value of the variable `SECRET` and for `RUST_ENV`.
unfoldable pub load_secret : Base64 → Option Text → Text → Outcome (List ℕ)
load_secret base64 (some secret) rust_env = unwrap (base64.decode_url_safe secret)
load_secret base64 none rust_env =
    if not (rust_env == text "development") then panicked else returned development_secret

-- `array[i] = b`, which panics out of bounds.
pub set_index : List ℕ → ℕ → ℕ → Outcome (List ℕ)
set_index [] i b = panicked
set_index (x ∷ xs) zero b = returned (b ∷ xs)
set_index (x ∷ xs) (suc i) b = and_then (set_index xs i b) λ ys. returned (x ∷ ys)

-- The loops `for (i, c) in bytes.iter().enumerate() { array[i + offset] = *c; }`
pub copy_into : List ℕ → ℕ → List ℕ → Outcome (List ℕ)
unfolding set_index
copy_into [] i array = returned array
copy_into (b ∷ bytes) i array = and_then (set_index array i b) (copy_into bytes (suc i))

-- `OPENING_KEY` and `SEALING_KEY`, each made where it is first used, of what `SECRET` comes to.
unfoldable pub opening_key : Aead → Outcome (List ℕ) → Outcome (List ℕ)
opening_key aead secret = and_then secret λ bytes. unwrap (aead.opening_key bytes)

unfoldable pub sealing_key : Aead → Outcome (List ℕ) → Outcome (List ℕ)
sealing_key aead secret = and_then secret λ bytes. unwrap (aead.sealing_key bytes)

module _ (base64 : Base64) (aead : Aead) (secret : Outcome (List ℕ)) where
  -- `Ciphertext::encrypt`, for the nonce that the random generator gives.
  unfoldable pub encrypt : List ℕ → Cleartext → Outcome Ciphertext
  unfolding copy_into sealing_key
  encrypt nonce cleartext = and_then (copy_into cleartext.value 0 (replicate 52 0)) λ array.
      and_then (sealing_key aead secret) λ key.
        and_then (unwrap (aead.seal_in_place key nonce array 16)) λ ciphertext.
          and_then (copy_into nonce 0 (replicate 64 0)) λ payload.
            and_then (copy_into ciphertext 12 payload)
              λ payload'. returned (record { value = base64.encode payload' })

  -- `decoded.split_at_mut(12)`, which panics if there are fewer bytes, and the rest of `decrypt`.
  open_payload : List ℕ → Outcome (Option Cleartext)
  unfolding from_utf8_lossy opening_key
  open_payload decoded =
      if ltb (length decoded) 12
      then panicked
      else and_then (opening_key aead secret) (λ key. returned (
          map_option (λ content. record { value = from_utf8_lossy content })
            (aead.open_in_place key (take 12 decoded) (drop 12 decoded))))

  -- `Cleartext::decrypt`; every error is `error::Unspecified`, here `none`.
  unfoldable pub decrypt : Ciphertext → Outcome (Option Cleartext)
  unfolding open_payload
  decrypt ciphertext = elim (base64.decode ciphertext.value) [
    | none ↦ returned none
    | some decoded ↦ open_payload decoded
  ]
