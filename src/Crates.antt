-- ===== src/Crates.antt =====
-- What the gateway takes from other crates, which are parameters of the model: the operations that
-- the source calls and, apart from them, the documented laws that a theorem may assume.
pub mod Samples
use xorc_gateway.Base.{
  ℕ, ◌+◌, ◌<◌, ◌^◌, ◌≡◌, ◌≢◌, Bool, Option, some, none, List, ◌++◌, length, Text, IsAscii, ℤ, All,
}

-- `base64`: `encode` and `decode`, and `decode_config` with `URL_SAFE_NO_PAD`.
pub record Base64 : Type 0 where
  pub encode : List ℕ → Text
  pub decode : Text → Option (List ℕ)
  pub decode_url_safe : Text → Option (List ℕ)

abbrev pub IsBytes : List ℕ → Type 0
IsBytes = All (λ b. b < 256)

pub record IsBase64 (b : Base64) : Type 0 where
  pub decode-encode : (bytes : List ℕ) → IsBytes bytes → b.decode (b.encode bytes) ≡ some bytes

-- `hex::decode`
pub record Hex : Type 0 where
  pub decode : Text → Option (List ℕ)

-- `ring::hmac` with `SHA512`: a verification key is made of its bytes.
pub record VerificationKey : Type 0 where
  pub bytes : List ℕ

pub record Hmac : Type 0 where
  pub verify : VerificationKey → List ℕ → List ℕ → Bool

-- `ring::aead` with `AES_256_GCM` and no associated data: `OpeningKey::new` and `SealingKey::new`, each
-- by the bytes of the key, which they may refuse. `seal_in_place key nonce in_out suffix` gives what `in_out` holds after the call, `open_in_place key nonce in_out` the part of it that
-- holds the plaintext.
pub record Aead : Type 0 where
  pub opening_key : List ℕ → Option (List ℕ)
  pub sealing_key : List ℕ → Option (List ℕ)
  pub seal_in_place : List ℕ → List ℕ → List ℕ → ℕ → Option (List ℕ)
  pub open_in_place : List ℕ → List ℕ → List ℕ → Option (List ℕ)

-- The keys are those of 32 bytes. Sealing with a nonce of 12 bytes and room for the tag of 16 bytes succeeds and keeps the length,
-- and what it gives opens to the bytes before the suffix.
pub record IsAead (a : Aead) : Type 0 where
  pub keys :
      (key : List ℕ)
      → length key ≡ 32
      → (a.opening_key key ≡ some key) × (a.sealing_key key ≡ some key)
  pub no_keys : (key : List ℕ) → length key ≢ 32 → a.opening_key key ≡ none
  pub sealed : List ℕ → List ℕ → List ℕ → List ℕ
  pub seal-sealed :
      (key nonce plain suffix : List ℕ)
      → length nonce ≡ 12
      → length suffix ≡ 16
      → a.seal_in_place key nonce (plain ++ suffix) 16 ≡ some (sealed key nonce plain)
  pub length-sealed :
      (key nonce plain : List ℕ) → length (sealed key nonce plain) ≡ length plain + 16
  pub sealed-IsBytes : (key nonce plain : List ℕ) → IsBytes plain → IsBytes (sealed key nonce plain)
  pub open-sealed :
      (key nonce plain : List ℕ)
      → length nonce ≡ 12
      → a.open_in_place key nonce (sealed key nonce plain) ≡ some plain

-- `uuid`: a `Uuid` is its 128-bit value, and `Uuid::nil()` is 0. `hyphenated` is `to_string` of
-- the hyphenated form.
pub record Uuids : Type 0 where
  pub parse_str : Text → Option ℕ
  pub hyphenated : ℕ → Text

pub record IsUuids (u : Uuids) : Type 0 where
  pub parse_str-hyphenated : (id : ℕ) → id < 2 ^ 128 → u.parse_str (u.hyphenated id) ≡ some id
  pub length-hyphenated : (id : ℕ) → id < 2 ^ 128 → length (u.hyphenated id) ≡ 36
  pub hyphenated-IsAscii : (id : ℕ) → id < 2 ^ 128 → IsAscii (u.hyphenated id)

-- `http`: `to_str` of the bytes of a header value, and `HeaderValue::from_str`.
pub record Http : Type 0 where
  pub to_str : List ℕ → Option Text
  pub from_str : Text → Option Text

-- `HeaderMap::get`, by the name as the source spells it.
pub record HeaderMap : Type 0 where
  pub get : Text → Option (List ℕ)

-- `IpAddr`, by the text that `Display` gives, with its `FromStr`; `maxminddb` gives the country's
-- ISO code of an address, and `blake2` the digest of a text.
pub record IpAddr : Type 0 where
  pub display : Text

pub record Network : Type 0 where
  pub parse_ip : Text → Option IpAddr
  pub lookup_country : IpAddr → Option Text
  pub blake2b : Text → List ℕ

-- `f64` by its bit pattern, with Rust's casts to it.
abbrev pub F64 : Type 0
F64 = ℕ

pub record Casts : Type 0 where
  pub i64_as_f64 : ℤ → F64
  pub u64_as_f64 : ℕ → F64

-- `serde_json::Number`, by what its accessors answer.
pub record Number : Type 0 where
  pub as_i64 : Option ℤ
  pub as_u64 : Option ℕ
  pub as_f64 : Option F64
