-- ===== src/Crates/Samples.antt =====
-- Small implementations of the crates' interfaces, which show that the assumed laws can be met.
use mathlib.Core.Logic.{if_pos}
use native.Mathlib.Nat.{pow-suc}
use xorc_gateway.Base.{
  ℕ, zero, suc, ◌+◌, ◌-◌, ◌*◌, ◌/◌, ◌%◌, ◌<◌, ◌^◌, ◌≡◌, ◌≢◌, refl, ap, Option, none, some, List, [],
  ◌∷◌, ◌++◌, length, length-append, take, take-append, replicate, Text, text, IsAscii, arith, ◌==◌,
  text_eq, if◌then◌else◌, All-append, ite, ℕ_discrete, ℤ, pos, negsuc,
}
use xorc_gateway.Crates.{
  Base64, IsBase64, Hex, Hmac, Aead, IsAead, Uuids, IsUuids, Http, Network, Casts,
}

-- The bytes stand for themselves.
abbrev pub plain_base64 : Base64
plain_base64 = record { encode = λ b. b; decode = λ s. some s; decode_url_safe = λ s. some s }

pub plain_base64-IsBase64 : IsBase64 plain_base64
plain_base64-IsBase64 = record { decode-encode = λ bytes h. refl }

abbrev pub plain_hex : Hex
plain_hex = record { decode = λ s. if s == text "bad" then none else some s }

-- A signature is the key followed by the message.
abbrev pub plain_hmac : Hmac
plain_hmac = record { verify = λ key message signature. key.bytes ++ message == signature }

-- The tag is sixteen zeros, and only its room is checked.
abbrev tag : List ℕ
tag = replicate 16 0

-- A key has as many bytes as asked.
abbrev sized : ℕ → List ℕ → List ℕ → Option (List ℕ)
sized zero [] key = some key
sized zero (b ∷ bytes) key = none
sized (suc n) [] key = none
sized (suc n) (b ∷ bytes) key = sized n bytes key

sized-some : (n : ℕ) (bytes key : List ℕ) → length bytes ≡ n → sized n bytes key ≡ some key
sized-some zero [] key e = refl
sized-some zero (b ∷ bytes) key e = absurd (omega (arith, e))
sized-some (suc n) [] key e = absurd (omega (arith, e))
sized-some (suc n) (b ∷ bytes) key e = sized-some n bytes key (omega (arith, e))

sized-none : (n : ℕ) (bytes key : List ℕ) → length bytes ≢ n → sized n bytes key ≡ none
sized-none zero [] key e = absurd (e refl)
sized-none zero (b ∷ bytes) key e = refl
sized-none (suc n) [] key e = refl
sized-none (suc n) (b ∷ bytes) key e = sized-none n bytes key (omega (arith, e))

abbrev pub plain_aead : Aead
plain_aead = record {
  opening_key = λ key. sized 32 key key;
  sealing_key = λ key. sized 32 key key;
  seal_in_place = λ key nonce in_out suffix. some (take (length in_out - suffix) in_out ++ tag);
  open_in_place = λ key nonce in_out. some (take (length in_out - 16) in_out);
}

seal-plain :
    (plain suffix : List ℕ)
    → length suffix ≡ 16
    → take (length (plain ++ suffix) - 16) (plain ++ suffix) ++ tag ≡ plain ++ tag
seal-plain plain suffix e =
    ap (λ t. t ++ tag) (take-append plain suffix _ (omega (arith, length-append plain suffix)))

open-plain : (plain : List ℕ) → take (length (plain ++ tag) - 16) (plain ++ tag) ≡ plain
open-plain plain = take-append plain tag _ (omega (arith, length-append plain tag))

pub plain_aead-IsAead : IsAead plain_aead
plain_aead-IsAead = record {
  keys = λ key e. (sized-some 32 key key e, sized-some 32 key key e);
  no_keys = λ key e. sized-none 32 key key e;
  sealed = λ key nonce plain. plain ++ tag;
  seal-sealed = λ key nonce plain suffix _ e. ap some (seal-plain plain suffix e);
  length-sealed = λ key nonce plain. length-append plain tag;
  sealed-IsBytes = λ key nonce plain h. All-append (λ b. b < 256) plain tag h (omega arith);
  open-sealed = λ key nonce plain _. ap some (open-plain plain);
}

abbrev magnitude : ℤ → ℕ
magnitude (pos n) = n
magnitude (negsuc n) = suc n

-- A UUID is written by 36 digits to the base 16, the lowest first.
abbrev digits : ℕ → ℕ → Text
digits zero n = []
digits (suc k) n = n % 16 ∷ digits k (n / 16)

abbrev value : Text → ℕ
value [] = 0
value (d ∷ s) = d + 16 * value s

-- Only texts of 36 bytes are read.
abbrev pub plain_uuids : Uuids
plain_uuids = record {
  parse_str = λ s. ite (ℕ_discrete (length s) 36) (some (value s)) none;
  hyphenated = digits 36;
}

value-digits : (k n : ℕ) → n < 16 ^ k → value (digits k n) ≡ n
value-digits zero n h = omega arith
value-digits (suc k) n h =
    let h' : n < 16 ^ k * 16 = rw (← pow-suc) h in
    omega (arith, value-digits k (n / 16) (omega arith))

length-digits : (k n : ℕ) → length (digits k n) ≡ k
length-digits zero n = refl
length-digits (suc k) n = ap suc (length-digits k (n / 16))

digits-IsAscii : (k n : ℕ) → IsAscii (digits k n)
digits-IsAscii zero n = tt
digits-IsAscii (suc k) n = (omega arith, digits-IsAscii k (n / 16))

parse-digits : (n : ℕ) → n < 2 ^ 128 → plain_uuids.parse_str (digits 36 n) ≡ some n
parse-digits n h =
    rw (if_pos (ℕ_discrete (length (digits 36 n)) 36) (length-digits 36 n))
      (ap some (value-digits 36 n (omega arith)))

pub plain_uuids-IsUuids : IsUuids plain_uuids
plain_uuids-IsUuids = record {
  parse_str-hyphenated = parse-digits;
  length-hyphenated = λ n h. length-digits 36 n;
  hyphenated-IsAscii = λ n h. digits-IsAscii 36 n;
}

-- Header values and addresses are taken as they are; every address but the empty one is in "DE".
abbrev pub plain_http : Http
plain_http = record { to_str = λ bytes. some bytes; from_str = λ s. some s }

abbrev pub plain_network : Network
plain_network = record {
  parse_ip = λ s. some (record { display = s });
  lookup_country = λ ip. if ip.display == [] then none else some (text "DE");
  blake2b = λ s. s;
}

abbrev pub plain_casts : Casts
plain_casts = record { i64_as_f64 = magnitude; u64_as_f64 = λ n. n }
