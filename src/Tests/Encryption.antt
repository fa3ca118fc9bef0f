-- ===== src/Tests/Encryption.antt =====
-- src/encryption.rs and src/context.rs on small inputs.
use xorc_gateway.Base.{
  ◌⊎◌, ℕ, ◌≡◌, ◌<◌, ◌↔◌, ◌++◌, refl, List, length, arith, Text, text, returned, panicked, some,
  none, replicate, IsAscii, text_eq, Text-discrete, ◌==◌, if◌then◌else◌,
}
use xorc_gateway.Context.{Context, new_context, get_value}
use xorc_gateway.Context.Devices.{new_context-encrypt, new_context-eq-panicked_iff}
use xorc_gateway.Crates.{HeaderMap, IsBytes}
use xorc_gateway.Crates.Samples.{
  plain_base64, plain_base64-IsBase64, plain_aead, plain_aead-IsAead, plain_http, plain_network,
}
use xorc_gateway.Encryption.{sealing_key, Ciphertext, encrypt, decrypt}
use xorc_gateway.Encryption.RoundTrip.{
  sealed_part, decrypt-encrypt, decrypt-encrypt_part, encrypt_overflow, decrypt-eq-panicked_iff,
  NoKey,
}
use xorc_gateway.Events.Device.{ios}
use xorc_gateway.Samples.Requests.{crypto, app_id}

abbrev nonce : List ℕ
nonce = replicate 12 9

abbrev secret : List ℕ
secret = replicate 32 7

bytes : IsBytes nonce
bytes = omega arith

ascii : IsAscii app_id
ascii = omega arith

decrypt-encrypt_example :
    (c : Ciphertext) × (encrypt plain_base64 plain_aead
        (returned secret)
        nonce
        (record { value = app_id })
      ≡ returned c)
    × (decrypt plain_base64 plain_aead (returned secret) c
        ≡ returned (some (record { value = app_id })))
decrypt-encrypt_example =
    decrypt-encrypt plain_base64 plain_base64-IsBase64 plain_aead plain_aead-IsAead secret nonce
      refl refl bytes app_id ascii refl

decrypt-encrypt_part_sample :
    (c : Ciphertext) × (encrypt plain_base64 plain_aead
        (returned secret)
        nonce
        (record { value = text "id" })
      ≡ returned c)
    × (decrypt plain_base64 plain_aead (returned secret) c
        ≡ returned (some (record { value = sealed_part (text "id") })))
decrypt-encrypt_part_sample =
    decrypt-encrypt_part plain_base64 plain_base64-IsBase64 plain_aead plain_aead-IsAead secret
      nonce refl refl bytes (text "id") (omega arith) (omega arith)

encrypt_overflow_sample :
    encrypt plain_base64 plain_aead (returned secret) nonce (record { value = replicate 53 0x61 })
    ≡ panicked
encrypt_overflow_sample =
    encrypt_overflow plain_base64 plain_aead (returned secret) nonce (replicate 53 0x61)
      (omega arith)

decrypt-eq-panicked_iff_sample :
    (decrypt plain_base64 plain_aead (returned secret) (record { value = text "short" }) ≡ panicked)
    ↔ ((given : List ℕ) × (plain_base64.decode (text "short") ≡ some given)
        × ((length given < 12) ⊎ NoKey plain_base64 plain_aead (returned secret)))
decrypt-eq-panicked_iff_sample =
    decrypt-eq-panicked_iff plain_base64 plain_aead (returned secret) plain_aead-IsAead
      (record { value = text "short" })

-- The ciphertext of that id, under the sample cipher.
abbrev sent : Ciphertext
sent = record { value = nonce ++ (app_id ++ replicate 16 0) }

encrypted :
    encrypt plain_base64 plain_aead (returned secret) nonce (record { value = app_id })
    ≡ returned sent
unfolding encrypt sealing_key
encrypted = refl

abbrev headers_with : Text → HeaderMap
headers_with id = record { get = λ name. if name == text "XORC-Device-Id" then some id else none }

given : get_value plain_http (headers_with sent.value) (text "XORC-Device-Id") ≡ some sent.value
unfolding get_value text_eq Text-discrete
given = refl

new_context-encrypt_sample :
    (ctx : Context) × (new_context crypto plain_http plain_network
        (headers_with sent.value)
        app_id
        ios
      ≡ returned ctx)
    × (ctx.device_id ≡ some (record { ciphertext = sent; cleartext = record { value = app_id } }))
new_context-encrypt_sample =
    new_context-encrypt crypto plain_http plain_network (headers_with sent.value) app_id ios
      plain_base64-IsBase64 plain_aead-IsAead secret nonce app_id sent refl refl refl bytes ascii
      refl encrypted given

new_context-eq-panicked_iff_example :
    (new_context crypto plain_http plain_network (headers_with (text "short")) app_id ios
      ≡ panicked)
    ↔ ((s : Text) × (read : List ℕ) × (get_value plain_http
            (headers_with (text "short"))
            (text "XORC-Device-Id")
          ≡ some s)
        × (plain_base64.decode s ≡ some read)
        × ((length read < 12) ⊎ NoKey plain_base64 plain_aead crypto.secret))
new_context-eq-panicked_iff_example =
    new_context-eq-panicked_iff crypto plain_http plain_network (headers_with (text "short")) app_id
      ios plain_aead-IsAead
