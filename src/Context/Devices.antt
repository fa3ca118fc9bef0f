-- ===== src/Context/Devices.antt =====
-- The device id that src/context.rs reads of a request.
use mathlib.Core.Option.{some-injective}
use xorc_gateway.Base.{
  ℕ, ◌<◌, ◌≡◌, ◌↔◌, ◌⊎◌, refl, some, List, length, Text, text, IsAscii, returned, panicked, arith,
  Option-cases, inl, inr, Option, ◌>>=◌, and_then, ◌∙◌,
}
use xorc_gateway.Context.{Context, Crypto, DeviceId, new_context, read_device_id, get_value}
use xorc_gateway.Crates.{Http, HeaderMap, Network, IsBase64, IsAead, IsBytes}
use xorc_gateway.Encryption.{Ciphertext, encrypt, decrypt}
use xorc_gateway.Encryption.RoundTrip.{decrypt-encrypt, decrypt-eq-panicked_iff, NoKey}
use xorc_gateway.Events.Device.{Platform}

module _ (c : Crypto) (http : Http) (network : Network) (headers : HeaderMap) (app_id : Text)
    (platform : Platform) where
  -- The context for a device id that was read.
  abbrev context_with : Option DeviceId → Context
  context_with device_id = record {
    app_id = app_id;
    platform = platform;
    api_token = get_value http headers (text "XORC-Api-Token");
    device_id = device_id;
    signature = get_value http headers (text "XORC-Signature");
    ip = get_value http headers (text "X-Real-IP") >>= network.parse_ip;
    origin = get_value http headers (text "Origin");
  }

  new_context-read_device_id :
      new_context c http network headers app_id platform
      ≡ and_then
          (read_device_id c (get_value http headers (text "XORC-Device-Id")))
          λ device_id. returned (context_with device_id)
  unfolding new_context
  new_context-read_device_id = refl

  -- A request whose `XORC-Device-Id` is what `encrypt` gave for an id of 36 ASCII bytes has that id
  -- in its context, with the ciphertext that it sent.
  pub new_context-encrypt :
      IsBase64 c.base64
      → IsAead c.aead
      → (key nonce : List ℕ) (s : Text) (sent : Ciphertext) → c.secret ≡ returned key
      → length key ≡ 32
      → length nonce ≡ 12
      → IsBytes nonce
      → IsAscii s
      → length s ≡ 36
      → encrypt c.base64 c.aead c.secret nonce (record { value = s }) ≡ returned sent
      → get_value http headers (text "XORC-Device-Id") ≡ some sent.value
      → (ctx : Context) × (new_context c http network headers app_id platform ≡ returned ctx)
        × (ctx.device_id ≡ some (record { ciphertext = sent; cleartext = record { value = s } }))
  unfolding read_device_id
  new_context-encrypt bl al key nonce s sent secret sized twelve nb ascii len encrypted given =
      let (sent', encrypted', opened) =
        decrypt-encrypt c.base64 bl c.aead al key nonce sized twelve nb s ascii len in
      let same : sent' ≡ sent = ground (arith, rw secret at encrypted) in
      (
        context_with (some (record { ciphertext = sent; cleartext = record { value = s } })),
        new_context-read_device_id ∙ rw given (rw (← same, secret) (rw opened)),
        refl,
      )

  read_device_id-panics :
      (s : Text)
      → (and_then (read_device_id c (some s)) (λ d. returned (context_with d)) ≡ panicked)
        ↔ (decrypt c.base64 c.aead c.secret (record { value = s }) ≡ panicked)
  unfolding read_device_id
  read_device_id-panics s = ground arith

  -- Reading a request panics exactly if its `XORC-Device-Id` is base64, for fewer than 12 bytes, or
  -- for any bytes where the opening key cannot be made: where there is no secret, or it has not 32
  -- bytes.
  pub new_context-eq-panicked_iff :
      IsAead c.aead
      → (new_context c http network headers app_id platform ≡ panicked) ↔ (
          (s : Text) × (bytes : List ℕ) × (get_value http headers (text "XORC-Device-Id") ≡ some s)
          × (c.base64.decode s ≡ some bytes)
          × ((length bytes < 12) ⊎ NoKey c.base64 c.aead c.secret))
  unfolding read_device_id
  new_context-eq-panicked_iff laws =
      rw new_context-read_device_id
        (elim (Option-cases (get_value http headers (text "XORC-Device-Id"))) [
          | inl missing ↦ rw missing (λ e. cc, λ (s, bytes, given, _, _). cc)
          | inr (s, given) ↦
              let (to, from) =
                decrypt-eq-panicked_iff c.base64 c.aead c.secret laws (record { value = s }) in
              let (down, up) = read_device_id-panics s in
              rw given (
                λ e. let (bytes, decoded, short) = to (down e) in (s, bytes, refl, decoded, short),
                λ (s', bytes, same, decoded, short).
                    up (from (bytes, rw (some-injective s s' same) decoded, short)),
              )
        ])
