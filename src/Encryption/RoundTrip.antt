-- ===== src/Encryption/RoundTrip.antt =====
-- What `decrypt` gives back of what `encrypt` was given, and where either panics.
use mathlib.Core.List.{append-nil}
use xorc_gateway.Base.{
  ℕ, zero, suc, ◌≤◌, ◌<◌, ◌≡◌, ◌↔◌, refl, ap, sym, ◌∙◌, some, false, List, [], ◌∷◌, ◌++◌, length,
  length-append, take, drop, take-append, drop-append, replicate, Text, IsAscii, returned, panicked,
  ◌≢◌, ◌⊎◌, Outcome, Outcome-cases, ℕ_discrete, ltb, take-append-drop, length-take, length-drop,
  arith, Option-cases, All-append, inl, inr,
}
use xorc_gateway.Crates.{Base64, IsBase64, Aead, IsAead, IsBytes}
use xorc_gateway.Encryption.{
  Ciphertext, copy_into, encrypt, open_payload, decrypt, opening_key, sealing_key,
}
use xorc_gateway.Encryption.Arrays.{copy_into-append, copy_into_overflow}
use xorc_gateway.Encryption.Utf8.{from_utf8_lossy_of_IsAscii}

-- The 36 bytes that are sealed for a text: the text, cut or filled up with zeros.
abbrev pub sealed_part : Text → Text
sealed_part s = take 36 (s ++ drop (length s) (replicate 52 0))

sealed_part_fit : (s : Text) → length s ≡ 36 → sealed_part s ≡ s
sealed_part_fit s e = take-append s _ 36 e

zeros-IsAscii : (n : ℕ) → IsAscii (replicate n 0)
zeros-IsAscii zero = tt
zeros-IsAscii (suc n) = (omega arith, zeros-IsAscii n)

module _ (base64 : Base64) (base64_laws : IsBase64 base64) (aead : Aead) (aead_laws : IsAead aead)
    (key nonce : List ℕ) (sized_key : length key ≡ 32) (twelve : length nonce ≡ 12) where
  payload_for : Text → List ℕ
  payload_for s = nonce ++ aead_laws.sealed key nonce (sealed_part s)

  encrypt-payload_for :
      (s : Text)
      → length s ≤ 52
      → encrypt base64 aead (returned key) nonce (record { value = s })
        ≡ returned (record { value = base64.encode (payload_for s) })
  unfolding encrypt payload_for sealing_key
  encrypt-payload_for s h =
      let array = s ++ drop (length s) (replicate 52 0) in
      let sized : length array ≡ 52 = omega (
        arith,
        length-append s (drop (length s) (replicate 52 0)),
        length-drop {A = ℕ} (length s) (replicate 52 0),
      ) in
      let ct = aead_laws.sealed key nonce (take 36 array) in
      let filled : copy_into s 0 (replicate 52 0) ≡ returned array =
        copy_into-append s 0 [] (replicate 52 0) refl h in
      let sealed : aead.seal_in_place key nonce array 16 ≡ some ct =
        ap (λ a. aead.seal_in_place key nonce a 16) (sym (take-append-drop 36 array))
        ∙ aead_laws.seal-sealed key nonce (take 36 array) (drop 36 array) twelve
            (omega (arith, length-drop 36 array)) in
      let first : copy_into nonce 0 (replicate 64 0) ≡ returned (nonce ++ replicate 52 0) =
        copy_into-append nonce 0 [] (replicate 64 0) refl (omega arith)
        ∙ ap (λ n. returned (nonce ++ drop n (replicate 64 0))) twelve in
      let whole : length ct ≡ 52 =
        omega (arith, aead_laws.length-sealed key nonce (take 36 array), length-take 36 array) in
      let second : copy_into ct 12 (nonce ++ replicate 52 0) ≡ returned (nonce ++ ct) =
        copy_into-append ct 12 nonce (replicate 52 0) twelve (omega arith)
        ∙ ap (λ n. returned (nonce ++ (ct ++ drop n (replicate 52 0)))) whole
        ∙ ap (λ t. returned (nonce ++ t)) (append-nil ct) in
      rw (filled, (aead_laws.keys key sized_key).1, sealed, first, second)

  decrypt-payload_for :
      (s : Text)
      → IsBytes (payload_for s)
      → IsAscii (sealed_part s)
      → decrypt base64 aead (returned key) (record { value = base64.encode (payload_for s) })
        ≡ returned (some (record { value = sealed_part s }))
  unfolding decrypt payload_for opening_key
  decrypt-payload_for s bytes ascii =
      let ct = aead_laws.sealed key nonce (sealed_part s) in
      let fits : ltb (length (nonce ++ ct)) 12 ≡ false = ground (arith, length-append nonce ct) in
      rw (
        base64_laws.decode-encode _ bytes,
        decrypt,
        open_payload,
        fits,
        (aead_laws.keys key sized_key).0,
        take-append nonce ct 12 twelve,
        drop-append nonce ct 12 twelve,
        aead_laws.open-sealed key nonce _ twelve,
        from_utf8_lossy_of_IsAscii _ ascii,
      )

IsAscii-append : (s t : Text) → IsAscii s → IsAscii t → IsAscii (s ++ t)
IsAscii-append [] t h k = k
IsAscii-append (b ∷ s) t (p, h) k = (p, IsAscii-append s t h k)

IsAscii-take : (n : ℕ) (s : Text) → IsAscii s → IsAscii (take n s)
IsAscii-take zero s h = tt
IsAscii-take (suc n) [] h = tt
IsAscii-take (suc n) (b ∷ s) (p, h) = (p, IsAscii-take n s h)

IsAscii-drop : (n : ℕ) (s : Text) → IsAscii s → IsAscii (drop n s)
IsAscii-drop zero s h = h
IsAscii-drop (suc n) [] h = tt
IsAscii-drop (suc n) (b ∷ s) (p, h) = IsAscii-drop n s h

sealed_part-IsAscii : (s : Text) → IsAscii s → IsAscii (sealed_part s)
sealed_part-IsAscii s h =
    IsAscii-take 36 _ (IsAscii-append s _ h (IsAscii-drop (length s) _ (zeros-IsAscii 52)))

IsBytes-of_IsAscii : (s : Text) → IsAscii s → IsBytes s
IsBytes-of_IsAscii [] h = tt
IsBytes-of_IsAscii (b ∷ s) (p, h) = (omega arith, IsBytes-of_IsAscii s h)

module _ (base64 : Base64) (base64_laws : IsBase64 base64) (aead : Aead) (aead_laws : IsAead aead)
    (key nonce : List ℕ) (sized_key : length key ≡ 32) (twelve : length nonce ≡ 12)
    (nonce_bytes : IsBytes nonce) (s : Text) (ascii : IsAscii s) where
  -- An ASCII text of at most 52 bytes is encrypted, and what comes out decrypts to its first 36
  -- bytes, filled up with zeros.
  pub decrypt-encrypt_part :
      length s ≤ 52
      → (c : Ciphertext) × (encrypt base64 aead (returned key) nonce (record { value = s })
          ≡ returned c)
        × (decrypt base64 aead (returned key) c
            ≡ returned (some (record { value = sealed_part s })))
  decrypt-encrypt_part short =
      let part = sealed_part-IsAscii s ascii in
      let bytes : IsBytes
          (payload_for base64 base64_laws aead aead_laws key nonce sized_key twelve s) =
        unfold payload_for in
        All-append (λ b. b < 256) nonce _ nonce_bytes
          (aead_laws.sealed-IsBytes key nonce _ (IsBytes-of_IsAscii _ part)) in
      (
        _,
        encrypt-payload_for base64 base64_laws aead aead_laws key nonce sized_key twelve s short,
        decrypt-payload_for base64 base64_laws aead aead_laws key nonce sized_key twelve s bytes
            part,
      )

  -- An ASCII text of 36 bytes, such as the id of a device, is encrypted, and what comes out decrypts
  -- to that text, for a key of 32 bytes and a nonce of 12 bytes.
  pub decrypt-encrypt :
      length s ≡ 36
      → (c : Ciphertext) × (encrypt base64 aead (returned key) nonce (record { value = s })
          ≡ returned c)
        × (decrypt base64 aead (returned key) c ≡ returned (some (record { value = s })))
  decrypt-encrypt e =
      let (c, encrypted, decrypted) = decrypt-encrypt_part (omega arith) in
      (c, encrypted, rw (sealed_part_fit s e) at decrypted)

module _ (base64 : Base64) (aead : Aead) (secret : Outcome (List ℕ)) where
  -- `encrypt` panics on every text of more than 52 bytes.
  pub encrypt_overflow :
      (nonce : List ℕ) (s : Text)
      → 52 < length s
      → encrypt base64 aead secret nonce (record { value = s }) ≡ panicked
  unfolding encrypt
  encrypt_overflow nonce s h =
      rw (copy_into_overflow s 0 (replicate 52 0) (omega arith) (omega arith))

  -- The opening key cannot be made: there is no secret, or it has not 32 bytes.
  abbrev pub NoKey : Type 0
  NoKey = (secret ≡ panicked) ⊎ ((bytes : List ℕ) × (secret ≡ returned bytes) × (length bytes ≢ 32))

  opening_key-eq-panicked_iff : IsAead aead → (opening_key aead secret ≡ panicked) ↔ NoKey
  unfolding opening_key
  opening_key-eq-panicked_iff laws = elim (Outcome-cases secret) [
    | inl missing ↦ (λ e. inl missing, λ h. rw missing refl)
    | inr (bytes, set) ↦ elim (ℕ_discrete (length bytes) 32) [
      | yes sized ↦ (
        λ e. ground (arith, (laws.keys bytes sized).0),
        λ h. elim h [ inl missing ↦ ground arith | inr (bytes', set', other) ↦ ground arith ],
      )
      | no other ↦ (λ e. inr (bytes, set, other), λ h. ground (arith, laws.no_keys bytes other))
    ]
  ]

  -- `decrypt` panics exactly on the ciphertexts that are base64 for fewer than 12 bytes and, where
  -- the key cannot be made, on all that are base64.
  pub decrypt-eq-panicked_iff :
      IsAead aead
      → (c : Ciphertext)
      → (decrypt base64 aead secret c ≡ panicked)
        ↔ ((bytes : List ℕ) × (base64.decode c.value ≡ some bytes) × ((length bytes < 12) ⊎ NoKey))
  unfolding decrypt open_payload
  decrypt-eq-panicked_iff laws c =
      let (out, back) = opening_key-eq-panicked_iff laws in
      elim (Option-cases (base64.decode c.value)) [
        | inl broken ↦ (λ e. ground arith, λ (bytes, decoded, why). ground arith)
        | inr (bytes, decoded) ↦ elim (Outcome-cases (opening_key aead secret)) [
          | inl stops ↦
              (λ e. (bytes, decoded, inr (out stops)), λ (bytes', decoded', why). ground arith)
          | inr (key, made) ↦ (
            λ e. (bytes, decoded, inl (ground arith)),
            λ (bytes', decoded', why). elim why [
              | inl short ↦ ground arith
              | inr none' ↦ ground (arith, back none')
            ],
          )
        ]
      ]
