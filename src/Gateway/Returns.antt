-- ===== src/Gateway/Returns.antt =====
-- Devices are known by the id that src/gateway.rs answered to them.
use xorc_gateway.Base.{
  ℕ, ◌<◌, ◌^◌, ◌≡◌, ◌∙◌, refl, ap, sym, some, none, Option, Text, text, returned, Outcome-cases,
  inl, inr, arith,
}
use xorc_gateway.Context.{Context, DeviceId, encrypt_id, generate, get_value, new_context}
use xorc_gateway.Context.Devices.{new_context-encrypt}
use xorc_gateway.Crates.{HeaderMap}
use xorc_gateway.Encryption.{encrypt}
use xorc_gateway.Events.Batch.{SdkEventBatch}
use xorc_gateway.Events.Device.{Platform}
use xorc_gateway.Gateway.{Env, Chance, id_for, match_device}
use xorc_gateway.Gateway.Devices.{IsLawful, IsChance, match_device_lem}
use xorc_gateway.IfaMatching.{get_id_for_ifa}
use xorc_gateway.IfaMatching.Answers.{get_id_for_ifa-some}
use xorc_gateway.World.{World}

module _ (env : Env) (lawful : IsLawful env) (chance : Chance) (random : IsChance chance) where
  -- An id that was made of a UUID: its ciphertext is what `encrypt` gave for the UUID's text.
  pub record IsMade (id : DeviceId) : Type 0 where
    pub uuid : ℕ
    pub small : uuid < 2 ^ 128
    pub cleartext : id.cleartext ≡ record { value = env.uuids.hyphenated uuid }
    pub ciphertext :
        encrypt env.crypto.base64 env.crypto.aead env.crypto.secret chance.nonce
          (record { value = env.uuids.hyphenated uuid })
        ≡ returned id.ciphertext

  encrypt_id-IsMade :
      (e : ℕ) (id : DeviceId)
      → e < 2 ^ 128
      → encrypt_id env.crypto chance.nonce (record { value = env.uuids.hyphenated e }) ≡ returned id
      → IsMade id
  unfolding encrypt_id
  encrypt_id-IsMade e id small h =
      elim (Outcome-cases (
        encrypt env.crypto.base64 env.crypto.aead env.crypto.secret chance.nonce
          (record { value = env.uuids.hyphenated e }))) [
            | inl stops ↦ ground arith
            | inr (c, made) ↦ record {
              uuid = e;
              small = small;
              cleartext = ground arith;
              ciphertext = ground arith;
            }
          ]

  id_for-IsMade :
      (found : Option Text) (id : DeviceId)
      → ((t : Text) → found ≡ some t → (e : ℕ) × (e < 2 ^ 128) × (t ≡ env.uuids.hyphenated e))
      → id_for env chance found ≡ returned id
      → IsMade id
  unfolding id_for generate
  id_for-IsMade none id known h = encrypt_id-IsMade chance.new_v4 id random.uuid h
  id_for-IsMade (some t) id known h =
      let (e, small, same) = known t refl in
      encrypt_id-IsMade e id small
        (ap (λ s. encrypt_id env.crypto chance.nonce (record { value = s })) (sym same) ∙ h)

  match_device-IsMade :
      (c : Context) (b : SdkEventBatch) (w : World env.cluster) (id : DeviceId)
      → (match_device env chance c b w).0 ≡ returned id
      → IsMade id
  unfolding match_device
  match_device-IsMade c b w id h =
      let keyspace = env.config.cassandra.keyspace in
      let got =
        get_id_for_ifa env.cluster env.uuids keyspace c.app_id b.device.ifa
          b.device.ifa_tracking_enabled w in
      let known =
        get_id_for_ifa-some env.cluster env.uuids keyspace lawful.holds c.app_id b.device.ifa
          b.device.ifa_tracking_enabled w in
      elim (Outcome-cases (id_for env chance got.0)) [
        | inl stops ↦ ground arith
        | inr (d, drawn) ↦
            let same : d ≡ id = ground (arith, match_device_lem env lawful chance c b w d drawn) in
            id_for-IsMade got.0 id known (rw (← same) drawn)
      ]

  -- Under the laws of the crates and of the cluster, a request whose `XORC-Device-Id` is the
  -- ciphertext that a device was given has that device's id in its context.
  pub match_device-new_context :
      (c : Context) (b : SdkEventBatch) (w : World env.cluster) (id : DeviceId)
      (headers : HeaderMap) (app_id : Text) (platform : Platform)
      → (match_device env chance c b w).0 ≡ returned id
      → get_value env.http headers (text "XORC-Device-Id") ≡ some id.ciphertext.value
      → (ctx : Context) × (new_context env.crypto env.http env.translation.network headers app_id
            platform
          ≡ returned ctx)
        × (ctx.device_id ≡ some id)
  match_device-new_context c b w id headers app_id platform h given =
      let made = match_device-IsMade c b w id h in
      let s = env.uuids.hyphenated made.uuid in
      let (ctx, read, has) =
        new_context-encrypt env.crypto env.http env.translation.network headers app_id platform
          lawful.base64 lawful.aead lawful.key chance.nonce s id.ciphertext lawful.secret
          lawful.sized random.twelve random.bytes
          (lawful.uuids.hyphenated-IsAscii made.uuid made.small)
          (lawful.uuids.length-hyphenated made.uuid made.small) made.ciphertext given in
      (
        ctx,
        read,
        has
            ∙ ap (λ t. some (record { ciphertext = id.ciphertext; cleartext = t }))
                (sym made.cleartext),
      )
