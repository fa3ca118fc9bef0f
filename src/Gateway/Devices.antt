-- ===== src/Gateway/Devices.antt =====
-- Devices keep the id that src/gateway.rs gives them.
use xorc_gateway.Base.{
  List, ℕ, ◌<◌, ◌^◌, ◌≡◌, ◌∙◌, refl, ap, sym, some, none, Option, Text, length, returned,
}
use xorc_gateway.Context.{Context, DeviceId, encrypt_id, generate}
use xorc_gateway.Crates.{IsBase64, IsAead, IsBytes, IsUuids}
use xorc_gateway.Encryption.{Cleartext}
use xorc_gateway.Encryption.RoundTrip.{decrypt-encrypt}
use xorc_gateway.Events.Batch.{SdkEventBatch}
use xorc_gateway.Gateway.{Env, Chance, id_for, match_device}
use xorc_gateway.IfaMatching.{parse_ifa, get_id_for_ifa, put_id_for_ifa}
use xorc_gateway.IfaMatching.Answers.{HoldsUuids, get_id_for_ifa-some}
use xorc_gateway.IfaMatching.Lookup.{IsAvailable, KeepsIfas, get_id_for_ifa-put_id_for_ifa}
use xorc_gateway.World.{World}

-- What the random generators give: a nonce of 12 bytes and a UUID of 128 bits.
pub record IsChance (chance : Chance) : Type 0 where
  pub twelve : length chance.nonce ≡ 12
  pub bytes : IsBytes chance.nonce
  pub uuid : chance.new_v4 < 2 ^ 128

-- The laws of the crates and of the cluster that the registration of a device relies on, and a secret
-- of 32 bytes.
pub record IsLawful (env : Env) : Type 0 where
  pub base64 : IsBase64 env.crypto.base64
  pub aead : IsAead env.crypto.aead
  pub key : List ℕ
  pub secret : env.crypto.secret ≡ returned key
  pub sized : length key ≡ 32
  pub uuids : IsUuids env.uuids
  pub available : IsAvailable env.cluster
  pub keeps : KeepsIfas env.cluster env.config.cassandra.keyspace
  pub holds : HoldsUuids env.cluster

abbrev pub written : Text → Cleartext
written s = record { value = s }

module _ (env : Env) (lawful : IsLawful env) where
  encrypt_id-hyphenated :
      (chance : Chance)
      → IsChance chance
      → (e : ℕ) → e < 2 ^ 128
      → (id : DeviceId) × (encrypt_id env.crypto chance.nonce
            (record { value = env.uuids.hyphenated e })
          ≡ returned id)
        × (id.cleartext.value ≡ env.uuids.hyphenated e)
  unfolding encrypt_id
  encrypt_id-hyphenated chance random e small =
      let s = env.uuids.hyphenated e in
      let (c, encrypted, _) =
        decrypt-encrypt env.crypto.base64 lawful.base64 env.crypto.aead lawful.aead lawful.key
          chance.nonce lawful.sized random.twelve random.bytes s
          (lawful.uuids.hyphenated-IsAscii e small) (lawful.uuids.length-hyphenated e small) in
      (
        record { ciphertext = c; cleartext = record { value = s } },
        rw (encrypt_id, lawful.secret, encrypted),
        refl,
      )

  pub id_for-none :
      (chance : Chance)
      → IsChance chance
      → (id : DeviceId) × (id_for env chance none ≡ returned id)
        × (id.cleartext.value ≡ env.uuids.hyphenated chance.new_v4)
  unfolding id_for generate
  id_for-none chance random = encrypt_id-hyphenated chance random chance.new_v4 random.uuid

  id_for-some :
      (chance : Chance)
      → IsChance chance
      → (e : ℕ) → e < 2 ^ 128
      → (id : DeviceId) × (id_for env chance (some (env.uuids.hyphenated e)) ≡ returned id)
        × (id.cleartext.value ≡ env.uuids.hyphenated e)
  unfolding id_for
  id_for-some chance random e small = encrypt_id-hyphenated chance random e small

  -- Whatever was found for the device, it has an id, which is a UUID.
  pub id_for-hyphenated :
      (chance : Chance)
      → IsChance chance
      → (found : Option Text)
      → ((t : Text) → found ≡ some t → (e : ℕ) × (e < 2 ^ 128) × (t ≡ env.uuids.hyphenated e))
      → (id : DeviceId) × (e : ℕ) × (id_for env chance found ≡ returned id)
        × (id.cleartext.value ≡ env.uuids.hyphenated e)
        × (e < 2 ^ 128)
  id_for-hyphenated chance random none known =
      let (id, made, same) = id_for-none chance random in
      (id, chance.new_v4, made, same, random.uuid)
  id_for-hyphenated chance random (some t) known =
      let (e, small, text') = known t refl in
      let (id, made, same) = id_for-some chance random e small in
      (id, e, rw text' made, same, small)

  pub match_device_lem :
      (chance : Chance) (c : Context) (b : SdkEventBatch) (w : World env.cluster) (id : DeviceId)
      → let got =
          get_id_for_ifa env.cluster env.uuids env.config.cassandra.keyspace c.app_id b.device.ifa
            b.device.ifa_tracking_enabled w in
        id_for env chance got.0 ≡ returned id
        → match_device env chance c b w ≡ (
          returned id,
          (put_id_for_ifa env.cluster env.uuids env.config.cassandra.keyspace c.app_id id.cleartext
              b.device.ifa b.device.ifa_tracking_enabled got.1).1,
        )
  unfolding match_device
  match_device_lem chance c b w id made = rw (match_device, made)

  -- Under the laws of the crates and of a cluster that answers and keeps ids, and for nonces of 12
  -- bytes and UUIDs of 128 bits, a device with an advertising id that counts is given an id, and
  -- the next time that the same application registers a device with that advertising id it is given
  -- the same id.
  pub match_device-match_device :
      (chance chance' : Chance)
      → IsChance chance
      → IsChance chance'
      → (c c' : Context) (b b' : SdkEventBatch) (w : World env.cluster) (a i : ℕ)
      → env.uuids.parse_str c.app_id ≡ some a
      → parse_ifa env.uuids b.device.ifa b.device.ifa_tracking_enabled ≡ some i
      → c'.app_id ≡ c.app_id
      → b'.device.ifa ≡ b.device.ifa
      → b'.device.ifa_tracking_enabled ≡ b.device.ifa_tracking_enabled
      → (id id' : DeviceId) × ((match_device env chance c b w).0 ≡ returned id)
        × ((match_device env chance' c' b' (match_device env chance c b w).1).0 ≡ returned id')
        × (id'.cleartext ≡ id.cleartext)
  match_device-match_device chance chance' random random' c c' b b' w a i app parsed same_app
        same_ifa same_tracking =
      let keyspace = env.config.cassandra.keyspace in
      let got =
        get_id_for_ifa env.cluster env.uuids keyspace c.app_id b.device.ifa
          b.device.ifa_tracking_enabled w in
      let (id, e, made, text', small) = id_for-hyphenated chance random got.0 (
        get_id_for_ifa-some env.cluster env.uuids keyspace lawful.holds c.app_id b.device.ifa
          b.device.ifa_tracking_enabled w) in
      let (id', made', text'') = id_for-some chance' random' e small in
      let (stored, again) =
        get_id_for_ifa-put_id_for_ifa env.cluster env.uuids keyspace lawful.available lawful.keeps
          lawful.uuids c.app_id e b.device.ifa b.device.ifa_tracking_enabled got.1 a i small app
          parsed in
      let first = match_device_lem chance c b w id made in
      let cleartext : id.cleartext ≡ record { value = env.uuids.hyphenated e } = ap written text' in
      let w' = (match_device env chance c b w).1 in
      let refound : (get_id_for_ifa env.cluster env.uuids keyspace c'.app_id b'.device.ifa
            b'.device.ifa_tracking_enabled w').0
          ≡ some (env.uuids.hyphenated e) =
        rw (same_app, same_ifa, same_tracking, first, cleartext) again in
      let found_again = ap (id_for env chance') refound ∙ made' in
      (
        id,
        id',
        ap (λ p. p.0) first,
        ap (λ p. p.0) (match_device_lem chance' c' b' w' id' found_again),
        ap written (text'' ∙ sym text'),
      )
