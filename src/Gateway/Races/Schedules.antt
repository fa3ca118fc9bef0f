-- ===== src/Gateway/Races/Schedules.antt =====
-- Which ids devices get from registrations of src/gateway.rs that run at the same time.
use mathlib.Core.Option.{some-injective}
use xorc_gateway.Base.{
  ℕ, ◌<◌, ◌^◌, ◌≡◌, ◌≢◌, ◌∙◌, refl, ap, sym, some, none, returned, panicked, arith, ℕ_discrete,
  Outcome-cases, ℕ_eq, inl, inr,
}
use xorc_gateway.Context.{DeviceId}
use xorc_gateway.Gateway.{Env, id_for, match_device}
use xorc_gateway.Gateway.Devices.{IsChance, IsLawful, id_for-none, written}
use xorc_gateway.Gateway.Races.{
  Job, waiting, looked, holding, Calls, update, look, store, looks, stores, init, Reach, here,
  later,
}
use xorc_gateway.IfaMatching.{parse_ifa}
use xorc_gateway.IfaMatching.Lookup.{get_id_for_ifa-put_id_for_ifa}
use xorc_gateway.World.{World}
use xorc_gateway.Gateway.Races.Ids.{update-same}

match_device_stops :
    (env : Env) (job : ℕ → Job) (w : World env.cluster) (i : ℕ)
    → id_for env (job i).chance (look env job i w).0 ≡ panicked
    → (match_device env (job i).chance (job i).context (job i).batch w).0 ≡ panicked
unfolding match_device look
match_device_stops env job w i stops = rw (match_device, stops) refl

match_device_made :
    (env : Env) (job : ℕ → Job) (w : World env.cluster) (i : ℕ) (id : DeviceId)
    → id_for env (job i).chance (look env job i w).0 ≡ returned id
    → match_device env (job i).chance (job i).context (job i).batch w
      ≡ (returned id, store env job i id (look env job i w).1)
unfolding match_device look store
match_device_made env job w i id made = rw (match_device, made) refl

-- A call that is not disturbed does what `match_device` does.
pub Reach-match_device :
    (env : Env) (job : ℕ → Job) (w : World env.cluster) (i : ℕ) (id : DeviceId)
    → (match_device env (job i).chance (job i).context (job i).batch w).0 ≡ returned id
    → (s : Calls env) × Reach env job (init env job w) s
      × (s.phase i ≡ holding id)
      × (s.world ≡ (match_device env (job i).chance (job i).context (job i).batch w).1)
Reach-match_device env job w i id made =
    let call = job i in
    let found = (look env job i w).0 in
    let w' = (look env job i w).1 in
    elim (Outcome-cases (id_for env call.chance found)) [
      | inl stops ↦ ground (arith, match_device_stops env job w i stops)
      | inr (id', is_made) ↦
          let same = match_device_made env job w i id' is_made in
          let equal : id' ≡ id = ground (arith, same) in
          (
            record { world = store env job i id' w'; phase = _ },
            later (later here (looks i refl))
                (stores i found id' (update-same (λ j. waiting) i (looked found)) is_made),
            update-same (update (λ j. waiting) i (looked found)) i (holding id') ∙ ap holding equal,
            sym (ap (λ p. p.1) same),
          )
    ]

hyphenated-ne :
    (env : Env)
    → IsLawful env
    → (a b : ℕ) → a < 2 ^ 128
    → b < 2 ^ 128
    → a ≢ b
    → env.uuids.hyphenated a ≢ env.uuids.hyphenated b
hyphenated-ne env lawful a b small small' ne same = ne (
    some-injective a b (
      sym (lawful.uuids.parse_str-hyphenated a small)
      ∙ (ap env.uuids.parse_str same ∙ lawful.uuids.parse_str-hyphenated b small')))

look-store :
    (env : Env)
    → IsLawful env
    → (job : ℕ → Job) (i : ℕ) (id : DeviceId) (e : ℕ) (w : World env.cluster) (a k : ℕ)
    → e < 2 ^ 128
    → id.cleartext.value ≡ env.uuids.hyphenated e
    → env.uuids.parse_str (job i).context.app_id ≡ some a
    → parse_ifa env.uuids (job i).batch.device.ifa (job i).batch.device.ifa_tracking_enabled
      ≡ some k
    → (look env job i (store env job i id w)).0 ≡ some id.cleartext.value
unfolding look store
look-store env lawful job i id e w a k small same app parsed =
    let cleartext : id.cleartext ≡ written (env.uuids.hyphenated e) = ap written same in
    let (stored, again) =
      get_id_for_ifa-put_id_for_ifa env.cluster env.uuids env.config.cassandra.keyspace
        lawful.available lawful.keeps lawful.uuids (job i).context.app_id e (job i).batch.device.ifa
        (job i).batch.device.ifa_tracking_enabled w a k small app parsed in
    rw cleartext again

-- Under the laws of the crates and of the cluster: two calls for a device that nobody knows, which
-- draw different UUIDs, can both look it up before one of them stores its id. Then they end with
-- different ids, and the device is known by the one that was stored last.
pub Reach-differ :
    (env : Env)
    → IsLawful env
    → (job : ℕ → Job) → ((i : ℕ) → IsChance (job i).chance)
    → (w : World env.cluster) → (look env job 0 w).0 ≡ none
    → (look env job 1 (look env job 0 w).1).0 ≡ none
    → (job 0).chance.new_v4 ≢ (job 1).chance.new_v4
    → (a i : ℕ) → env.uuids.parse_str (job 1).context.app_id ≡ some a
    → parse_ifa env.uuids (job 1).batch.device.ifa (job 1).batch.device.ifa_tracking_enabled
      ≡ some i
    → (s : Calls env) × (id id' : DeviceId) × Reach env job (init env job w) s
      × (s.phase 0 ≡ holding id)
      × (s.phase 1 ≡ holding id')
      × (id.cleartext ≢ id'.cleartext)
      × ((look env job 1 s.world).0 ≡ some id'.cleartext.value)
unfolding look store ℕ_eq ℕ_discrete
Reach-differ env lawful job random w unknown unknown' ne a i app parsed =
    let (id, made, text') = id_for-none env lawful (job 0).chance (random 0) in
    let (id', made', text'') = id_for-none env lawful (job 1).chance (random 1) in
    let w2 = (look env job 1 (look env job 0 w).1).1 in
    let f1 = update (λ j. waiting) 0 (looked (look env job 0 w).0) in
    let f2 = update f1 1 (looked (look env job 1 (look env job 0 w).1).0) in
    let f3 = update f2 0 (holding id) in
    (
      record {
        world = store env job 1 id' (store env job 0 id w2);
        phase = update f3 1 (holding id');
      },
      id,
      id',
      later
          (later (later (later here (looks 0 refl)) (looks 1 refl))
            (stores 0 none id (ap looked unknown) made))
          (stores 1 none id' (ap looked unknown') made'),
      refl,
      refl,
      λ e.
          hyphenated-ne env lawful (job 0).chance.new_v4 (job 1).chance.new_v4 (random 0).uuid
            (random 1).uuid ne (sym text' ∙ (ap (λ c. c.value) e ∙ text'')),
      look-store env lawful job 1 id' (job 1).chance.new_v4 (store env job 0 id w2) a i
          (random 1).uuid text'' app parsed,
    )
