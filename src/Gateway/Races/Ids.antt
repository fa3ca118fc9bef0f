-- ===== src/Gateway/Races/Ids.antt =====
-- What registrations of src/gateway.rs that run at the same time know of the ids of devices.
use mathlib.Core.Path.{subst}
use xorc_gateway.Base.{
  ℕ, ◌<◌, ◌^◌, ◌≡◌, ◌≢◌, ◌∙◌, refl, ap, some, none, Option, Text, returned, arith, eq_refl,
  Bool-cases, ℕ_eq, ◌==◌, inl, inr,
}
use xorc_gateway.Context.{DeviceId}
use xorc_gateway.Gateway.{Env, id_for}
use xorc_gateway.Gateway.Devices.{IsChance, IsLawful, id_for-hyphenated}
use xorc_gateway.Gateway.Races.{
  Job, Phase, waiting, looked, holding, stopped, Calls, update, look, Step, looks, stores, panics,
  init, Reach, here, later,
}
use xorc_gateway.IfaMatching.Answers.{get_id_for_ifa-some}
use xorc_gateway.World.{World}

-- The text is a UUID.
abbrev pub IsUuid : Env → Text → Type 0
IsUuid env t = (e : ℕ) × (e < 2 ^ 128) × (t ≡ env.uuids.hyphenated e)

-- What a call knows is a UUID, and it has not panicked.
abbrev pub IsSound : Env → Phase → Type 0
IsSound env waiting = Unit
IsSound env (looked none) = Unit
IsSound env (looked (some t)) = IsUuid env t
IsSound env (holding id) = IsUuid env id.cleartext.value
IsSound env stopped = ⊥

update-IsSound :
    (env : Env) (f : ℕ → Phase) (i : ℕ) (p : Phase)
    → ((j : ℕ) → IsSound env (f j))
    → IsSound env p
    → (j : ℕ) → IsSound env (update f i p j)
update-IsSound env f i p each h j = elim (Bool-cases (j == i)) [
  | inl same ↦ rw same h
  | inr differ ↦ rw differ (each j)
]

pub update-same : (f : ℕ → Phase) (i : ℕ) (p : Phase) → update f i p i ≡ p
update-same f i p = rw (eq_refl i) refl

update-other : (f : ℕ → Phase) (i j : ℕ) (p : Phase) → j ≢ i → update f i p j ≡ f j
update-other f i j p ne = ground arith

-- The next step of a call, by its phase.
abbrev pub GoesOn : (env : Env) → (ℕ → Job) → Calls env → ℕ → Phase → Type 0
GoesOn env job s i waiting =
    (t : Calls env) × Step env job s t × (found : Option Text) × (t.phase i ≡ looked found)
GoesOn env job s i (looked found) =
    (t : Calls env) × Step env job s t × (id : DeviceId) × (t.phase i ≡ holding id)
GoesOn env job s i (holding id) = Unit
GoesOn env job s i stopped = ⊥

known :
    (env : Env) (found : Option Text)
    → IsSound env (looked found)
    → (t : Text) → found ≡ some t
    → (e : ℕ) × (e < 2 ^ 128) × (t ≡ env.uuids.hyphenated e)
known env none h t e = ground arith
known env (some s) (e, small, same) t eq = (e, small, ground arith)

known→IsSound :
    (env : Env) (found : Option Text)
    → ((t : Text) → found ≡ some t → (e : ℕ) × (e < 2 ^ 128) × (t ≡ env.uuids.hyphenated e))
    → IsSound env (looked found)
known→IsSound env none h = tt
known→IsSound env (some t) h = h t refl

module _ (env : Env) (lawful : IsLawful env) (job : ℕ → Job)
    (random : (i : ℕ) → IsChance (job i).chance) where
  look-IsSound : (i : ℕ) (w : World env.cluster) → IsSound env (looked (look env job i w).0)
  unfolding look
  look-IsSound i w = known→IsSound env _ λ t e.
      get_id_for_ifa-some env.cluster env.uuids env.config.cassandra.keyspace lawful.holds
        (job i).context.app_id (job i).batch.device.ifa (job i).batch.device.ifa_tracking_enabled w
        t e

  makes_id :
      (i : ℕ) (found : Option Text)
      → IsSound env (looked found)
      → (id : DeviceId) × (id_for env (job i).chance found ≡ returned id)
  makes_id i found sound =
      let (id, e, made, same, small) =
        id_for-hyphenated env lawful (job i).chance (random i) found (known env found sound) in
      (id, made)

  made_id :
      (i : ℕ) (found : Option Text) (id : DeviceId)
      → IsSound env (looked found)
      → id_for env (job i).chance found ≡ returned id
      → IsUuid env id.cleartext.value
  made_id i found id sound is_made =
      let (id', e, made, same, small) =
        id_for-hyphenated env lawful (job i).chance (random i) found (known env found sound) in
      let equal : id ≡ id' = ground (arith, made) in
      (e, small, ap (λ d. d.cleartext.value) equal ∙ same)

  next : (s : Calls env) (i : ℕ) (p : Phase) → s.phase i ≡ p → IsSound env p → GoesOn env job s i p
  next s i waiting at sound = (_, looks i at, _, update-same s.phase i _)
  next s i (looked found) at sound =
      let (id, made) = makes_id i found sound in
      (_, stores i found id at made, id, update-same s.phase i _)
  next s i (holding id) at sound = tt
  next s i stopped at sound = absurd sound

  Step-IsSound :
      {s t : Calls env}
      → Step env job s t
      → ((j : ℕ) → IsSound env (s.phase j))
      → (j : ℕ) → IsSound env (t.phase j)
  Step-IsSound {s} (looks i at) each = update-IsSound env s.phase i _ each (look-IsSound i s.world)
  Step-IsSound {s} (stores i found id at made) each =
      update-IsSound env s.phase i _ each
        (made_id i found id (subst (IsSound env) at (each i)) made)
  Step-IsSound {s} (panics i found at stops) each =
      let (id, made) = makes_id i found (subst (IsSound env) at (each i)) in ground (arith, made)

  Reach-IsSound :
      {s t : Calls env}
      → Reach env job s t
      → ((j : ℕ) → IsSound env (s.phase j))
      → (j : ℕ) → IsSound env (t.phase j)
  Reach-IsSound here each = each
  Reach-IsSound (later run s) each = Step-IsSound s (Reach-IsSound run each)

  -- Under the laws of the crates and of the cluster, whatever the order in which the calls take their
  -- steps: no call panics, every id that a call has found or given is a UUID, a call that waits can
  -- look its device up, and a call that has looked can store an id and end with it.
  pub Reach-GoesOn :
      (w : World env.cluster) (s : Calls env) (i : ℕ)
      → Reach env job (init env job w) s
      → IsSound env (s.phase i) × GoesOn env job s i (s.phase i)
  Reach-GoesOn w s i run =
      let sound = Reach-IsSound run (λ j. tt) i in (sound, next s i (s.phase i) refl sound)
