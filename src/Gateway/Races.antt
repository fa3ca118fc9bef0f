-- ===== src/Gateway/Races.antt =====
-- Registrations that run at the same time, src/gateway.rs: each is a blocking call that looks the
-- device up and then stores its id, and the steps of several calls may come in any order.
pub mod Ids
pub mod Schedules
use xorc_gateway.Base.{
  ℕ, ◌≡◌, Option, none, some, Text, Outcome, returned, panicked, ◌==◌, ℕ_eq, if◌then◌else◌,
}
use xorc_gateway.Context.{Context, DeviceId}
use xorc_gateway.Events.Batch.{SdkEventBatch}
use xorc_gateway.Gateway.{Env, Chance, id_for}
use xorc_gateway.IfaMatching.{get_id_for_ifa, put_id_for_ifa}
use xorc_gateway.World.{World}

-- What one call is started with.
pub record Job : Type 0 where
  pub chance : Chance
  pub context : Context
  pub batch : SdkEventBatch

-- Before the lookup, after it, at the end with the id of the device, and after a panic.
pub data Phase : Type 0 where
  waiting : Phase
  looked : Option Text → Phase
  holding : DeviceId → Phase
  stopped : Phase

pub record Calls (env : Env) : Type 0 where
  pub world : World env.cluster
  pub phase : ℕ → Phase

abbrev pub update : (ℕ → Phase) → ℕ → Phase → ℕ → Phase
update f i p j = if j == i then p else f j

module _ (env : Env) (job : ℕ → Job) where
  -- The lookup and the storing of one call.
  unfoldable pub look : ℕ → World env.cluster → Option Text × World env.cluster
  look i w =
      let call = job i in
      get_id_for_ifa env.cluster env.uuids env.config.cassandra.keyspace call.context.app_id
        call.batch.device.ifa call.batch.device.ifa_tracking_enabled w

  unfoldable pub store : ℕ → DeviceId → World env.cluster → World env.cluster
  store i id w =
      let call = job i in
      (put_id_for_ifa env.cluster env.uuids env.config.cassandra.keyspace call.context.app_id
        id.cleartext call.batch.device.ifa call.batch.device.ifa_tracking_enabled w).1

  pub data Step (s : Calls env) : Calls env → Type 0 where
    looks :
        (i : ℕ)
        → s.phase i ≡ waiting
        → Step s (record {
          world = (look i s.world).1;
          phase = update s.phase i (looked (look i s.world).0);
        })
    stores :
        (i : ℕ) (found : Option Text) (id : DeviceId)
        → s.phase i ≡ looked found
        → id_for env (job i).chance found ≡ returned id
        → Step s (record { world = store i id s.world; phase = update s.phase i (holding id) })
    panics :
        (i : ℕ) (found : Option Text)
        → s.phase i ≡ looked found
        → id_for env (job i).chance found ≡ panicked
        → Step s (record { world = s.world; phase = update s.phase i stopped })

  abbrev pub init : World env.cluster → Calls env
  init w = record { world = w; phase = λ i. waiting }

  pub data Reach (start : Calls env) : Calls env → Type 0 where
    here : Reach start start
    later : {s t : Calls env} → Reach start s → Step s t → Reach start t
