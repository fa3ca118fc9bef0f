-- ===== src/Process/Registry.antt =====
-- The static `APP_REGISTRY` of src/main.rs: `AppRegistry::new` of src/app_registry.rs as a whole.
use xorc_gateway.Base.{
  true, false, ◌≡◌, ◌∙◌, ap, refl, Bool-cases, some, List, [], ◌∷◌, if◌then◌else◌, Outcome,
  returned, panicked, and_then, arith, Outcome-cases, inl, inr,
}
use xorc_gateway.AppRegistry.{AppRegistry}
use xorc_gateway.AppRegistry.Updates.{update_apps, new_registry, select_apps}
use xorc_gateway.AppRegistry.Failures.{update_apps-frame}
use xorc_gateway.AppRegistry.Reloads.{update_apps-after_reload}
use xorc_gateway.Cluster.{Cluster, Row}
use xorc_gateway.Cluster.Selects.{HonoursSelect}
use xorc_gateway.Config.{Config}
use xorc_gateway.Crates.{Hex, Uuids}
use xorc_gateway.Process.Connections.{Driver, new_pool}
use xorc_gateway.Results.{ok}
use xorc_gateway.World.{World}

module _ (C : Cluster) (driver : Driver) (hex : Hex) (uuids : Uuids) (config : Config) where
  -- `registry.update_apps().unwrap()` and the registry after it.
  unfoldable pub first_update : World C → Outcome (World C)
  unfolding update_apps
  first_update w =
      let (result, w') = update_apps C hex uuids config.cassandra.keyspace w in
      elim result [ returned (ok _) ↦ returned w' | _ ↦ panicked ]

  -- The registry before its first update: a pool of one connection, and no applications.
  abbrev pub empty_registry : AppRegistry
  empty_registry = record {
    allow_empty_signature = config.gateway.allow_empty_signature;
    apps = [];
    has_pool = true;
  }

  -- `AppRegistry::new`, for the rest of the state, whose registry is not read.
  unfoldable pub start_registry : World C → Outcome (World C)
  unfolding new_pool first_update new_registry
  start_registry w =
      if config.cassandra.manage_apps
      then and_then (new_pool driver 1 config.cassandra.contact_points)
          (λ pool. first_update (record w { registry = empty_registry }))
      else (let (made, metrics) = new_registry hex config w.metrics in
          and_then made
            (λ registry. returned (record w { registry = registry; metrics = metrics })))

  -- Where the cluster manages the applications, answers with at least one row, and its rows have no
  -- column but those that are selected, the registry does not start: the column `app_id` that is read
  -- of the first row is not among them.
  pub start_registry_managed :
      (w : World C) (row : Row) (rows : List Row)
      → HonoursSelect C
      → config.cassandra.manage_apps ≡ true
      → Cluster.connects C w.cluster ≡ true
      → (Cluster.query C
          (record { statement = select_apps config.cassandra.keyspace; values = [] })
          w.cluster).0
        ≡ some (record { body = some (some (row ∷ rows)) })
      → start_registry w ≡ panicked
  unfolding start_registry
  start_registry_managed w row rows honours managed connected answer =
      let w0 : World C = record w { registry = empty_registry } in
      let stops : (update_apps C hex uuids config.cassandra.keyspace w0).0 ≡ panicked =
        ap (λ p. p.0) (update_apps-after_reload C honours hex uuids config.cassandra.keyspace w0)
        ∙ rw (connected, answer) refl in
      elim (Outcome-cases (new_pool driver 1 config.cassandra.contact_points)) [
        | inl none' ↦ rw (start_registry, managed, none') refl
        | inr (pool, made) ↦ rw (start_registry, managed, made, first_update, stops) refl
      ]

  new_registry-allow_empty_signature :
      (w : World C) (r : AppRegistry)
      → (new_registry hex config w.metrics).0 ≡ returned r
      → r.allow_empty_signature ≡ config.gateway.allow_empty_signature
  unfolding new_registry
  new_registry-allow_empty_signature w r e = ground arith

  first_update-allow_empty_signature :
      (w w' : World C)
      → first_update w ≡ returned w'
      → w'.registry.allow_empty_signature ≡ w.registry.allow_empty_signature
  unfolding first_update
  first_update-allow_empty_signature w w' e =
      ground (arith, (update_apps-frame C hex uuids config.cassandra.keyspace w).0)

  pub unmanaged_lem :
      (w : World C)
      → config.cassandra.manage_apps ≡ false
      → start_registry w
        ≡ and_then (new_registry hex config w.metrics).0 (λ registry.
          returned
            (record w { registry = registry; metrics = (new_registry hex config w.metrics).1 }))
  unfolding start_registry
  unmanaged_lem w h = rw (start_registry, h) refl

  managed_lem :
      (w : World C)
      → config.cassandra.manage_apps ≡ true
      → start_registry w
        ≡ and_then
            (new_pool driver 1 config.cassandra.contact_points)
            (λ pool. first_update (record w { registry = empty_registry }))
  unfolding start_registry
  managed_lem w h = rw (start_registry, h) refl

  -- The registry allows empty signatures exactly where the configuration does.
  pub start_registry-allow_empty_signature :
      (w w' : World C)
      → start_registry w ≡ returned w'
      → w'.registry.allow_empty_signature ≡ config.gateway.allow_empty_signature
  start_registry-allow_empty_signature w w' e = elim (Bool-cases config.cassandra.manage_apps) [
    | inl managed ↦ elim (Outcome-cases (new_pool driver 1 config.cassandra.contact_points)) [
      | inl stops ↦ ground (arith, managed_lem w managed)
      | inr (pool, made) ↦
          first_update-allow_empty_signature (record w { registry = empty_registry }) w'
            (ground (arith, managed_lem w managed))
    ]
    | inr unmanaged ↦ elim (Outcome-cases (new_registry hex config w.metrics).0) [
      | inl stops ↦ ground (arith, unmanaged_lem w unmanaged)
      | inr (r, made) ↦
          ground (arith, unmanaged_lem w unmanaged, new_registry-allow_empty_signature w r made)
    ]
  ]
