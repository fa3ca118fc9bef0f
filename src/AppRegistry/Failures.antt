-- ===== src/AppRegistry/Failures.antt =====
-- How src/app_registry.rs reloads the applications where something fails.
use xorc_gateway.Base.{
  Bool, true, false, ◌≡◌, ◌≢◌, ◌∙◌, some, none, List, [], ◌∷◌, Text, text, arith, returned,
  panicked, inl, inr, All, Outcome-cases,
}
use xorc_gateway.AppRegistry.Updates.{read_row, load_rows, update_apps, run_updater, select_apps}
use xorc_gateway.Cluster.{Cluster, Row}
use xorc_gateway.Crates.{Hex, Uuids}
use xorc_gateway.Metrics.{Metrics}
use xorc_gateway.Results.{ok}
use xorc_gateway.World.{World}

pub load_rows_missing :
    (hex : Hex) (uuids : Uuids) (row : Row) (rows : List Row) (m : Metrics)
    → row.uuid_by_name (text "app_id") ≡ none
    → (load_rows hex uuids (row ∷ rows) [] m).0 ≡ panicked
unfolding load_rows
load_rows_missing hex uuids row rows m missing = rw (load_rows, read_row, missing)

module _ (C : Cluster) (hex : Hex) (uuids : Uuids) (keyspace : Text) where
  -- A reload that fails, by an error or by a panic, leaves the applications as they are.
  pub update_apps_failed :
      (w : World C)
      → (update_apps C hex uuids keyspace w).0 ≢ returned (ok tt)
      → (update_apps C hex uuids keyspace w).1.registry ≡ w.registry
  unfolding update_apps
  update_apps_failed w h = ground arith

  -- A reload changes nothing of the registry but the applications, and nothing of the reports.
  pub update_apps-frame :
      (w : World C)
      → ((update_apps C hex uuids keyspace w).1.registry.allow_empty_signature
          ≡ w.registry.allow_empty_signature)
        × ((update_apps C hex uuids keyspace w).1.sent ≡ w.sent)
  unfolding update_apps
  update_apps-frame w = ground arith

  -- Where the cluster answers with rows of which the first has no column `app_id`, which the
  -- statement does not select, the reload panics.
  pub update_apps_without_app_id :
      (w : World C) (row : Row) (rows : List Row)
      → w.registry.has_pool ≡ true
      → Cluster.connects C w.cluster ≡ true
      → (Cluster.query C (record { statement = select_apps keyspace; values = [] }) w.cluster).0
        ≡ some (record { body = some (some (row ∷ rows)) })
      → row.uuid_by_name (text "app_id") ≡ none
      → (update_apps C hex uuids keyspace w).0 ≡ panicked
  unfolding update_apps
  update_apps_without_app_id w row rows pool connected answer missing =
      ground (arith, load_rows_missing hex uuids row rows w.metrics missing)

  -- The thread that reloads the applications never changes whether empty signatures are allowed, if
  -- the other threads do not.
  pub run_updater-allow_empty_signature :
      (allowed : Bool) (rounds : List (Bool × (World C → World C)))
      → All
          (λ r.
            (w : World C)
            → w.registry.allow_empty_signature ≡ allowed
            → (r.1 w).registry.allow_empty_signature ≡ allowed)
          rounds
      → (w : World C) → w.registry.allow_empty_signature ≡ allowed
      → (run_updater C hex uuids keyspace rounds w).1.registry.allow_empty_signature ≡ allowed
  unfolding run_updater
  run_updater-allow_empty_signature allowed [] keep w h = h
  run_updater-allow_empty_signature allowed ((false, others) ∷ rounds) keep w h = h
  run_updater-allow_empty_signature allowed ((true, others) ∷ rounds) (k, keep) w h =
      let w' = (update_apps C hex uuids keyspace w).1 in
      let kept = k w' ((update_apps-frame w).0 ∙ h) in
      elim (Outcome-cases (update_apps C hex uuids keyspace w).0) [
        | inl stops ↦ rw (run_updater, stops) ((update_apps-frame w).0 ∙ h)
        | inr (r, went) ↦
            rw (run_updater, went)
              (run_updater-allow_empty_signature allowed rounds keep (others w') kept)
      ]
