-- ===== src/Tests/AppRegistry.antt =====
-- src/app_registry.rs on small inputs.
use mathlib.Core.Path.{subst}
use xorc_gateway.Base.{
  All, Option, if◌then◌else◌, text_eq, ◌≡◌, ◌↔◌, refl, ◌∷◌, [], List, arith, Text, text, Bool, true,
  false, returned, panicked, some, none, map_option,
}
use xorc_gateway.Base.Dict.{lookup}
use xorc_gateway.AppRegistry.{AppRegistry, validate}
use xorc_gateway.AppRegistry.Failures.{
  update_apps_failed, update_apps_without_app_id, run_updater-allow_empty_signature,
}
use xorc_gateway.AppRegistry.Loads.{app_of, last_with, lookup-new_registry}
use xorc_gateway.AppRegistry.Reloads.{after_reload, update_apps-after_reload}
use xorc_gateway.AppRegistry.Updates.{select_apps, update_apps, run_updater, new_registry}
use xorc_gateway.AppRegistry.Validation.{
  IsAccepted, Rejects, validate-eq-ok_iff, validate-eq-err_iff,
}
use xorc_gateway.Cluster.{Cluster, Row, Frame}
use xorc_gateway.Config.{Config}
use xorc_gateway.Cluster.Selects.{HonoursSelect, Lacks, may_answer}
use xorc_gateway.Process.Connections.{Driver}
use xorc_gateway.Process.Registry.{start_registry, start_registry_managed}
use xorc_gateway.Config.{TestAppConfig}
use xorc_gateway.Crates.Samples.{plain_base64, plain_hmac, plain_hex, plain_uuids}
use xorc_gateway.Error.{missing_signature}
use xorc_gateway.Metrics.{no_metrics}
use xorc_gateway.Results.{ok, err}
use xorc_gateway.Samples.Requests.{registry, config, plain_batch, context_for}
use xorc_gateway.World.{World, connection_aborted}

validate-eq-ok_iff_example :
    (validate plain_base64 plain_hmac
        (text "default")
        registry
        plain_batch
        (context_for (text "plain"))
        (text "plain")
      ≡ ok tt)
    ↔ IsAccepted plain_base64 plain_hmac
        (text "default")
        registry
        plain_batch
        (context_for (text "plain"))
        (text "plain")
validate-eq-ok_iff_example =
    validate-eq-ok_iff plain_base64 plain_hmac (text "default") registry plain_batch
      (context_for (text "plain")) (text "plain")

validate-eq-err_iff_example :
    (validate plain_base64 plain_hmac
        (text "default")
        registry
        plain_batch
        (context_for (text "other"))
        (text "plain")
      ≡ err missing_signature)
    ↔ Rejects plain_base64 plain_hmac
        (text "default")
        registry
        plain_batch
        (context_for (text "other"))
        (text "plain")
        missing_signature
validate-eq-err_iff_example =
    validate-eq-err_iff plain_base64 plain_hmac (text "default") registry plain_batch
      (context_for (text "other")) (text "plain") missing_signature

abbrev test_apps : List TestAppConfig
test_apps = elim config.test_apps [ none ↦ [] | some apps ↦ apps ]

lookup-new_registry_sample :
    (r : AppRegistry) × ((new_registry plain_hex config no_metrics).0 ≡ returned r)
    × ((k : Text)
        → lookup k r.apps ≡ map_option (app_of plain_hex) (last_with (λ t. t.app_id) k test_apps))
    × (r.allow_empty_signature ≡ false)
    × ((new_registry plain_hex config no_metrics).1.app_updates ≡ 1)
lookup-new_registry_sample = lookup-new_registry plain_hex config test_apps no_metrics refl

-- A cluster that takes connections or not, and answers every query with the same rows.
abbrev cluster_of : Bool → List Row → Cluster
cluster_of up rows = record {
  State = Unit;
  connects = λ s. up;
  query = λ q s. (some (record { body = some (some rows) }), s);
}

-- A row with the columns that the statement selects.
abbrev selected : Row
selected = record { uuid_by_name = λ name. none; text_by_name = λ name. some (some (text "x")) }

abbrev world_of : (C : Cluster) → Cluster.State C → World C
world_of C s = record { registry = registry; metrics = no_metrics; cluster = s; sent = [] }

abbrev down : World (cluster_of false [])
down = world_of (cluster_of false []) tt

aborts :
    (update_apps (cluster_of false []) plain_hex plain_uuids (text "ks") down).0
    ≡ returned (err connection_aborted)
unfolding update_apps
aborts = refl

update_apps_failed_sample :
    (update_apps (cluster_of false []) plain_hex plain_uuids (text "ks") down).1.registry ≡ registry
update_apps_failed_sample =
    update_apps_failed (cluster_of false []) plain_hex plain_uuids (text "ks") down
      (λ e. ground (arith, aborts))

abbrev up : World (cluster_of true (selected ∷ []))
up = world_of (cluster_of true (selected ∷ [])) tt

update_apps_without_app_id_sample :
    (update_apps (cluster_of true (selected ∷ [])) plain_hex plain_uuids (text "ks") up).0
    ≡ panicked
update_apps_without_app_id_sample =
    update_apps_without_app_id (cluster_of true (selected ∷ [])) plain_hex plain_uuids (text "ks")
      up selected [] refl refl refl refl

run_updater-allow_empty_signature_sample :
    (run_updater
      (cluster_of false [])
      plain_hex
      plain_uuids
      (text "ks")
      ((true, λ w. w) ∷ (false, λ w. w) ∷ [])
      down).1.registry.allow_empty_signature
    ≡ false
run_updater-allow_empty_signature_sample =
    run_updater-allow_empty_signature (cluster_of false []) plain_hex plain_uuids (text "ks") false
      ((true, λ w. w) ∷ (false, λ w. w) ∷ []) (λ w h. h, (λ w h. h, tt)) down refl

-- A driver to which every address is a transport, and any pool can be built.
abbrev driver : Driver
driver = record { Transport = Text; connect = λ addr. some addr; build = λ size cluster. true }

-- A cluster whose rows have the columns that may be answered.
abbrev row_for : Text → Row
row_for statement = record {
  uuid_by_name = λ name. if may_answer statement name then some 7 else none;
  text_by_name = λ name. if may_answer statement name then some (some (text "x")) else none;
}

abbrev table : Cluster
table = record {
  State = Unit;
  connects = λ s. true;
  query = λ q s. (some (record { body = some (some (row_for q.statement ∷ [])) }), s);
}

table-HonoursSelect : HonoursSelect table
table-HonoursSelect = record {
  selects = λ q s rows name answer lacks.
      subst (All (Lacks name)) (rows_of answer) ((rw lacks refl, rw lacks refl), tt);
}
  where
    rows_of :
        {xs ys : List Row}
        → ◌≡◌ {A = Option Frame}
            (some (record { body = some (some xs) }))
            (some (record { body = some (some ys) }))
        → xs ≡ ys
    rows_of e = cc

update_apps-after_reload_example :
    (
      (update_apps table plain_hex plain_uuids (text "ks") (world_of table tt)).0,
      (update_apps table plain_hex plain_uuids (text "ks") (world_of table tt)).1.registry,
    )
    ≡ after_reload registry.has_pool true
        (some (record { body = some (some (row_for (select_apps (text "ks")) ∷ [])) }))
        registry
update_apps-after_reload_example =
    update_apps-after_reload table table-HonoursSelect plain_hex plain_uuids (text "ks")
      (world_of table tt)

abbrev managed : Config
managed = record config { cassandra = record config.cassandra { manage_apps = true } }

start_registry_managed_example :
    start_registry table driver plain_hex plain_uuids managed (world_of table tt) ≡ panicked
start_registry_managed_example =
    start_registry_managed table driver plain_hex plain_uuids managed (world_of table tt)
      (row_for (select_apps (text "ks"))) [] table-HonoursSelect refl refl refl
