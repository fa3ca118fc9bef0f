-- ===== src/AppRegistry/Updates.antt =====
-- The rest of src/app_registry.rs: loading the applications, from the configuration or from the
-- cluster, and the thread that reloads them.
use xorc_gateway.Base.{
  ℕ, Bool, true, false, Option, none, some, List, [], ◌∷◌, ◌++◌, Text, text, if◌then◌else◌, Outcome,
  text_eq, returned, panicked, and_then, unwrap,
}
use xorc_gateway.Base.Dict.{Dict, insert}
use xorc_gateway.AppRegistry.{Application, AppRegistry, create_app, load_test_apps}
use xorc_gateway.Cluster.{Cluster, Row, Frame}
use xorc_gateway.Config.{Config}
use xorc_gateway.Crates.{Hex, Uuids}
use xorc_gateway.Metrics.{Metrics}
use xorc_gateway.Results.{Result, ok, err}
use xorc_gateway.World.{World, Run, IoError, connection_aborted}

-- The columns of a row, each unwrapped.
pub record AppRow : Type 0 where
  pub id : ℕ
  pub sdk_token : Option Text
  pub ios_secret : Option Text
  pub web_secret : Option Text
  pub android_secret : Option Text

unfoldable pub read_row : Row → Outcome AppRow
read_row row = and_then (unwrap (row.uuid_by_name (text "app_id"))) λ id.
    and_then (unwrap (row.text_by_name (text "sdk_token"))) λ sdk_token.
      and_then (unwrap (row.text_by_name (text "ios_api_secret"))) λ ios_secret.
        and_then (unwrap (row.text_by_name (text "web_api_secret"))) λ web_secret.
          and_then (unwrap (row.text_by_name (text "android_api_secret"))) λ android_secret.
            returned (record {
              id = id;
              sdk_token = sdk_token;
              ios_secret = ios_secret;
              web_secret = web_secret;
              android_secret = android_secret;
            })

-- The `fold` over the rows, with the counter of `create_app`.
unfoldable pub load_rows :
    Hex
    → Uuids
    → List Row
    → Dict Text Application
    → Metrics
    → Outcome (Dict Text Application) × Metrics
unfolding read_row create_app insert
load_rows hex uuids [] acc m = (returned acc, m)
load_rows hex uuids (row ∷ rows) acc m = elim (read_row row) [
  | panicked ↦ (panicked, m)
  | returned r ↦
      let id_string = uuids.hyphenated r.id in
      let (app, m') =
        create_app hex id_string r.sdk_token r.ios_secret r.android_secret r.web_secret m in
      load_rows hex uuids rows (insert id_string app acc) m'
]

-- The statement names the columns that a row of its answer has.
unfoldable pub select_apps : Text → Text
select_apps keyspace =
    text "SELECT id, sdk_token, ios_api_secret, android_api_secret, web_api_secret FROM "
    ++ (keyspace ++ text ".applications")

module _ (C : Cluster) where
  -- `AppRegistry::swap_apps`
  unfoldable pub swap_apps : Dict Text Application → World C → World C
  swap_apps apps w = record w { registry = record w.registry { apps = apps } }

  module _ (hex : Hex) (uuids : Uuids) (keyspace : Text) where
    store_rows : List Row → Run C (Result IoError (Unit {0}))
    unfolding load_rows swap_apps
    store_rows rows w =
        let (loaded, metrics) = load_rows hex uuids rows [] w.metrics in
        let w' : World C = record w { metrics = metrics } in
        elim loaded [
          | panicked ↦ (panicked, w')
          | returned apps ↦ (returned (ok tt), swap_apps apps w')
        ]

    store_answer : Option Frame → Run C (Result IoError (Unit {0}))
    unfolding store_rows
    store_answer none w = (returned (err connection_aborted), w)
    store_answer (some frame) w = elim frame.body [
      | some (some rows) ↦ store_rows rows w
      | _ ↦ (returned (ok tt), swap_apps [] w)
    ]

    -- `AppRegistry::update_apps`
    unfoldable pub update_apps : Run C (Result IoError (Unit {0}))
    unfolding store_answer
    update_apps w =
        if w.registry.has_pool
        then (if Cluster.connects C w.cluster
            then (let (answer, state) =
                  Cluster.query C (record { statement = select_apps keyspace; values = [] })
                    w.cluster in
                store_answer answer (record w { cluster = state }))
            else (returned (err connection_aborted), w))
        else (returned (ok tt), w)

    -- `AppRegistry::run_updater`: for each round what the flag holds, and what the other threads do
    -- while the updater is parked. An error of a round is logged and dropped, a panic ends the thread.
    unfoldable pub run_updater : List (Bool × (World C → World C)) → Run C (Unit {0})
    run_updater [] w = (returned tt, w)
    run_updater ((false, others) ∷ rounds) w = (returned tt, w)
    run_updater ((true, others) ∷ rounds) w =
        let (result, w') = update_apps w in
        let rest = run_updater rounds (others w') in
        elim result [ panicked ↦ (panicked, w') | returned r ↦ rest ]

-- `AppRegistry::new` without `manage_apps`: the applications of the configuration.
unfoldable pub new_registry : Hex → Config → Metrics → Outcome AppRegistry × Metrics
unfolding load_test_apps
new_registry hex config m = elim config.test_apps [
  | none ↦ (panicked, m)
  | some test_apps ↦
      let (apps, m') = load_test_apps hex test_apps [] m in
      (
        returned (record {
          allow_empty_signature = config.gateway.allow_empty_signature;
          apps = apps;
          has_pool = false;
        }),
        m',
      )
]
