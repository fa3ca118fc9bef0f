-- ===== src/AppRegistry/Reloads.antt =====
-- What src/app_registry.rs comes to when it reloads the applications from the cluster.
use xorc_gateway.Base.{
  Bool, true, false, ◌≡◌, ◌∙◌, sym, refl, some, none, Option, List, [], ◌∷◌, Text, text, text_eq,
  ℕ_eq, Text-discrete, ℕ_discrete, arith, Outcome, returned, panicked, Option-cases, Bool-cases,
  inl, inr,
}
use xorc_gateway.AppRegistry.{AppRegistry}
use xorc_gateway.AppRegistry.Failures.{load_rows_missing}
use xorc_gateway.AppRegistry.Updates.{update_apps, select_apps, swap_apps, load_rows}
use xorc_gateway.Cluster.{Cluster, Row, Frame}
use xorc_gateway.Cluster.Selects.{may_answer, split_words, is_selected, HonoursSelect}
use xorc_gateway.Crates.{Hex, Uuids}
use xorc_gateway.Results.{Result, ok, err}
use xorc_gateway.World.{World, IoError, connection_aborted}

-- The statement for the applications does not select the column `app_id`.
pub select_apps-may_answer :
    (keyspace : Text) → may_answer (select_apps keyspace) (text "app_id") ≡ false
unfolding may_answer split_words is_selected select_apps text_eq Text-discrete ℕ_eq ℕ_discrete
select_apps-may_answer keyspace = refl

-- The result of a reload and the registry after it, by the rows of the answer, if it has any.
abbrev pub after_rows :
    Option (Option (List Row)) → AppRegistry → Outcome (Result IoError (Unit {0})) × AppRegistry
after_rows (some (some (row ∷ rows))) r = (panicked, r)
after_rows _ r = (returned (ok tt), record r { apps = [] })

-- The same by whether there is a pool, whether it gives a connection, and the answer.
abbrev pub after_reload :
    Bool → Bool → Option Frame → AppRegistry → Outcome (Result IoError (Unit {0})) × AppRegistry
after_reload false connected answer r = (returned (ok tt), r)
after_reload true false answer r = (returned (err connection_aborted), r)
after_reload true true none r = (returned (err connection_aborted), r)
after_reload true true (some frame) r = after_rows frame.body r

after_reload-some :
    (has_pool connected : Bool) (answer : Option Frame) (frame : Frame) (r : AppRegistry)
    → has_pool ≡ true
    → connected ≡ true
    → answer ≡ some frame
    → after_reload has_pool connected answer r ≡ after_rows frame.body r
after_reload-some has_pool connected answer frame r p c a = rw (p, c, a) refl

module _ (C : Cluster) (honours : HonoursSelect C) (hex : Hex) (uuids : Uuids)
    (keyspace : Text) where
  -- A reload gives a result and leaves a registry, as that of an answer with this body does.
  answered :
      (w : World C) (body : Option (Option (List Row)))
      → w.registry.has_pool ≡ true
      → Cluster.connects C w.cluster ≡ true
      → (Cluster.query C (record { statement = select_apps keyspace; values = [] }) w.cluster).0
        ≡ some (record { body = body })
      → ((update_apps C hex uuids keyspace w).0, (update_apps C hex uuids keyspace w).1.registry)
        ≡ after_rows body w.registry
  unfolding update_apps swap_apps load_rows
  answered w none pool connected answer = rw (update_apps, pool, connected, answer) refl
  answered w (some none) pool connected answer = rw (update_apps, pool, connected, answer) refl
  answered w (some (some [])) pool connected answer = rw (update_apps, pool, connected, answer) refl
  answered w (some (some (row ∷ rows))) pool connected answer =
      let (lacks, _) =
        honours.selects (record { statement = select_apps keyspace; values = [] }) w.cluster
          (row ∷ rows) (text "app_id") answer (select_apps-may_answer keyspace) in
      ground (arith, load_rows_missing hex uuids row rows w.metrics lacks.0)

  -- A reload of a cluster whose rows have no column but those that are selected loads no application.
  -- Without a pool it does nothing, and without a connection or an answer it ends with an error and
  -- keeps the registry; an answer without rows empties the registry; and an answer with any rows makes
  -- it panic and keeps the registry.
  pub update_apps-after_reload :
      (w : World C)
      → ((update_apps C hex uuids keyspace w).0, (update_apps C hex uuids keyspace w).1.registry)
        ≡ after_reload w.registry.has_pool
            (Cluster.connects C w.cluster)
            (Cluster.query C (record { statement = select_apps keyspace; values = [] }) w.cluster).0
            w.registry
  unfolding update_apps
  update_apps-after_reload w = elim (Bool-cases w.registry.has_pool) [
    | inr missing ↦ rw (update_apps, missing) refl
    | inl pool ↦ elim (Bool-cases (Cluster.connects C w.cluster)) [
      | inr refused ↦ rw (update_apps, pool, refused) refl
      | inl connected ↦
          elim (Option-cases
            (Cluster.query C (record { statement = select_apps keyspace; values = [] })
              w.cluster).0) [
                | inl failed ↦ rw (update_apps, pool, connected, failed) refl
                | inr (frame, answer) ↦
                    answered w frame.body pool connected answer
                    ∙ sym (after_reload-some _ _ _ frame w.registry pool connected answer)
              ]
    ]
  ]
