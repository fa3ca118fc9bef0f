-- ===== src/IfaMatching.antt =====
-- src/ifa_matching.rs: the ids of devices by their advertising ids, kept in the cluster.
pub mod Frames
pub mod Lookup
pub mod Answers
use xorc_gateway.Base.{
  ℕ, Bool, Option, none, some, List, [], ◌∷◌, ◌++◌, Text, text, ◌==◌, ℕ_eq, if◌then◌else◌, ◌&&◌,
  not, ◌>>=◌,
}
use xorc_gateway.Cluster.{Cluster, Frame, Row, Query}
use xorc_gateway.Crates.{Uuids}
use xorc_gateway.Encryption.{Cleartext}
use xorc_gateway.Metrics.{inc_labels}
use xorc_gateway.Results.{Result, ok, err}
use xorc_gateway.World.{World, IoError, interrupted, invalid_input}

-- `IfaMatching::parse_ifa`
unfoldable pub parse_ifa : Uuids → Option Text → Bool → Option ℕ
parse_ifa uuids ifa ifa_tracking_enabled = do
  id ← ifa >>= uuids.parse_str
  if ifa_tracking_enabled && not (id == 0) then some id else none

-- The two statements, for the keyspace.
unfoldable pub select_ifa : Text → Text
select_ifa keyspace =
    text "SELECT entity_id FROM " ++ (keyspace ++ text ".gw_known_ifas WHERE app_id=? AND ifa=?")

unfoldable pub insert_ifa : Text → Text
insert_ifa keyspace =
    text "INSERT INTO "
    ++ (keyspace ++ text ".gw_known_ifas (app_id, ifa, entity_id) VALUES (?, ?, ?)")

-- `rows.first()` and its column `entity_id`.
abbrev pub first_id : List Row → Option ℕ
first_id [] = none
first_id (row ∷ rows) = row.uuid_by_name (text "entity_id")

module _ (C : Cluster) (uuids : Uuids) (keyspace : Text) where
  -- `IfaMatching::run_query`; `none` is an error.
  unfoldable pub run_query : Query → World C → Option Frame × World C
  run_query q w =
      if Cluster.connects C w.cluster
      then (let (frame, state) = Cluster.query C q w.cluster in
          (frame, record w { cluster = state }))
      else (none, w)

  count_get : Text → World C → World C
  unfolding inc_labels
  count_get status w = record w {
    metrics = record w.metrics {
      scylladb_requests = inc_labels (text "get") status w.metrics.scylladb_requests;
    };
  }

  count_put : Text → World C → World C
  unfolding inc_labels
  count_put status w = record w {
    metrics = record w.metrics {
      scylladb_requests = inc_labels (text "put") status w.metrics.scylladb_requests;
    };
  }

  -- What `get_id_for_ifa` makes of the answer.
  unfoldable pub read_answer : Option Frame → World C → Option Text × World C
  unfolding count_get
  read_answer none w = (none, count_get (text "error") w)
  read_answer (some frame) w = elim frame.body [
    | none ↦ (none, w)
    | some rows? ↦ elim rows? [
      | none ↦ (none, w)
      | some rows ↦ elim (first_id rows) [
        | some entity_id ↦ (some (uuids.hyphenated entity_id), count_get (text "ok") w)
        | none ↦ (none, count_get (text "not_found") w)
      ]
    ]
  ]

  -- `IfaMatching::get_id_for_ifa`
  unfoldable pub get_id_for_ifa : Text → Option Text → Bool → World C → Option Text × World C
  unfolding run_query read_answer
  get_id_for_ifa app_id ifa tracking w = elim (parse_ifa uuids ifa tracking) [
    | none ↦ (none, w)
    | some ifa' ↦ elim (uuids.parse_str app_id) [
      | none ↦ (none, w)
      | some app_id' ↦
          let (answer, w') =
            run_query (record { statement = select_ifa keyspace; values = app_id' ∷ ifa' ∷ [] })
              w in
          read_answer answer w'
    ]
  ]

  -- What `put_id_for_ifa` makes of the answer.
  unfoldable pub written : Option Frame → World C → Result IoError (Unit {0}) × World C
  unfolding count_put
  written none w = (err interrupted, count_put (text "error") w)
  written (some frame) w = (ok tt, count_put (text "ok") w)

  -- `IfaMatching::put_id_for_ifa`
  unfoldable pub put_id_for_ifa :
      Text → Cleartext → Option Text → Bool → World C → Result IoError (Unit {0}) × World C
  unfolding run_query written
  put_id_for_ifa app_id device_id ifa tracking w = elim (parse_ifa uuids ifa tracking) [
    | none ↦ (err invalid_input, w)
    | some ifa' ↦ elim (uuids.parse_str app_id) [
      | none ↦ (err invalid_input, w)
      | some app_id' ↦ elim (uuids.parse_str device_id.value) [
        | none ↦ (err invalid_input, w)
        | some entity_id ↦
            let (answer, w') =
              run_query
                (record {
                  statement = insert_ifa keyspace;
                  values = app_id' ∷ ifa' ∷ entity_id ∷ [];
                })
                w in
            written answer w'
      ]
    ]
  ]
