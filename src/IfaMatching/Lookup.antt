-- ===== src/IfaMatching/Lookup.antt =====
-- What src/ifa_matching.rs finds again of what it has stored.
use xorc_gateway.Base.{
  ℕ, ◌<◌, ◌^◌, Bool, true, false, ◌≡◌, ◌≢◌, ◌↔◌, refl, some, none, Option, List, [], ◌∷◌, Text,
  text, arith,
}
use xorc_gateway.Cluster.{Cluster, Query, Frame, Row}
use xorc_gateway.Crates.{Uuids, IsUuids}
use xorc_gateway.Encryption.{Cleartext}
use xorc_gateway.IfaMatching.{
  parse_ifa, select_ifa, insert_ifa, run_query, get_id_for_ifa, put_id_for_ifa, read_answer,
  written,
}
use xorc_gateway.Results.{ok, err}
use xorc_gateway.World.{World, invalid_input}

abbrev pub select_query : Text → ℕ → ℕ → Query
select_query keyspace app_id ifa = record {
  statement = select_ifa keyspace;
  values = app_id ∷ ifa ∷ [];
}

abbrev pub insert_query : Text → ℕ → ℕ → ℕ → Query
insert_query keyspace app_id ifa entity_id = record {
  statement = insert_ifa keyspace;
  values = app_id ∷ ifa ∷ entity_id ∷ [];
}

-- The cluster takes connections and answers every query.
pub record IsAvailable (C : Cluster) : Type 0 where
  pub connects : (s : Cluster.State C) → Cluster.connects C s ≡ true
  pub answers : (q : Query) (s : Cluster.State C) → (f : Frame) × ((Cluster.query C q s).0 ≡ some f)

-- An id that was inserted for an application and an advertising id is what a selection for the two
-- answers next.
pub record KeepsIfas (C : Cluster) (keyspace : Text) : Type 0 where
  pub select-insert :
      (s : Cluster.State C) (app_id ifa entity_id : ℕ) (answer : Frame)
      → entity_id < 2 ^ 128
      → (Cluster.query C
          (select_query keyspace app_id ifa)
          (Cluster.query C (insert_query keyspace app_id ifa entity_id) s).1).0
        ≡ some answer
      → (row : Row) × (rows : List Row) × (answer.body ≡ some (some (row ∷ rows)))
        × (row.uuid_by_name (text "entity_id") ≡ some entity_id)

-- An advertising id counts exactly if tracking is enabled and it is a UUID other than the nil UUID.
pub parse_ifa-eq-some_iff :
    (uuids : Uuids) (ifa : Option Text) (tracking : Bool) (id : ℕ)
    → (parse_ifa uuids ifa tracking ≡ some id)
      ↔ ((s : Text) × (ifa ≡ some s) × (uuids.parse_str s ≡ some id) × (tracking ≡ true) × (id ≢ 0))
unfolding parse_ifa
parse_ifa-eq-some_iff uuids none tracking id = (λ e. cc, λ (s, e, _, _, _). cc)
parse_ifa-eq-some_iff uuids (some s) tracking id =
    (λ e. (s, refl, ground arith, ground arith, ground arith), λ (s', same, p, t, n). ground arith)

module _ (C : Cluster) (uuids : Uuids) (keyspace : Text) where
  -- A device that does not allow tracking is neither looked up nor stored: nothing changes.
  pub tracking_disabled :
      (app_id : Text) (device_id : Cleartext) (ifa : Option Text) (w : World C)
      → (get_id_for_ifa C uuids keyspace app_id ifa false w ≡ (none, w))
        × (put_id_for_ifa C uuids keyspace app_id device_id ifa false w ≡ (err invalid_input, w))
  unfolding get_id_for_ifa put_id_for_ifa parse_ifa
  tracking_disabled app_id device_id ifa w = (ground arith, ground arith)

  run_query_connected :
      (q : Query) (w : World C)
      → Cluster.connects C w.cluster ≡ true
      → run_query C uuids keyspace q w
        ≡ ((Cluster.query C q w.cluster).0, record w { cluster = (Cluster.query C q w.cluster).1 })
  unfolding run_query
  run_query_connected q w h = rw (run_query, h)

  put_lem :
      (app_id : Text) (device_id : Cleartext) (ifa : Option Text) (tracking : Bool) (w : World C)
      (a i e : ℕ) (f : Frame)
      → parse_ifa uuids ifa tracking ≡ some i
      → uuids.parse_str app_id ≡ some a
      → uuids.parse_str device_id.value ≡ some e
      → Cluster.connects C w.cluster ≡ true
      → (Cluster.query C (insert_query keyspace a i e) w.cluster).0 ≡ some f
      → ((put_id_for_ifa C uuids keyspace app_id device_id ifa tracking w).0 ≡ ok tt)
        × ((put_id_for_ifa C uuids keyspace app_id device_id ifa tracking w).1.cluster
            ≡ (Cluster.query C (insert_query keyspace a i e) w.cluster).1)
  unfolding put_id_for_ifa written
  put_lem app_id device_id ifa tracking w a i e f parsed app device connected inserted =
      ground (arith, run_query_connected (insert_query keyspace a i e) w connected)

  get_lem :
      (app_id : Text) (ifa : Option Text) (tracking : Bool) (w : World C) (a i e : ℕ) (g : Frame)
      (row : Row) (rows : List Row)
      → parse_ifa uuids ifa tracking ≡ some i
      → uuids.parse_str app_id ≡ some a
      → Cluster.connects C w.cluster ≡ true
      → (Cluster.query C (select_query keyspace a i) w.cluster).0 ≡ some g
      → g.body ≡ some (some (row ∷ rows))
      → row.uuid_by_name (text "entity_id") ≡ some e
      → (get_id_for_ifa C uuids keyspace app_id ifa tracking w).0 ≡ some (uuids.hyphenated e)
  unfolding get_id_for_ifa read_answer
  get_lem app_id ifa tracking w a i e g row rows parsed app connected selected body entity =
      ground (arith, run_query_connected (select_query keyspace a i) w connected)

  module _ (available : IsAvailable C) (keeps : KeepsIfas C keyspace) (laws : IsUuids uuids) where
    -- Where the cluster answers and keeps what is inserted, the id that is stored for a device is the
    -- id that is found for it next.
    pub get_id_for_ifa-put_id_for_ifa :
        (app_id : Text) (id : ℕ) (ifa : Option Text) (tracking : Bool) (w : World C) (a i : ℕ)
        → id < 2 ^ 128
        → uuids.parse_str app_id ≡ some a
        → parse_ifa uuids ifa tracking ≡ some i
        → let device_id : Cleartext = record { value = uuids.hyphenated id } in
          let (stored, w') = put_id_for_ifa C uuids keyspace app_id device_id ifa tracking w in
          (stored ≡ ok tt)
          × ((get_id_for_ifa C uuids keyspace app_id ifa tracking w').0
              ≡ some (uuids.hyphenated id))
    get_id_for_ifa-put_id_for_ifa app_id id ifa tracking w a i small app parsed =
        let device = laws.parse_str-hyphenated id small in
        let (f, inserted) = available.answers (insert_query keyspace a i id) w.cluster in
        let s = (Cluster.query C (insert_query keyspace a i id) w.cluster).1 in
        let (g, selected) = available.answers (select_query keyspace a i) s in
        let (row, rows, body, entity) = keeps.select-insert w.cluster a i id g small selected in
        let (done, state) =
          put_lem app_id (record { value = uuids.hyphenated id }) ifa tracking w a i id f parsed app
            device (available.connects _) inserted in
        (
          done,
          get_lem app_id ifa tracking _ a i id g row rows parsed app (available.connects _)
              (rw state selected) body entity,
        )
