-- ===== src/IfaMatching/Answers.antt =====
-- What src/ifa_matching.rs makes of the rows that the cluster answers.
use xorc_gateway.Base.{
  ℕ, ◌<◌, ◌^◌, Bool, ◌≡◌, ◌∙◌, refl, ap, sym, some, none, Option, List, [], ◌∷◌, Text, text, arith,
  Option-cases, Bool-cases, inl, inr,
}
use xorc_gateway.Cluster.{Cluster, Query, Frame, Row}
use xorc_gateway.Crates.{Uuids}
use xorc_gateway.IfaMatching.{parse_ifa, run_query, get_id_for_ifa, read_answer, first_id}
use xorc_gateway.IfaMatching.Lookup.{select_query}
use xorc_gateway.World.{World}

-- The column `entity_id` of a row that the cluster answers is a UUID, of 128 bits.
pub record HoldsUuids (C : Cluster) : Type 0 where
  pub small :
      (q : Query) (s : Cluster.State C) (f : Frame) (row : Row) (rows : List Row) (e : ℕ)
      → (Cluster.query C q s).0 ≡ some f
      → f.body ≡ some (some (row ∷ rows))
      → row.uuid_by_name (text "entity_id") ≡ some e
      → e < 2 ^ 128

first_id-eq-some :
    (rows : List Row) (e : ℕ)
    → first_id rows ≡ some e
    → (row : Row) × (rest : List Row) × (rows ≡ row ∷ rest)
      × (row.uuid_by_name (text "entity_id") ≡ some e)
first_id-eq-some [] e h = ground arith
first_id-eq-some (row ∷ rows) e h = (row, rows, refl, h)

module _ (C : Cluster) (uuids : Uuids) (keyspace : Text) where
  read_answer-some :
      (f : Option Frame) (w : World C) (t : Text)
      → (read_answer C uuids keyspace f w).0 ≡ some t
      → (frame : Frame) × (rows : List Row) × (e : ℕ) × (f ≡ some frame)
        × (frame.body ≡ some (some rows))
        × (first_id rows ≡ some e)
        × (t ≡ uuids.hyphenated e)
  unfolding read_answer
  read_answer-some none w t h = ground arith
  read_answer-some (some frame) w t h = elim (Option-cases frame.body) [
    | inl broken ↦ ground arith
    | inr (rows?, body) ↦ elim (Option-cases rows?) [
      | inl absent ↦ ground arith
      | inr (rows, present) ↦ elim (Option-cases (first_id rows)) [
        | inl empty ↦ ground arith
        | inr (e, found) ↦ (frame, rows, e, refl, body ∙ ap some present, found, ground arith)
      ]
    ]
  ]

  run_query-some :
      (q : Query) (w : World C) (frame : Frame)
      → (run_query C uuids keyspace q w).0 ≡ some frame
      → (Cluster.query C q w.cluster).0 ≡ some frame
  unfolding run_query
  run_query-some q w frame h = elim (Bool-cases (Cluster.connects C w.cluster)) [
    | inl connected ↦ ground arith
    | inr refused ↦ ground arith
  ]

  get_id_for_ifa_lem :
      (app_id : Text) (ifa : Option Text) (tracking : Bool) (w : World C) (a i : ℕ)
      → parse_ifa uuids ifa tracking ≡ some i
      → uuids.parse_str app_id ≡ some a
      → let (answer, w') = run_query C uuids keyspace (select_query keyspace a i) w in
        get_id_for_ifa C uuids keyspace app_id ifa tracking w
        ≡ read_answer C uuids keyspace answer w'
  unfolding get_id_for_ifa
  get_id_for_ifa_lem app_id ifa tracking w a i parsed app = rw (get_id_for_ifa, parsed, app)

  -- An id that is found is the text of a UUID.
  pub get_id_for_ifa-some :
      HoldsUuids C
      → (app_id : Text) (ifa : Option Text) (tracking : Bool) (w : World C) (t : Text)
      → (get_id_for_ifa C uuids keyspace app_id ifa tracking w).0 ≡ some t
      → (e : ℕ) × (e < 2 ^ 128) × (t ≡ uuids.hyphenated e)
  unfolding get_id_for_ifa
  get_id_for_ifa-some holds app_id ifa tracking w t h =
      elim (Option-cases (parse_ifa uuids ifa tracking)) [
        | inl bad ↦ ground arith
        | inr (i, parsed) ↦ elim (Option-cases (uuids.parse_str app_id)) [
          | inl bad ↦ ground arith
          | inr (a, app) ↦
              let q = select_query keyspace a i in
              let (frame, rows, e, answered, body, found, same) =
                read_answer-some (run_query C uuids keyspace q w).0 _ t (
                  ap (λ p. p.0) (sym (get_id_for_ifa_lem app_id ifa tracking w a i parsed app))
                  ∙ h) in
              let (row, rest, shape, id) = first_id-eq-some rows e found in
              (
                e,
                holds.small q w.cluster frame row rest e (run_query-some q w frame answered)
                    (body ∙ ap (λ l. some (some l)) shape) id,
                same,
              )
        ]
      ]
