-- ===== src/Samples/Clusters.antt =====
-- A cluster that keeps what is inserted: its state is the list of the inserted values.
use mathlib.Core.Option.{some-injective}
use xorc_gateway.Base.{
  ℕ, ◌<◌, ◌^◌, ◌%◌, ◌≡◌, refl, ap, sym, ◌∙◌, Bool-cases, inl, inr, true, Option, some, none, List,
  [], ◌∷◌, Text, text, ◌==◌, ℕ_eq, if◌then◌else◌, ◌&&◌, arith,
}
use xorc_gateway.Cluster.{Cluster, Row, Frame}
use xorc_gateway.IfaMatching.Answers.{HoldsUuids}
use xorc_gateway.IfaMatching.Lookup.{IsAvailable, KeepsIfas}

-- Three values.
abbrev pub Entry : Type 0
Entry = ℕ × ℕ × ℕ

abbrev pub entity_row : ℕ → Row
entity_row id = record { uuid_by_name = λ name. some (id % 2 ^ 128); text_by_name = λ name. none }

abbrev rows_for : ℕ → ℕ → List Entry → List Row
rows_for app_id ifa [] = []
rows_for app_id ifa ((a, i, id) ∷ entries) =
    let rest = rows_for app_id ifa entries in
    if a == app_id && i == ifa then entity_row id ∷ rest else rest

abbrev void : Frame
void = record { body = some none }

-- A statement with three values inserts them, one with two selects.
abbrev answer : List ℕ → List Entry → Option Frame × List Entry
answer (a ∷ i ∷ id ∷ []) entries = (some void, (a, i, id) ∷ entries)
answer (a ∷ i ∷ []) entries = (some (record { body = some (some (rows_for a i entries)) }), entries)
answer _ entries = (some void, entries)

abbrev pub plain_cluster : Cluster
plain_cluster = record {
  State = List Entry;
  connects = λ s. true;
  query = λ q s. answer q.values s;
}

answer-some :
    (values : List ℕ) (entries : List Entry) → (f : Frame) × ((answer values entries).0 ≡ some f)
answer-some [] entries = (void, refl)
answer-some (a ∷ []) entries = (void, refl)
answer-some (a ∷ i ∷ []) entries = (_, refl)
answer-some (a ∷ i ∷ id ∷ []) entries = (void, refl)
answer-some (a ∷ i ∷ id ∷ x ∷ more) entries = (void, refl)

pub plain_cluster-IsAvailable : IsAvailable plain_cluster
plain_cluster-IsAvailable = record { connects = λ s. refl; answers = λ q s. answer-some q.values s }

rows_for_inserted :
    (a i id : ℕ) (entries : List Entry)
    → rows_for a i ((a, i, id) ∷ entries) ≡ entity_row id ∷ rows_for a i entries
rows_for_inserted a i id entries = ground arith

kept :
    (a i id : ℕ) (entries : List Entry) (f : Frame)
    → id < 2 ^ 128
    → (answer (a ∷ i ∷ []) ((a, i, id) ∷ entries)).0 ≡ some f
    → (row : Row) × (rows : List Row) × (f.body ≡ some (some (row ∷ rows)))
      × (row.uuid_by_name (text "entity_id") ≡ some id)
kept a i id entries f small e =
    let same = some-injective _ f e in
    (
      entity_row id,
      rows_for a i entries,
      ap (λ g. g.body) (sym same)
          ∙ ap (λ rows. some (some rows)) (rows_for_inserted a i id entries),
      ap some (omega arith),
    )

rows_for_entity :
    (a i : ℕ) (entries : List Entry) (row : Row) (rows : List Row)
    → rows_for a i entries ≡ row ∷ rows
    → (id : ℕ) × (row ≡ entity_row id)
rows_for_entity a i [] row rows e = cc
rows_for_entity a i ((b, j, id) ∷ entries) row rows e = elim (Bool-cases (b == a && j == i)) [
  | inl same ↦ (id, ground arith)
  | inr differ ↦ rows_for_entity a i entries row rows (ground arith)
]

answered_entity :
    (values : List ℕ) (entries : List Entry) (f : Frame) (row : Row) (rows : List Row)
    → (answer values entries).0 ≡ some f
    → f.body ≡ some (some (row ∷ rows))
    → (id : ℕ) × (row ≡ entity_row id)
answered_entity [] entries f row rows e body = ground arith
answered_entity (a ∷ []) entries f row rows e body = ground arith
answered_entity (a ∷ i ∷ []) entries f row rows e body =
    rows_for_entity a i entries row rows (ground arith)
answered_entity (a ∷ i ∷ id ∷ []) entries f row rows e body = ground arith
answered_entity (a ∷ i ∷ id ∷ x ∷ more) entries f row rows e body = ground arith

pub plain_cluster-KeepsIfas : (keyspace : Text) → KeepsIfas plain_cluster keyspace
plain_cluster-KeepsIfas keyspace = record {
  select-insert = λ s app_id ifa entity_id f small e. kept app_id ifa entity_id s f small e;
}

pub plain_cluster-HoldsUuids : HoldsUuids plain_cluster
plain_cluster-HoldsUuids = record {
  small = λ q s f row rows e answered body found.
      let (id, same) = answered_entity q.values s f row rows answered body in
      let read : id % 2 ^ 128 ≡ e =
        some-injective _ e (ap (λ r. r.uuid_by_name (text "entity_id")) (sym same) ∙ found) in
      omega arith;
}
