-- ===== src/Cluster.antt =====
-- The ScyllaDB cluster behind `cdrs` and `r2d2`, a parameter of src/ifa_matching.rs and of
-- src/app_registry.rs: its state, and what a connection and a query answer.
pub mod Selects
use xorc_gateway.Base.{ℕ, Bool, Option, List, Text}

-- A row, by what `r_by_name` gives for a UUID and `by_name` for a text; `none` is an error.
pub record Row : Type 0 where
  pub uuid_by_name : Text → Option ℕ
  pub text_by_name : Text → Option (Option Text)

-- A frame, by `get_body().ok()` and `into_rows()`.
pub record Frame : Type 0 where
  pub body : Option (Option (List Row))

-- A statement with the UUIDs that are bound to it.
pub record Query : Type 0 where
  pub statement : Text
  pub values : List ℕ

-- `pool.get()` may fail, and so may a query; a failed query is `none`.
pub record Cluster : Type 1 where
  pub State : Type 0
  pub connects : State → Bool
  pub query : Query → State → Option Frame × State
