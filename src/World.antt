-- ===== src/World.antt =====
-- The state that requests and the updater share: the statics of src/main.rs and src/metrics.rs, the
-- cluster, and the reports of the message bus.
use xorc_gateway.Base.{Outcome, List}
use xorc_gateway.AppRegistry.{AppRegistry}
use xorc_gateway.Bus.{Report}
use xorc_gateway.Cluster.{Cluster}
use xorc_gateway.Metrics.{Metrics}

pub record World (C : Cluster) : Type 0 where
  pub registry : AppRegistry
  pub metrics : Metrics
  pub cluster : Cluster.State C
  pub sent : List Report

-- A computation on the state, which may panic and then keeps what it has done so far.
abbrev pub Run {ℓ} : Cluster → Type ℓ → Type ℓ
Run C A = World C → Outcome A × World C

-- `io::Error`, by its kind.
pub data IoError : Type 0 where
  connection_aborted interrupted invalid_input : IoError
