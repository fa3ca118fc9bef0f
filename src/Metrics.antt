-- ===== src/Metrics.antt =====
-- src/metrics.rs: the counters. The histograms of latencies are left out.
use xorc_gateway.Base.{ℕ, ◌+◌, Text, ◌==◌, text_eq, if◌then◌else◌, ◌&&◌}

-- A `CounterVec` by its two labels.
abbrev pub CounterVec : Type 0
CounterVec = Text → Text → ℕ

-- `with_label_values(&[a, b]).inc()`
unfoldable pub inc_labels : Text → Text → CounterVec → CounterVec
inc_labels a b counter = λ x y. if x == a && y == b then counter x y + 1 else counter x y

-- `APP_UPDATE_COUNTER`, `EVENTS_COUNTER`, `REQUEST_COUNTER` and `SCYLLADB_REQUEST_COUNTER`
pub record Metrics : Type 0 where
  pub app_updates : ℕ
  pub events_total : ℕ
  pub requests : CounterVec
  pub scylladb_requests : CounterVec

abbrev pub no_metrics : Metrics
no_metrics = record {
  app_updates = 0;
  events_total = 0;
  requests = λ a b. 0;
  scylladb_requests = λ a b. 0;
}
