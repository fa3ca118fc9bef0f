-- ===== src/IfaMatching/Frames.antt =====
-- What src/ifa_matching.rs leaves alone.
use xorc_gateway.Base.{Bool, Option, ◌≡◌, refl, Text, arith, ◌∙◌}
use xorc_gateway.Cluster.{Cluster, Query, Frame}
use xorc_gateway.Crates.{Uuids}
use xorc_gateway.Encryption.{Cleartext}
use xorc_gateway.IfaMatching.{run_query, read_answer, written, get_id_for_ifa, put_id_for_ifa}
use xorc_gateway.World.{World}

-- Between the two states only the cluster and the counters of its requests may differ.
pub record IsQuiet (C : Cluster) (w w' : World C) : Type 0 where
  pub registry : w'.registry ≡ w.registry
  pub sent : w'.sent ≡ w.sent
  pub requests : w'.metrics.requests ≡ w.metrics.requests
  pub events_total : w'.metrics.events_total ≡ w.metrics.events_total

module _ (C : Cluster) where
  pub IsQuiet-refl : (w : World C) → IsQuiet C w w
  IsQuiet-refl w = record { registry = refl; sent = refl; requests = refl; events_total = refl }

  pub IsQuiet-trans : {u v w : World C} → IsQuiet C u v → IsQuiet C v w → IsQuiet C u w
  IsQuiet-trans h k = record {
    registry = k.registry ∙ h.registry;
    sent = k.sent ∙ h.sent;
    requests = k.requests ∙ h.requests;
    events_total = k.events_total ∙ h.events_total;
  }

  module _ (uuids : Uuids) (keyspace : Text) where
    run_query-IsQuiet : (q : Query) (w : World C) → IsQuiet C w (run_query C uuids keyspace q w).1
    unfolding run_query
    run_query-IsQuiet q w = ground arith

    read_answer-IsQuiet :
        (f : Option Frame) (w : World C) → IsQuiet C w (read_answer C uuids keyspace f w).1
    unfolding read_answer
    read_answer-IsQuiet f w = ground arith

    written-IsQuiet :
        (f : Option Frame) (w : World C) → IsQuiet C w (written C uuids keyspace f w).1
    unfolding written
    written-IsQuiet f w = ground arith

    pub get_id_for_ifa-IsQuiet :
        (app_id : Text) (ifa : Option Text) (tracking : Bool) (w : World C)
        → IsQuiet C w (get_id_for_ifa C uuids keyspace app_id ifa tracking w).1
    unfolding get_id_for_ifa
    get_id_for_ifa-IsQuiet app_id ifa tracking w =
        grind (arith, run_query-IsQuiet, read_answer-IsQuiet)

    pub put_id_for_ifa-IsQuiet :
        (app_id : Text) (device_id : Cleartext) (ifa : Option Text) (tracking : Bool) (w : World C)
        → IsQuiet C w (put_id_for_ifa C uuids keyspace app_id device_id ifa tracking w).1
    unfolding put_id_for_ifa
    put_id_for_ifa-IsQuiet app_id device_id ifa tracking w =
        grind (arith, run_query-IsQuiet, written-IsQuiet)
