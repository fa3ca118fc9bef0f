-- ===== src/Events/Batch/Totality.antt =====
-- Every batch whose numbers can be read has a message, src/events/input/sdk_event_batch.rs.
use mathlib.Core.List.{Mem, mem-cons, mem-cons_self, mem-cons_of_mem, not-mem-nil}
use mathlib.Core.Logic.Or
use mathlib.Core.List.Perm
use xorc_gateway.Base.{refl, List, [], ◌∷◌, ℤ, All, Returns, Returns-and_then}
use xorc_gateway.Context.{Context}
use xorc_gateway.Crates.{Casts}
use xorc_gateway.Events.Event.{SdkEvent}
use xorc_gateway.Events.Event.Numbers.{AllNumbers, AllNumbers-IsProp, event_into-Returns}
use xorc_gateway.Events.Batch.{SdkEventBatch, Translation, by_timestamp, events_into, into_proto}
use xorc_gateway.Events.Batch.Order.{IsSorter}

events_into-Returns :
    (casts : Casts) (es : List SdkEvent)
    → ((e : SdkEvent) → Mem e es → AllNumbers e.properties)
    → Returns (events_into casts es)
unfolding events_into
events_into-Returns casts [] h = ([], refl)
events_into-Returns casts (e ∷ es) h =
    Returns-and_then _ _ (event_into-Returns casts e (h e mem-cons_self)) (λ d.
      Returns-and_then _ _ (events_into-Returns casts es (λ f m. h f (mem-cons_of_mem e m)))
        (λ ds. (_, refl)))

every :
    (es : List SdkEvent)
    → All (λ e. AllNumbers e.properties) es
    → (e : SdkEvent) → Mem e es
    → AllNumbers e.properties
every [] h e m = absurd (not-mem-nil m)
every (f ∷ es) (h, hs) e m =
    Or.elim (AllNumbers-IsProp e.properties) (mem-cons.0 m) (λ same. rw same h) (every es hs e)

-- Under a lawful sorter, every batch whose numbers outside of arrays can be read as `f64` is
-- translated without a panic.
pub into_proto-Returns :
    (t : Translation)
    → IsSorter t.sorter
    → (now : ℤ) (b : SdkEventBatch) (c : Context) → All (λ e. AllNumbers e.properties) b.events
    → Returns (into_proto t now b c)
unfolding into_proto
into_proto-Returns t lawful now b c h =
    Returns-and_then _ _
      (events_into-Returns t.casts (t.sorter.sort_unstable_by by_timestamp b.events)
        (λ e m. every b.events h e ((Perm.mem_iff (lawful.permutes by_timestamp b.events)).0 m)))
      (λ ds. (_, refl))
