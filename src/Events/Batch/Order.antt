-- ===== src/Events/Batch/Order.antt =====
-- The events of a message, src/events/input/sdk_event_batch.rs: in which order they stand.
use mathlib.Core.List.{Perm}
use xorc_gateway.Base.{
  Ordering, ◌≢◌, ◌≤◌, ◌≡◌, List, [], ◌∷◌, ℤ, arith, All, returned, Outcome-cases, inl, inr,
}
use xorc_gateway.Context.{Context}
use xorc_gateway.Crates.{Casts}
use xorc_gateway.Events.Event.{SdkEvent, SdkEventData, event_into}
use xorc_gateway.Events.Batch.{
  SdkEventBatch, ProtoBatch, Sorter, Translation, by_timestamp, events_into, into_proto,
}

-- Each event is at most as late as those after it.
abbrev pub Ordered : List SdkEvent → Type 0
Ordered [] = Unit
Ordered (e ∷ es) = All (λ f. e.timestamp ≤ f.timestamp) es × Ordered es

-- By a comparison, one event may stand before another.
abbrev pub MayPrecede : (SdkEvent → SdkEvent → Ordering) → SdkEvent → SdkEvent → Type 0
MayPrecede cmp e f = cmp e f ≢ Ordering.gt

-- By a comparison, every event may stand before those after it.
abbrev pub Sorted : (SdkEvent → SdkEvent → Ordering) → List SdkEvent → Type 0
Sorted cmp [] = Unit
Sorted cmp (e ∷ es) = All (MayPrecede cmp e) es × Sorted cmp es

-- A comparison by which any two events may stand in one order or the other, and that is transitive.
pub record IsTotal (cmp : SdkEvent → SdkEvent → Ordering) : Type 0 where
  pub total : (e f : SdkEvent) → cmp e f ≡ Ordering.gt → MayPrecede cmp f e
  pub transitive : (e f g : SdkEvent) → MayPrecede cmp e f → MayPrecede cmp f g → MayPrecede cmp e g

-- What `sort_unstable_by` promises: it permutes and, for a comparison that is a total order, sorts.
pub record IsSorter (s : Sorter) : Type 0 where
  pub permutes :
      (cmp : SdkEvent → SdkEvent → Ordering) (es : List SdkEvent)
      → Perm (s.sort_unstable_by cmp es) es
  pub sorts :
      (cmp : SdkEvent → SdkEvent → Ordering) (es : List SdkEvent)
      → IsTotal cmp
      → Sorted cmp (s.sort_unstable_by cmp es)

by_timestamp-IsTotal : IsTotal by_timestamp
unfolding by_timestamp
by_timestamp-IsTotal = record {
  total = λ e f gt. ground arith;
  transitive = λ e f g h k. ground arith;
}

MayPrecede-by_timestamp : (e f : SdkEvent) → MayPrecede by_timestamp e f → e.timestamp ≤ f.timestamp
unfolding by_timestamp
MayPrecede-by_timestamp e f h = ground arith

All-by_timestamp :
    (e : SdkEvent) (es : List SdkEvent)
    → All (MayPrecede by_timestamp e) es
    → All (λ f. e.timestamp ≤ f.timestamp) es
All-by_timestamp e [] h = tt
All-by_timestamp e (f ∷ es) (h, hs) = (MayPrecede-by_timestamp e f h, All-by_timestamp e es hs)

Sorted-Ordered : (es : List SdkEvent) → Sorted by_timestamp es → Ordered es
Sorted-Ordered [] h = tt
Sorted-Ordered (e ∷ es) (least, rest) = (All-by_timestamp e es least, Sorted-Ordered es rest)

-- The second list holds what the events of the first are translated to.
abbrev pub Translated : Casts → List SdkEvent → List SdkEventData → Type 0
Translated casts [] [] = Unit
Translated casts [] (d ∷ ds) = ⊥
Translated casts (e ∷ es) [] = ⊥
Translated casts (e ∷ es) (d ∷ ds) = (event_into casts e ≡ returned d) × Translated casts es ds

events_into-ok :
    (casts : Casts) (es : List SdkEvent) (ds : List SdkEventData)
    → events_into casts es ≡ returned ds
    → Translated casts es ds
unfolding events_into
events_into-ok casts [] [] e = tt
events_into-ok casts [] (d ∷ ds) e = cc
events_into-ok casts (e ∷ es) ds h = elim (Outcome-cases (event_into casts e)) [
  | inl stops ↦ ground arith
  | inr (d, made) ↦ elim (Outcome-cases (events_into casts es)) [
    | inl stops ↦ ground arith
    | inr (rest, translated) ↦
        let shape : d ∷ rest ≡ ds = ground arith in
        rw (← shape) (made, events_into-ok casts es rest translated)
  ]
]

into_proto-event :
    (t : Translation) (now : ℤ) (b : SdkEventBatch) (c : Context) (proto : ProtoBatch)
    → into_proto t now b c ≡ returned proto
    → events_into t.casts (t.sorter.sort_unstable_by by_timestamp b.events) ≡ returned proto.event
unfolding into_proto
into_proto-event t now b c proto h =
    elim (Outcome-cases (events_into t.casts (t.sorter.sort_unstable_by by_timestamp b.events))) [
      | inl stops ↦ ground arith
      | inr (ds, made) ↦ ground arith
    ]

-- Under a lawful sorter, the events of a message are the translations of the batch's events, each
-- once, in the order of their timestamps.
pub into_proto-Ordered :
    (t : Translation)
    → IsSorter t.sorter
    → (now : ℤ) (b : SdkEventBatch) (c : Context) (proto : ProtoBatch)
    → into_proto t now b c ≡ returned proto
    → (es : List SdkEvent) × Perm es b.events × Ordered es × Translated t.casts es proto.event
into_proto-Ordered t lawful now b c proto h = (
  t.sorter.sort_unstable_by by_timestamp b.events,
  lawful.permutes by_timestamp b.events,
  Sorted-Ordered _ (lawful.sorts by_timestamp b.events by_timestamp-IsTotal),
  events_into-ok t.casts (t.sorter.sort_unstable_by by_timestamp b.events) proto.event
      (into_proto-event t now b c proto h),
)
