-- ===== src/Samples/Sorting.antt =====
-- An insertion sort of events by any comparison, which meets the law for sorters.
use mathlib.Core.List.{Perm}
use mathlib.Core.List.Perm
use xorc_gateway.Base.{
  Bool, true, false, ◌≡◌, ◌≢◌, Ordering, List, [], ◌∷◌, All, arith, if◌then◌else◌, Bool-cases, inl,
  inr,
}
use xorc_gateway.Events.Batch.{Sorter}
use xorc_gateway.Events.Batch.Order.{MayPrecede, Sorted, IsTotal, IsSorter}
use xorc_gateway.Events.Event.{SdkEvent}

abbrev Comparison : Type 0
Comparison = SdkEvent → SdkEvent → Ordering

abbrev is_after : Ordering → Bool
is_after Ordering.gt = true
is_after _ = false

abbrev insert_event : Comparison → SdkEvent → List SdkEvent → List SdkEvent
insert_event cmp e [] = e ∷ []
insert_event cmp e (f ∷ fs) =
    let rest = insert_event cmp e fs in if is_after (cmp e f) then f ∷ rest else e ∷ f ∷ fs

abbrev insertion_sort : Comparison → List SdkEvent → List SdkEvent
insertion_sort cmp [] = []
insertion_sort cmp (e ∷ es) = insert_event cmp e (insertion_sort cmp es)

abbrev pub insertion_sorter : Sorter
insertion_sorter = record { sort_unstable_by = insertion_sort }

gt_of : (o : Ordering) → is_after o ≡ true → o ≡ Ordering.gt
gt_of o h = ground arith

not_gt_of : (o : Ordering) → is_after o ≡ false → o ≢ Ordering.gt
not_gt_of o h = ground arith

module _ (cmp : Comparison) where
  insert_event-Perm : (e : SdkEvent) (fs : List SdkEvent) → Perm (insert_event cmp e fs) (e ∷ fs)
  insert_event-Perm e [] = Perm.rfl
  insert_event-Perm e (f ∷ fs) = elim (Bool-cases (is_after (cmp e f))) [
    | inl after ↦ rw after (Perm.trans (Perm.cons f (insert_event-Perm e fs)) (Perm.swap e f fs))
    | inr before ↦ rw before Perm.rfl
  ]

  insertion_sort-Perm : (es : List SdkEvent) → Perm (insertion_sort cmp es) es
  insertion_sort-Perm [] = Perm.rfl
  insertion_sort-Perm (e ∷ es) =
      Perm.trans (insert_event-Perm e (insertion_sort cmp es))
        (Perm.cons e (insertion_sort-Perm es))

  module _ (order : IsTotal cmp) where
    MayPrecede-trans :
        (e f : SdkEvent) (fs : List SdkEvent)
        → MayPrecede cmp e f
        → All (MayPrecede cmp f) fs
        → All (MayPrecede cmp e) fs
    MayPrecede-trans e f [] h hs = tt
    MayPrecede-trans e f (g ∷ gs) h (k, ks) =
        (order.transitive e f g h k, MayPrecede-trans e f gs h ks)

    insert_event-All :
        (d e : SdkEvent) (fs : List SdkEvent)
        → MayPrecede cmp d e
        → All (MayPrecede cmp d) fs
        → All (MayPrecede cmp d) (insert_event cmp e fs)
    insert_event-All d e [] h hs = (h, tt)
    insert_event-All d e (f ∷ fs) h (k, hs) = elim (Bool-cases (is_after (cmp e f))) [
      | inl after ↦ rw after (k, insert_event-All d e fs h hs)
      | inr before ↦ rw before (h, (k, hs))
    ]

    insert_event-Sorted :
        (e : SdkEvent) (fs : List SdkEvent) → Sorted cmp fs → Sorted cmp (insert_event cmp e fs)
    insert_event-Sorted e [] h = (tt, tt)
    insert_event-Sorted e (f ∷ fs) (least, rest) = elim (Bool-cases (is_after (cmp e f))) [
      | inl after ↦ rw after (
        insert_event-All f e fs (order.total e f (gt_of _ after)) least,
        insert_event-Sorted e fs rest,
      )
      | inr before ↦
          let first = not_gt_of (cmp e f) before in
          rw before ((first, MayPrecede-trans e f fs first least), (least, rest))
    ]

    insertion_sort-Sorted : (es : List SdkEvent) → Sorted cmp (insertion_sort cmp es)
    insertion_sort-Sorted [] = tt
    insertion_sort-Sorted (e ∷ es) =
        insert_event-Sorted e (insertion_sort cmp es) (insertion_sort-Sorted es)

pub insertion_sorter-IsSorter : IsSorter insertion_sorter
insertion_sorter-IsSorter = record {
  permutes = insertion_sort-Perm;
  sorts = λ cmp es order. insertion_sort-Sorted cmp order es;
}
