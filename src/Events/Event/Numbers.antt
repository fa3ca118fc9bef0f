-- ===== src/Events/Event/Numbers.antt =====
-- Where src/events/input/sdk_event.rs can read every number.
use xorc_gateway.Base.{
  ◌≢◌, refl, none, Option-cases, inl, inr, List, [], ◌++◌, Text, Returns, Returns-and_then,
}
use xorc_gateway.Crates.{Casts, Number}
use xorc_gateway.Events.Event.{
  Value, null, boolean, number, string, array, object, Fields, end, field, Property, SdkEvent,
  number_as_f64, flatten_value, flatten_properties, properties, event_into,
}

-- Every number outside the arrays can be read as an `f64`.
unfoldable mutual
  pub HasNumbers : Value → Type 0
  HasNumbers null = Unit
  HasNumbers (boolean b) = Unit
  HasNumbers (number n) = n.as_f64 ≢ none
  HasNumbers (string s) = Unit
  HasNumbers (array items) = Unit
  HasNumbers (object map) = AllNumbers map

  pub AllNumbers : Fields → Type 0
  AllNumbers end = Unit
  AllNumbers (field key value rest) = HasNumbers value × AllNumbers rest

mutual
  unfolding HasNumbers AllNumbers

  HasNumbers-IsProp : (v : Value) → IsProp (HasNumbers v)
  HasNumbers-IsProp null = hlevel
  HasNumbers-IsProp (boolean b) = hlevel
  HasNumbers-IsProp (number n) = hlevel
  HasNumbers-IsProp (string s) = hlevel
  HasNumbers-IsProp (array items) = hlevel
  HasNumbers-IsProp (object map) = AllNumbers-IsProp map

  pub AllNumbers-IsProp : (fs : Fields) → IsProp (AllNumbers fs)
  AllNumbers-IsProp end = hlevel
  AllNumbers-IsProp (field key value rest) =
      hlevel (HasNumbers-IsProp value, AllNumbers-IsProp rest)

module _ (casts : Casts) where
  number_as_f64-Returns : (n : Number) → n.as_f64 ≢ none → Returns (number_as_f64 casts n)
  unfolding number_as_f64
  number_as_f64-Returns n h = elim (Option-cases n.as_i64) [
    | inr (i, signed) ↦ (casts.i64_as_f64 i, rw (number_as_f64, signed))
    | inl large ↦ elim (Option-cases n.as_u64) [
      | inr (i, unsigned) ↦ (casts.u64_as_f64 i, rw (number_as_f64, large, unsigned))
      | inl real ↦ elim (Option-cases n.as_f64) [
        | inr (x, float) ↦ (x, rw (number_as_f64, large, real, float))
        | inl unread ↦ absurd (h unread)
      ]
    ]
  ]

  mutual
    unfolding flatten_value flatten_properties HasNumbers AllNumbers

    flatten_value-Returns :
        (v : Value) (prefix key : Text) (container : List Property)
        → HasNumbers v
        → Returns (flatten_value casts v prefix key container)
    flatten_value-Returns null prefix key container h = (_, refl)
    flatten_value-Returns (boolean b) prefix key container h = (_, refl)
    flatten_value-Returns (number n) prefix key container h =
        Returns-and_then _ _ (number_as_f64-Returns n h) (λ x. (_, refl))
    flatten_value-Returns (string s) prefix key container h = (_, refl)
    flatten_value-Returns (array items) prefix key container h = (_, refl)
    flatten_value-Returns (object map) prefix key container h =
        flatten_properties-Returns map _ container h

    flatten_properties-Returns :
        (fs : Fields) (prefix : Text) (container : List Property)
        → AllNumbers fs
        → Returns (flatten_properties casts fs prefix container)
    flatten_properties-Returns end prefix container h = (_, refl)
    flatten_properties-Returns (field key value rest) prefix container (h, hs) =
        Returns-and_then _ _ (flatten_value-Returns value prefix (prefix ++ key) container h)
          (λ ps. flatten_properties-Returns rest prefix ps hs)

  pub event_into-Returns : (e : SdkEvent) → AllNumbers e.properties → Returns (event_into casts e)
  unfolding event_into properties
  event_into-Returns e h =
      Returns-and_then _ _ (flatten_properties-Returns e.properties [] [] h) (λ ps. (_, refl))
