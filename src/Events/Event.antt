-- ===== src/Events/Event.antt =====
-- src/events/input/sdk_event.rs: an event, and its properties flattened to a list.
pub mod Keys
pub mod Leaves
pub mod Numbers
pub mod Times
use xorc_gateway.Base.{
  ℕ, Bool, Option, none, some, List, [], ◌∷◌, ◌++◌, Text, text, ◌==◌, text_eq, Outcome, returned,
  panicked, and_then,
}
use xorc_gateway.Crates.{Casts, Number, F64}
use xorc_gateway.Events.Timestamp.{u64_to_text, u64_from_str}

-- `serde_json::Value`, with the entries of a `Map` in the order of its iteration.
mutual
  pub data Value : Type 0 where
    null : Value
    boolean : Bool → Value
    number : Number → Value
    string : Text → Value
    array : Items → Value
    object : Fields → Value

  pub data Items : Type 0 where
    nil : Items
    cons : Value → Items → Items

  pub data Fields : Type 0 where
    end : Fields
    field : Text → Value → Fields → Fields

-- `property::Type`
pub data PropertyType : Type 0 where
  string_value : Text → PropertyType
  bool_value : Bool → PropertyType
  number_value : F64 → PropertyType

-- `sdk_event_data::Property`
pub record Property : Type 0 where
  pub key : Text
  pub type_ : Option PropertyType

-- `SDKEvent`
pub record SdkEvent : Type 0 where
  pub id : Text
  pub timestamp : ℕ
  pub name : Text
  pub properties : Fields
  pub session_id : Option Text
  pub external_user_id : Option Text
  pub reference_id : Option Text

-- `SDKEvent::is_register`
unfoldable pub is_register : SdkEvent → Bool
is_register e = e.name == text "xorc_register"

-- `default_event_id`
abbrev pub default_event_id : Text
default_event_id = text "0"

-- `from_str`, at the type of the timestamp, on the text that the field holds.
unfoldable pub from_str : Text → Option ℕ
unfolding u64_from_str
from_str s = u64_from_str s

module _ (casts : Casts) where
  -- The number that a property carries; `n.as_f64().unwrap()` panics on `None`.
  unfoldable pub number_as_f64 : Number → Outcome F64
  number_as_f64 n = elim n.as_i64 [
    | some i ↦ returned (casts.i64_as_f64 i)
    | none ↦ elim n.as_u64 [
      | some i ↦ returned (casts.u64_as_f64 i)
      | none ↦ elim n.as_f64 [ some x ↦ returned x | none ↦ panicked ]
    ]
  ]

  -- The body of the loop of `flatten_properties`, by the kind of the value, for the prefix and the
  -- prefixed key. It returns `container` with what it pushes.
  unfoldable mutual
    pub flatten_value : Value → Text → Text → List Property → Outcome (List Property)
    flatten_value (string s) prefix prefixed_key container =
        returned (container ++ record { key = prefixed_key; type_ = some (string_value s) } ∷ [])
    flatten_value (boolean b) prefix prefixed_key container =
        returned (container ++ record { key = prefixed_key; type_ = some (bool_value b) } ∷ [])
    flatten_value (number n) prefix prefixed_key container = and_then (number_as_f64 n) λ p_value.
        returned
          (container ++ record { key = prefixed_key; type_ = some (number_value p_value) } ∷ [])
    flatten_value (object map) prefix prefixed_key container =
        flatten_properties map (prefix ++ (prefixed_key ++ text "__")) container
    flatten_value null prefix prefixed_key container = returned container
    flatten_value (array items) prefix prefixed_key container = returned container

    -- `SDKEvent::flatten_properties`
    pub flatten_properties : Fields → Text → List Property → Outcome (List Property)
    flatten_properties end prefix container = returned container
    flatten_properties (field key value rest) prefix container =
        and_then (flatten_value value prefix (prefix ++ key) container)
          (flatten_properties rest prefix)

  -- `SDKEvent::properties`
  unfoldable pub properties : SdkEvent → Outcome (List Property)
  unfolding flatten_properties
  properties e = flatten_properties e.properties [] []

-- `output::events::SdkEventData`, with the fields that the source sets.
pub record SdkEventData : Type 0 where
  pub properties : List Property
  pub id : Option Text
  pub session_id : Option Text
  pub timestamp : Option Text
  pub name : Option Text
  pub external_user_id : Option Text
  pub reference_id : Option Text

-- `SDKEvent::into`
unfoldable pub event_into : Casts → SdkEvent → Outcome SdkEventData
unfolding properties u64_to_text
event_into casts e = and_then (properties casts e) λ ps. returned (record {
  properties = ps;
  id = some e.id;
  session_id = e.session_id;
  timestamp = some (u64_to_text e.timestamp);
  name = some e.name;
  external_user_id = e.external_user_id;
  reference_id = e.reference_id;
})
