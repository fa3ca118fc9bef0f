-- ===== src/Units/Events.antt =====
-- The unit tests of src/events/input/sdk_event.rs and of src/events/input/sdk_event_batch.rs.
use xorc_gateway.Base.{
  ℕ, Bool, true, false, none, List, [], ◌∷◌, Text, text, ◌==◌, text_eq, ℕ_eq, is_none, pos, negsuc,
  ◌&&◌,
}
use xorc_gateway.Context.{new_context}
use xorc_gateway.Crates.{Casts}
use xorc_gateway.Crates.Samples.{plain_http, plain_network}
use xorc_gateway.Events.Batch.{into_proto}
use xorc_gateway.Events.Device.{ios}
use xorc_gateway.Events.Event.{
  Value, boolean, string, array, object, nil, Fields, end, field, Property, PropertyType,
  string_value, bool_value, number_value, event_into,
}
use xorc_gateway.Events.Json.Structs.{decode_event, decode_batch}
use xorc_gateway.Samples.Requests.{crypto, translation}
use xorc_gateway.Units.Assertions.{check, returns, is_text, header_map, json_number}

-- The casts to floats; here a float is the integer that it stands for.
abbrev casts : Casts
casts = record { i64_as_f64 = λ i. elim i [ pos n ↦ n | negsuc n ↦ 0 ]; u64_as_f64 = λ n. n }

abbrev test_event : Fields → Value
test_event properties = object (
    field (text "timestamp") (string (text "1527092525607")) (
      field (text "name") (string (text "test_event"))
        (field (text "properties") (object properties) end)))

abbrev is_empty {ℓ} : {A : Type ℓ} → List A → Bool
is_empty [] = true
is_empty (a ∷ as') = false

-- The first property has the key, and its value passes.
abbrev first_is : Text → (PropertyType → Bool) → List Property → Bool
first_is key asserts [] = false
first_is key asserts (p ∷ ps) = p.key == key && check p.type_ asserts

abbrev is_string : PropertyType → Text → Bool
is_string (string_value s) t = s == t
is_string _ t = false

abbrev is_number : PropertyType → ℕ → Bool
is_number (number_value x) n = x == n
is_number _ n = false

abbrev is_true : PropertyType → Bool
is_true (bool_value b) = b
is_true _ = false

abbrev pub test_required_properties : Bool
test_required_properties = check (decode_event (test_event (end))) λ event.
    event.timestamp == 1527092525607
    && (returns (event_into casts event) λ proto.
        is_empty proto.properties
        && (is_text proto.name (text "test_event")
            && is_text proto.timestamp (text "1527092525607")))

abbrev pub test_with_string_property : Bool
test_with_string_property =
    check (decode_event (test_event (field (text "foo") (string (text "bar")) end))) λ event.
      returns (event_into casts event)
        λ proto. first_is (text "foo") (λ t. is_string t (text "bar")) proto.properties

abbrev pub test_with_number_property : Bool
test_with_number_property =
    check (decode_event (test_event (field (text "foo") (json_number 420 none) end))) λ event.
      returns (event_into casts event)
        λ proto. first_is (text "foo") (λ t. is_number t 420) proto.properties

abbrev pub test_with_bool_property : Bool
test_with_bool_property =
    check (decode_event (test_event (field (text "foo") (boolean true) end))) λ event.
      returns (event_into casts event) λ proto. first_is (text "foo") is_true proto.properties

abbrev pub test_with_object_property : Bool
test_with_object_property =
    check
      (decode_event (
        test_event
          (field (text "foo") (object (field (text "bar") (string (text "lol")) end)) end)))
      λ event.
        returns (event_into casts event)
          λ proto. first_is (text "foo__bar") (λ t. is_string t (text "lol")) proto.properties

abbrev pub test_with_environment_app_id : Bool
test_with_environment_app_id =
    check
      (decode_batch (
        object (
          field (text "environment") (object (field (text "app_id") (string (text "420")) end))
            (field (text "device") (object end) (field (text "events") (array nil) end)))))
      λ batch.
        returns (new_context crypto plain_http plain_network (header_map []) (text "123") ios)
          λ context. returns (into_proto translation (pos 0) batch context) λ proto.
            check proto.device λ device.
              text "420" == proto.header.source
              && (is_none device.country
                  && (is_none device.ip_hashed_blake2 && is_none proto.header.recipient_id))
