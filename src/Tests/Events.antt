-- ===== src/Tests/Events.antt =====
-- src/events/input/*.rs on small inputs.
use mathlib.Core.List.{Perm}
use xorc_gateway.Base.{
  ◌≡◌, ◌≤◌, ◌<◌, ◌^◌, ◌↔◌, ◌++◌, refl, ◌∷◌, [], List, arith, Text, text, returned, Returns, some,
  none, text_eq, ℕ_eq, pos,
}
use xorc_gateway.Crates.Samples.{plain_casts}
use xorc_gateway.Events.Batch.{into_proto}
use xorc_gateway.Events.Batch.Order.{Ordered, Translated, into_proto-Ordered}
use xorc_gateway.Events.Batch.Totality.{into_proto-Returns}
use xorc_gateway.Events.Device.{language_of, platform, device_into}
use xorc_gateway.Events.Device.Languages.{IsFree, language_of_iff}
use xorc_gateway.Events.Device.Platforms.{platform-device_into}
use xorc_gateway.Events.Event.{
  from_str, SdkEventData, event_into, SdkEvent, properties, flatten_properties, string_value,
}
use xorc_gateway.Events.Event.Keys.{nest, join_keys, properties-nest_iff}
use xorc_gateway.Events.Event.Leaves.{key_for, leaves, emit_all, properties-emit_all}
use xorc_gateway.Events.Event.Numbers.{HasNumbers, AllNumbers}
use xorc_gateway.Events.Timestamp.{u64_to_text, u64_from_str}
use xorc_gateway.Events.Event.Times.{from_str-event_into, from_str-lt}
use xorc_gateway.Samples.Requests.{translation, context_for, plain_batch, device, opened}
use xorc_gateway.Samples.Sorting.{insertion_sorter-IsSorter}

properties-emit_all_example :
    properties plain_casts opened ≡ emit_all plain_casts (key_for []) (leaves opened.properties)
properties-emit_all_example = properties-emit_all plain_casts opened

-- A path of three keys gets the key of the two before it twice.
nested :
    properties plain_casts
      (record opened { properties = nest (text "a") (text "b" ∷ text "c" ∷ []) (text "x") })
    ≡ returned (record { key = text "a__a__b__c"; type_ = some (string_value (text "x")) } ∷ [])
unfolding properties flatten_properties
nested = refl

properties-nest_iff_example :
    (properties plain_casts
        (record opened { properties = nest (text "a") (text "b" ∷ text "c" ∷ []) (text "x") })
      ≡ returned (
          record {
            key = join_keys (text "a" ∷ text "b" ∷ text "c" ∷ []);
            type_ = some (string_value (text "x"));
          }
          ∷ []))
    ↔ (3 ≤ 2)
properties-nest_iff_example =
    properties-nest_iff plain_casts opened (text "a") (text "b" ∷ text "c" ∷ []) (text "x")

numbers : AllNumbers opened.properties
unfolding HasNumbers AllNumbers
numbers = ((tt, tt), tt)

into_proto-Returns_example :
    Returns (into_proto translation (pos 1000) plain_batch (context_for (text "plain")))
into_proto-Returns_example =
    into_proto-Returns translation insertion_sorter-IsSorter (pos 1000) plain_batch
      (context_for (text "plain")) (numbers, (numbers, tt))

abbrev made : Returns (into_proto translation (pos 1000) plain_batch (context_for (text "plain")))
made =
    into_proto-Returns translation insertion_sorter-IsSorter (pos 1000) plain_batch
      (context_for (text "plain")) (numbers, (numbers, tt))

into_proto-Ordered_example :
    (es : List SdkEvent) × Perm es plain_batch.events
    × Ordered es
    × Translated plain_casts es made.0.event
into_proto-Ordered_example =
    into_proto-Ordered translation insertion_sorter-IsSorter (pos 1000) plain_batch
      (context_for (text "plain")) made.0 made.1

abbrev translated : SdkEventData
translated = record {
  properties = record { key = text "a__b"; type_ = some (string_value (text "c")) } ∷ [];
  id = some (text "1");
  session_id = none;
  timestamp = some (text "20");
  name = some (text "app_open");
  external_user_id = none;
  reference_id = none;
}

translates : event_into plain_casts opened ≡ returned translated
unfolding event_into properties flatten_properties u64_to_text ℕ_eq
translates = refl

from_str-event_into_sample : (s : Text) × (some (text "20") ≡ some s) × (from_str s ≡ some 20)
from_str-event_into_sample =
    from_str-event_into plain_casts opened translated (omega arith) translates

reads_42 : from_str (text "+42") ≡ some 42
unfolding from_str u64_from_str ℕ_eq
reads_42 = refl

from_str-lt_sample : 42 < 2 ^ 64
from_str-lt_sample = from_str-lt (text "+42") 42 reads_42

language_of_iff_sample :
    (language_of none (some (text "de_DE")) ≡ some (text "de"))
    ↔ ((rest : Text) × (text "de_DE" ≡ text "de" ++ b'_' ∷ rest) × IsFree b'_' (text "de"))
language_of_iff_sample = language_of_iff (text "de_DE") (text "de")

platform-device_into_sample :
    platform (record device { platform = (device_into device).platform }) ≡ platform device
platform-device_into_sample = platform-device_into device
