-- ===== src/Events/Json/RoundTrip.antt =====
-- What src/events/input reads from a document for a batch.
use xorc_gateway.Base.{
  ℕ, ◌^◌, ◌<◌, Bool, false, ◌≡◌, refl, ap, Option, none, some, List, [], ◌∷◌, All, Text, text_eq,
  Text-discrete, ℤ, pos, negsuc, arith, ℕ_discrete, ℕ_eq,
}
use xorc_gateway.Crates.{F64}
use xorc_gateway.Events.Batch.{SdkEventBatch}
use xorc_gateway.Events.Device.{SdkDevice}
use xorc_gateway.Events.Environment.{SdkEnvironment}
use xorc_gateway.Events.Event.{
  SdkEvent, from_str, Value, boolean, string, array, object, Fields, end,
}
use xorc_gateway.Events.Json.{
  ◌>>=◌, present, slot, field_slot, has_key, check_length, required, optional, defaulted, read_text,
  read_bool, read_i32, read_map, collect,
}
use xorc_gateway.Events.Json.Bounds.{IsI32, IsTimed, IsSized, IsBounded}
use xorc_gateway.Events.Json.Steps.{goes_on}
use xorc_gateway.Events.Json.Structs.{
  read_timestamp, decode_environment, decode_device, decode_event, read_items, read_events,
  decode_batch,
}
use xorc_gateway.Events.Timestamp.{u64_to_text}
use xorc_gateway.Events.Timestamp.RoundTrip.{u64_from_str-u64_to_text}
use xorc_gateway.Events.Json.Documents.{
  opt_text, opt_int, environment_value, device_value, event_value, event_items, batch_value,
}

optional_text : (t : Option Text) → (some (present (opt_text t)) >>= optional read_text) ≡ some t
unfolding ◌>>=◌ optional
optional_text none = refl
optional_text (some t) = refl

optional_int :
    (f : ℤ → Option F64) (i : Option ℤ)
    → IsI32 i
    → (some (present (opt_int f i)) >>= optional read_i32) ≡ some i
unfolding ◌>>=◌ optional read_i32
optional_int f none h = refl
optional_int f (some (pos n)) h = ground arith
optional_int f (some (negsuc n)) h = ground arith

timestamp_read :
    (n : ℕ)
    → n < 2 ^ 64
    → (some (present (string (u64_to_text n))) >>= required read_timestamp) ≡ some n
unfolding ◌>>=◌ required read_timestamp from_str
timestamp_read n h = u64_from_str-u64_to_text n h

defaulted_bool : (b : Bool) → (some (present (boolean b)) >>= defaulted false read_bool) ≡ some b
unfolding ◌>>=◌ defaulted
defaulted_bool b = refl

defaulted_text : (d t : Text) → (some (present (string t)) >>= defaulted d read_text) ≡ some t
unfolding ◌>>=◌ defaulted
defaulted_text d t = refl

required_text : (t : Text) → (some (present (string t)) >>= required read_text) ≡ some t
unfolding ◌>>=◌ required
required_text t = refl

-- The entries are those of a `Map`: each key once, in order, and so in every object below.
abbrev pub IsMap : Fields → Type 0
IsMap fs = collect fs end ≡ fs

map_read :
    (fs : Fields) → IsMap fs → (some (present (object fs)) >>= defaulted end read_map) ≡ some fs
unfolding ◌>>=◌ defaulted read_map
map_read fs h = ap some h

decode_environment-environment_value :
    (e : SdkEnvironment) → decode_environment (environment_value e) ≡ some e
unfolding decode_environment check_length slot field_slot has_key text_eq Text-discrete ℕ_discrete
    ℕ_eq
decode_environment-environment_value e = goes_on _ refl (
    goes_on _ (optional_text e.sdk_version) (
      goes_on _ (optional_text e.app_version) (
        goes_on _ (optional_text e.app_store_id) (
          goes_on _ (defaulted_text [] e.app_id)
            (goes_on _ (optional_text e.app_instance_id) (refl))))))

decode_device-device_value :
    (f : ℤ → Option F64) (d : SdkDevice) → IsSized d → decode_device (device_value f d) ≡ some d
unfolding decode_device check_length slot field_slot has_key text_eq Text-discrete ℕ_discrete ℕ_eq
decode_device-device_value f d sized = goes_on _ refl (
    goes_on _ (defaulted_bool d.ifa_tracking_enabled) (
      goes_on _ (defaulted_bool d.notification_registered) (
        goes_on _ (optional_int f d.h sized.0) (
          goes_on _ (optional_int f d.w sized.1) (
            goes_on _ (optional_text d.locale) (
              goes_on _ (optional_text d.language) (
                goes_on _ (optional_text d.time_zone) (
                  goes_on _ (optional_text d.manufacturer) (
                    goes_on _ (optional_text d.model) (
                      goes_on _ (optional_text d.os_version) (
                        goes_on _ (optional_text d.os_name) (
                          goes_on _ (optional_text d.network_connection_type) (
                            goes_on _ (optional_text d.device_name) (
                              goes_on _ (optional_text d.ifa) (
                                goes_on _ (optional_text d.idfv) (
                                  goes_on _ (optional_text d.carrier_name) (
                                    goes_on _ (optional_text d.carrier_country) (
                                      goes_on _ (optional_text d.browser_name) (
                                        goes_on _ (optional_text d.browser_version) (
                                          goes_on _ (optional_text d.browser_ua) (
                                            goes_on _ (optional_int f d.notification_types sized.2)
                                              (goes_on _ (optional_text d.orientation) (
                                                goes_on _ (optional_text d.platform) (
                                                  goes_on _ (optional_text d.ip_hashed_blake2) (
                                                    goes_on _ (optional_text d.country)
                                                      (refl))))))))))))))))))))))))))

decode_event-event_value :
    (e : SdkEvent) → IsTimed e → IsMap e.properties → decode_event (event_value e) ≡ some e
unfolding decode_event check_length slot field_slot has_key text_eq Text-discrete ℕ_discrete ℕ_eq
decode_event-event_value e timed is_map = goes_on _ refl (
    goes_on _ (defaulted_text _ e.id) (
      goes_on _ (timestamp_read e.timestamp timed) (
        goes_on _ (required_text e.name) (
          goes_on _ (map_read e.properties is_map) (
            goes_on _ (optional_text e.session_id) (
              goes_on _ (optional_text e.external_user_id)
                (goes_on _ (optional_text e.reference_id) (refl))))))))

required_struct :
    {A : Type 0} (read : Value → Option A) (v : Value) {a : A}
    → read v ≡ some a
    → (some (present v) >>= required read) ≡ some a
unfolding ◌>>=◌ required
required_struct read v e = e

read_events-event_items :
    (es : List SdkEvent)
    → All IsTimed es
    → All (λ e. IsMap e.properties) es
    → read_events (array (event_items es)) ≡ some es
unfolding read_events read_items
read_events-event_items [] timed maps = refl
read_events-event_items (e ∷ es) (timed, rest) (is_map, maps) =
    goes_on _ (decode_event-event_value e timed is_map)
      (goes_on _ (read_events-event_items es rest maps) refl)

-- The JSON document that has a batch's fields by their names, its timestamps as decimal texts, and
-- null for what the batch does not have, is read as the batch, provided that its timestamps and
-- numbers are within their bounds and the properties of its events are maps.
pub decode_batch-batch_value :
    (f : ℤ → Option F64) (b : SdkEventBatch)
    → IsBounded b
    → All (λ e. IsMap e.properties) b.events
    → decode_batch (batch_value f b) ≡ some b
unfolding decode_batch check_length slot field_slot has_key text_eq Text-discrete ℕ_discrete ℕ_eq
decode_batch-batch_value f b (timed, sized) maps = goes_on _ refl (
    goes_on _ (required_struct _ _ (decode_environment-environment_value b.environment)) (
      goes_on _ (required_struct _ _ (read_events-event_items b.events timed maps)) (
        goes_on _ (required_struct _ _ (decode_device-device_value f b.device sized))
          (goes_on _ (optional_text b.recipient_id) (refl)))))
