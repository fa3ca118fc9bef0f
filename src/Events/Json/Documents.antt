-- ===== src/Events/Json/Documents.antt =====
-- JSON documents for the structs of src/events/input, with every field by its name.
use xorc_gateway.Base.{Option, none, some, List, [], ◌∷◌, Text, text, text_eq, ℤ, pos, negsuc, ℕ_eq}
use xorc_gateway.Crates.{F64}
use xorc_gateway.Events.Batch.{SdkEventBatch}
use xorc_gateway.Events.Device.{SdkDevice}
use xorc_gateway.Events.Environment.{SdkEnvironment}
use xorc_gateway.Events.Event.{
  SdkEvent, Value, null, boolean, number, string, array, object, Items, nil, cons, end, field,
}
use xorc_gateway.Events.Timestamp.{u64_to_text}

-- Texts and integers that may be missing. A number's `f64` is not read.
abbrev pub opt_text : Option Text → Value
opt_text none = null
opt_text (some t) = string t

abbrev integer : (ℤ → Option F64) → ℤ → Value
integer f (pos n) = number (record { as_i64 = some (pos n); as_u64 = some n; as_f64 = f (pos n) })
integer f (negsuc n) =
    number (record { as_i64 = some (negsuc n); as_u64 = none; as_f64 = f (negsuc n) })

abbrev pub opt_int : (ℤ → Option F64) → Option ℤ → Value
opt_int f none = null
opt_int f (some i) = integer f i

abbrev pub environment_value : SdkEnvironment → Value
environment_value e = object (
    field (text "sdk_version") (opt_text e.sdk_version) (
      field (text "app_version") (opt_text e.app_version) (
        field (text "app_store_id") (opt_text e.app_store_id) (
          field (text "app_id") (string e.app_id)
            (field (text "app_instance_id") (opt_text e.app_instance_id) (end))))))

abbrev pub device_value : (ℤ → Option F64) → SdkDevice → Value
device_value f d = object (
    field (text "ifa_tracking_enabled") (boolean d.ifa_tracking_enabled) (
      field (text "notification_registered") (boolean d.notification_registered) (
        field (text "h") (opt_int f d.h) (
          field (text "w") (opt_int f d.w) (
            field (text "locale") (opt_text d.locale) (
              field (text "language") (opt_text d.language) (
                field (text "time_zone") (opt_text d.time_zone) (
                  field (text "manufacturer") (opt_text d.manufacturer) (
                    field (text "model") (opt_text d.model) (
                      field (text "os_version") (opt_text d.os_version) (
                        field (text "os_name") (opt_text d.os_name) (
                          field (text "network_connection_type")
                            (opt_text d.network_connection_type)
                            (field (text "device_name") (opt_text d.device_name) (
                              field (text "ifa") (opt_text d.ifa) (
                                field (text "idfv") (opt_text d.idfv) (
                                  field (text "carrier_name") (opt_text d.carrier_name) (
                                    field (text "carrier_country") (opt_text d.carrier_country) (
                                      field (text "browser_name") (opt_text d.browser_name) (
                                        field (text "browser_version") (opt_text d.browser_version)
                                          (field (text "browser_ua") (opt_text d.browser_ua) (
                                            field (text "notification_types")
                                              (opt_int f d.notification_types)
                                              (field (text "orientation") (opt_text d.orientation) (
                                                field (text "platform") (opt_text d.platform) (
                                                  field (text "ip_hashed_blake2")
                                                    (opt_text d.ip_hashed_blake2)
                                                    (field (text "country") (opt_text d.country)
                                                      (end))))))))))))))))))))))))))

abbrev pub event_value : SdkEvent → Value
event_value e = object (
    field (text "id") (string e.id) (
      field (text "timestamp") (string (u64_to_text e.timestamp)) (
        field (text "name") (string e.name) (
          field (text "properties") (object e.properties) (
            field (text "session_id") (opt_text e.session_id) (
              field (text "external_user_id") (opt_text e.external_user_id)
                (field (text "reference_id") (opt_text e.reference_id) (end))))))))

abbrev pub event_items : List SdkEvent → Items
event_items [] = nil
event_items (e ∷ es) = cons (event_value e) (event_items es)

abbrev pub batch_value : (ℤ → Option F64) → SdkEventBatch → Value
batch_value f b = object (
    field (text "environment") (environment_value b.environment) (
      field (text "events") (array (event_items b.events)) (
        field (text "device") (device_value f b.device)
          (field (text "recipient_id") (opt_text b.recipient_id) (end)))))
