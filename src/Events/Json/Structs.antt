-- ===== src/Events/Json/Structs.antt =====
-- The structs of src/events/input, read from a JSON document.
use xorc_gateway.Base.{ℕ, false, Option, none, some, List, [], ◌∷◌, text, text_eq}
use xorc_gateway.Events.Batch.{SdkEventBatch}
use xorc_gateway.Events.Device.{SdkDevice}
use xorc_gateway.Events.Environment.{SdkEnvironment}
use xorc_gateway.Events.Event.{
  SdkEvent, Value, array, Items, nil, cons, end, default_event_id, from_str,
}
use xorc_gateway.Events.Json.{
  ◌>>=◌, slot, check_length, required, optional, defaulted, read_text, read_bool, read_i32,
  read_map,
}

-- `deserialize_with = "from_str"` at the type of the timestamp: a text, read as a number.
unfoldable pub read_timestamp : Value → Option ℕ
unfolding from_str
read_timestamp v = do s ← read_text v; from_str s

-- `SDKEnvironment`
unfoldable pub decode_environment : Value → Option SdkEnvironment
unfolding check_length slot optional defaulted
decode_environment v = do
  _ ← check_length 5 v
  sdk_version ← slot v (text "sdk_version") 0 >>= optional read_text
  app_version ← slot v (text "app_version") 1 >>= optional read_text
  app_store_id ← slot v (text "app_store_id") 2 >>= optional read_text
  app_id ← slot v (text "app_id") 3 >>= defaulted [] read_text
  app_instance_id ← slot v (text "app_instance_id") 4 >>= optional read_text
  some (record {
    sdk_version = sdk_version;
    app_version = app_version;
    app_store_id = app_store_id;
    app_id = app_id;
    app_instance_id = app_instance_id;
  })

-- `SDKDevice`
unfoldable pub decode_device : Value → Option SdkDevice
unfolding check_length slot optional defaulted read_i32
decode_device v = do
  _ ← check_length 25 v
  ifa_tracking_enabled ← slot v (text "ifa_tracking_enabled") 0 >>= defaulted false read_bool
  notification_registered ← slot v (text "notification_registered") 1 >>= defaulted false read_bool
  h ← slot v (text "h") 2 >>= optional read_i32
  w ← slot v (text "w") 3 >>= optional read_i32
  locale ← slot v (text "locale") 4 >>= optional read_text
  language ← slot v (text "language") 5 >>= optional read_text
  time_zone ← slot v (text "time_zone") 6 >>= optional read_text
  manufacturer ← slot v (text "manufacturer") 7 >>= optional read_text
  model ← slot v (text "model") 8 >>= optional read_text
  os_version ← slot v (text "os_version") 9 >>= optional read_text
  os_name ← slot v (text "os_name") 10 >>= optional read_text
  network_connection_type ← slot v (text "network_connection_type") 11 >>= optional read_text
  device_name ← slot v (text "device_name") 12 >>= optional read_text
  ifa ← slot v (text "ifa") 13 >>= optional read_text
  idfv ← slot v (text "idfv") 14 >>= optional read_text
  carrier_name ← slot v (text "carrier_name") 15 >>= optional read_text
  carrier_country ← slot v (text "carrier_country") 16 >>= optional read_text
  browser_name ← slot v (text "browser_name") 17 >>= optional read_text
  browser_version ← slot v (text "browser_version") 18 >>= optional read_text
  browser_ua ← slot v (text "browser_ua") 19 >>= optional read_text
  notification_types ← slot v (text "notification_types") 20 >>= optional read_i32
  orientation ← slot v (text "orientation") 21 >>= optional read_text
  platform ← slot v (text "platform") 22 >>= optional read_text
  ip_hashed_blake2 ← slot v (text "ip_hashed_blake2") 23 >>= optional read_text
  country ← slot v (text "country") 24 >>= optional read_text
  some (record {
    ifa_tracking_enabled = ifa_tracking_enabled;
    notification_registered = notification_registered;
    h = h;
    w = w;
    locale = locale;
    language = language;
    time_zone = time_zone;
    manufacturer = manufacturer;
    model = model;
    os_version = os_version;
    os_name = os_name;
    network_connection_type = network_connection_type;
    device_name = device_name;
    ifa = ifa;
    idfv = idfv;
    carrier_name = carrier_name;
    carrier_country = carrier_country;
    browser_name = browser_name;
    browser_version = browser_version;
    browser_ua = browser_ua;
    notification_types = notification_types;
    orientation = orientation;
    platform = platform;
    ip_hashed_blake2 = ip_hashed_blake2;
    country = country;
  })

-- `SDKEvent`
unfoldable pub decode_event : Value → Option SdkEvent
unfolding check_length slot required optional defaulted read_map read_timestamp
decode_event v = do
  _ ← check_length 7 v
  id ← slot v (text "id") 0 >>= defaulted default_event_id read_text
  timestamp ← slot v (text "timestamp") 1 >>= required read_timestamp
  name ← slot v (text "name") 2 >>= required read_text
  properties ← slot v (text "properties") 3 >>= defaulted end read_map
  session_id ← slot v (text "session_id") 4 >>= optional read_text
  external_user_id ← slot v (text "external_user_id") 5 >>= optional read_text
  reference_id ← slot v (text "reference_id") 6 >>= optional read_text
  some (record {
    id = id;
    timestamp = timestamp;
    name = name;
    properties = properties;
    session_id = session_id;
    external_user_id = external_user_id;
    reference_id = reference_id;
  })

-- `Vec<SDKEvent>`
unfoldable pub read_items : Items → Option (List SdkEvent)
unfolding decode_event
read_items nil = some []
read_items (cons v items) = do e ← decode_event v; es ← read_items items; some (e ∷ es)

unfoldable pub read_events : Value → Option (List SdkEvent)
unfolding read_items
read_events (array items) = read_items items
read_events _ = none

-- `SDKEventBatch`
unfoldable pub decode_batch : Value → Option SdkEventBatch
unfolding check_length slot required optional decode_environment decode_device read_events
decode_batch v = do
  _ ← check_length 4 v
  environment ← slot v (text "environment") 0 >>= required decode_environment
  events ← slot v (text "events") 1 >>= required read_events
  device ← slot v (text "device") 2 >>= required decode_device
  recipient_id ← slot v (text "recipient_id") 3 >>= optional read_text
  some (record {
    environment = environment;
    events = events;
    device = device;
    recipient_id = recipient_id;
  })
