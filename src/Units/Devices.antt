-- ===== src/Units/Devices.antt =====
-- The unit tests of src/events/input/sdk_device.rs.
use xorc_gateway.Base.{
  Bool, false, Option, none, some, List, [], ◌∷◌, Text, text, ◌==◌, text_eq, is_none, pos, negsuc,
  ◌&&◌, if◌then◌else◌,
}
use xorc_gateway.Crates.{Network}
use xorc_gateway.Crates.Samples.{plain_base64}
use xorc_gateway.Events.Device.{device_into, set_location}
use xorc_gateway.Events.Event.{string, object, end, field}
use xorc_gateway.Events.Json.Structs.{decode_device}
use xorc_gateway.Units.Assertions.{check, is_text, is_int, is_bool, json_number}

abbrev find_text : Text → List (Text × Text) → Option Text
find_text s [] = none
find_text s ((t, value) ∷ entries) = if t == s then some value else find_text s entries

abbrev pub test_no_language_or_local_set : Bool
test_no_language_or_local_set =
    check (decode_device (object end))
      λ device. let proto = device_into device in is_none proto.language

abbrev pub test_no_language_or_locale_set : Bool
test_no_language_or_locale_set =
    check (decode_device (object end))
      λ device. let proto = device_into device in is_none proto.language

abbrev pub test_language_set : Bool
test_language_set =
    check (decode_device (object (field (text "language") (string (text "fi")) end)))
      λ device. let proto = device_into device in is_text proto.language (text "fi")

abbrev pub test_locale_set : Bool
test_locale_set =
    check (decode_device (object (field (text "locale") (string (text "fi_FI")) end)))
      λ device. let proto = device_into device in is_text proto.language (text "fi")

abbrev pub test_broken_locale_set : Bool
test_broken_locale_set =
    check (decode_device (object (field (text "locale") (string (text "kulli")) end)))
      λ device. let proto = device_into device in is_none proto.language

abbrev pub test_no_h_set : Bool
test_no_h_set =
    check (decode_device (object end))
      λ device. let proto = device_into device in is_int proto.h (negsuc 0)

abbrev pub test_h_set : Bool
test_h_set =
    check (decode_device (object (field (text "h") (json_number 420 none) end)))
      λ device. let proto = device_into device in is_int proto.h (pos 420)

abbrev pub test_no_w_set : Bool
test_no_w_set =
    check (decode_device (object end))
      λ device. let proto = device_into device in is_int proto.w (negsuc 0)

abbrev pub test_w_set : Bool
test_w_set =
    check (decode_device (object (field (text "w") (json_number 715517 none) end)))
      λ device. let proto = device_into device in is_int proto.w (pos 715517)

abbrev pub test_no_ifa_tracking_enabled_set : Bool
test_no_ifa_tracking_enabled_set =
    check (decode_device (object end))
      λ device. let proto = device_into device in is_bool proto.ifa_tracking_enabled false

abbrev pub test_no_notification_registered_set : Bool
test_no_notification_registered_set =
    check (decode_device (object end))
      λ device. let proto = device_into device in is_bool proto.notification_registered false

abbrev pub test_no_os_name_set : Bool
test_no_os_name_set =
    check (decode_device (object end))
      λ device. let proto = device_into device in is_text proto.platform []

abbrev pub test_os_name_ios : Bool
test_os_name_ios =
    check (decode_device (object (field (text "os_name") (string (text "iOS")) end)))
      λ device. let proto = device_into device in is_text proto.platform (text "ios")

abbrev pub test_os_name_iphone_os : Bool
test_os_name_iphone_os =
    check (decode_device (object (field (text "os_name") (string (text "iPhone OS")) end)))
      λ device. let proto = device_into device in is_text proto.platform (text "ios")

abbrev pub test_os_name_android : Bool
test_os_name_android =
    check (decode_device (object (field (text "os_name") (string (text "Android")) end)))
      λ device. let proto = device_into device in is_text proto.platform (text "android")

abbrev pub test_platform_web : Bool
test_platform_web =
    check (decode_device (object (field (text "platform") (string (text "web")) end)))
      λ device. let proto = device_into device in is_text proto.platform (text "web")

-- The digests, in base64, and the countries that the tests of locations expect.
abbrev digests : List (Text × Text)
digests =
    (
      text "109.68.226.154",
      text
          "KOx83wHFu0JCTyitEEfU0+J0GWN5OxtXgMeIzDUinonr8ya0IY5VyYtrbDu8tRlBSo/a1T70lQ3uYcnSRYiR8w==",
    )
    ∷ (
      text "2001:4860:4860::8844",
      text
          "WlYX3LhjGXz3WRjP6V9dzs33shbfQhI+uFug7ft+W7VzzEgQPr6aMQxKn4yI7FF6MFiii+3OI2O0i9niN2Zt+g==",
    )
    ∷ (
      text "127.0.0.1",
      text
          "+s8vULlRmH7/43pUpb2l4/B+olwJ9HPFLWgvsG+FJPw2qdR+UzgO1BuBGBMIQ61PjS6yHj6En9SaLUB1M6rXog==",
    )
    ∷ (
      text "::1",
      text
          "iJYy4kyl+U+iXvriFVHa8S+fPnIwlSFwd6BiESUmVwpQA2/EiUZCwGRPtETJj2d89wr9svyy7S4E0Lb9mnER6w==",
    )
    ∷ []

abbrev countries : List (Text × Text)
countries = (text "109.68.226.154", text "DE") ∷ (text "2001:4860:4860::8844", text "US") ∷ []

abbrev network : Network
network = record {
  parse_ip = λ s. some (record { display = s });
  lookup_country = λ ip. find_text ip.display countries;
  blake2b = λ s. elim (find_text s digests) [ none ↦ [] | some digest ↦ digest ];
}

abbrev pub test_set_real_location_ipv4 : Bool
test_set_real_location_ipv4 =
    check (decode_device (object (field (text "platform") (string (text "web")) end))) λ device.
      check (network.parse_ip (text "109.68.226.154")) λ ip_addr.
        let proto = device_into (set_location plain_base64 network ip_addr device) in
        is_text proto.ip_hashed_blake2 (
          text
            "KOx83wHFu0JCTyitEEfU0+J0GWN5OxtXgMeIzDUinonr8ya0IY5VyYtrbDu8tRlBSo/a1T70lQ3uYcnSRYiR8w==")
        && is_text proto.country (text "DE")

abbrev pub test_set_real_location_ipv6 : Bool
test_set_real_location_ipv6 =
    check (decode_device (object (field (text "platform") (string (text "web")) end))) λ device.
      check (network.parse_ip (text "2001:4860:4860::8844")) λ ip_addr.
        let proto = device_into (set_location plain_base64 network ip_addr device) in
        is_text proto.ip_hashed_blake2 (
          text
            "WlYX3LhjGXz3WRjP6V9dzs33shbfQhI+uFug7ft+W7VzzEgQPr6aMQxKn4yI7FF6MFiii+3OI2O0i9niN2Zt+g==")
        && is_text proto.country (text "US")

abbrev pub test_set_local_ipv4 : Bool
test_set_local_ipv4 =
    check (decode_device (object (field (text "platform") (string (text "web")) end))) λ device.
      check (network.parse_ip (text "127.0.0.1")) λ ip_addr.
        let proto = device_into (set_location plain_base64 network ip_addr device) in
        is_text proto.ip_hashed_blake2 (
          text
            "+s8vULlRmH7/43pUpb2l4/B+olwJ9HPFLWgvsG+FJPw2qdR+UzgO1BuBGBMIQ61PjS6yHj6En9SaLUB1M6rXog==")
        && is_none proto.country

abbrev pub test_set_local_ipv6 : Bool
test_set_local_ipv6 =
    check (decode_device (object (field (text "platform") (string (text "web")) end))) λ device.
      check (network.parse_ip (text "::1")) λ ip_addr.
        let proto = device_into (set_location plain_base64 network ip_addr device) in
        is_text proto.ip_hashed_blake2 (
          text
            "iJYy4kyl+U+iXvriFVHa8S+fPnIwlSFwd6BiESUmVwpQA2/EiUZCwGRPtETJj2d89wr9svyy7S4E0Lb9mnER6w==")
        && is_none proto.country
