-- ===== src/Units/Passing.antt =====
-- The unit tests of src pass on the model.
use xorc_gateway.Base.{
  ◌≡◌, refl, true, Bool, [], ◌∷◌, All, text_eq, Text-discrete, ℕ_eq, ℕ_discrete,
}
use xorc_gateway.Base.Dict.{lookup, insert}
use xorc_gateway.AppRegistry.{
  create_app, secret_key, create_key, load_test_apps, validate, platform_key,
}
use xorc_gateway.AppRegistry.Updates.{new_registry}
use xorc_gateway.Context.{new_context, get_value, read_device_id}
use xorc_gateway.Encryption.{decrypt}
use xorc_gateway.Cors.{
  new_cors, response_builder_wildcard, response_builder_origin, allowed_lists, set_header,
  valid_origin, origin_headers, contains,
}
use xorc_gateway.Events.Batch.{into_proto, events_into}
use xorc_gateway.Events.Device.{
  device_into, platform, platform_of, platform_of_os, platform_text, language_of, find,
  set_location,
}
use xorc_gateway.Events.Environment.{environment_into}
use xorc_gateway.Events.Event.{
  from_str, event_into, properties, flatten_properties, flatten_value, number_as_f64,
}
use xorc_gateway.Events.Json.{
  ◌>>=◌, slot, field_slot, item_slot, has_key, check_length, required, optional, defaulted,
  read_i32, read_map, collect, insert_entry, to_value, text_lt,
}
use xorc_gateway.Events.Json.Structs.{
  decode_event, decode_batch, decode_environment, decode_device, read_events, read_items,
  read_timestamp,
}
use xorc_gateway.Events.Response.{response_json, result_json, registration_json, status_json}
use xorc_gateway.Events.Timestamp.{u64_from_str, u64_to_text}
use xorc_gateway.Units.Assertions.{same_value}
use xorc_gateway.Units.Devices.{
  test_no_language_or_local_set, test_no_language_or_locale_set, test_language_set, test_locale_set,
  test_broken_locale_set, test_no_h_set, test_h_set, test_no_w_set, test_w_set,
  test_no_ifa_tracking_enabled_set, test_no_notification_registered_set, test_no_os_name_set,
  test_os_name_ios, test_os_name_iphone_os, test_os_name_android, test_platform_web,
  test_set_real_location_ipv4, test_set_real_location_ipv6, test_set_local_ipv4,
  test_set_local_ipv6,
}
use xorc_gateway.Units.Events.{
  test_required_properties, test_with_string_property, test_with_number_property,
  test_with_bool_property, test_with_object_property, test_with_environment_app_id,
}
use xorc_gateway.Units.Answers.{
  test_register_event_result, test_register_event_result_empty_registration_data,
}
use xorc_gateway.Units.Contexts.{
  test_empty_ip_address, test_existing_ipv4_address, test_existing_ipv6_address,
  test_empty_api_token, test_existing_api_token, test_empty_signature, test_existing_signature,
  test_empty_origin, test_existing_origin, test_lowercase_origin, test_empty_device_id,
  test_faulty_device_id,
}
use xorc_gateway.Units.Origins.{
  new_with_cors_config, wildcard_headers, headers_for_existing_app_from_allowed_origin,
  headers_for_existing_app_from_wrong_origin, headers_for_non_existing_app,
}
use xorc_gateway.Units.Registries.{
  test_app_creation_empty_secrets, test_app_creation_with_token, test_app_creation_with_secrets,
}
use xorc_gateway.Units.Validations.{
  test_validate_ios_no_events, test_validate_ios_valid_data, test_validate_android_valid_data,
  test_validate_web_valid_data, test_validate_invalid_app, test_validate_invalid_token,
  test_validate_missing_signature_if_not_allowed, test_validate_no_secret_set_for_platform,
  test_validate_web_invalid_signature,
}

abbrev IsPassed : Bool → Type 0
IsPassed b = b ≡ true

devices_pass : All IsPassed (
    test_no_language_or_local_set ∷ test_no_language_or_locale_set ∷ test_language_set
    ∷ test_locale_set ∷ test_broken_locale_set ∷ test_no_h_set ∷ test_h_set ∷ test_no_w_set
    ∷ test_w_set ∷ test_no_ifa_tracking_enabled_set ∷ test_no_notification_registered_set
    ∷ test_no_os_name_set ∷ test_os_name_ios ∷ test_os_name_iphone_os ∷ test_os_name_android
    ∷ test_platform_web ∷ test_set_real_location_ipv4 ∷ test_set_real_location_ipv6
    ∷ test_set_local_ipv4 ∷ test_set_local_ipv6 ∷ [])
unfolding decode_device ◌>>=◌ slot field_slot has_key check_length required optional defaulted
    read_i32 read_map device_into platform platform_of platform_of_os platform_text language_of find
    set_location text_eq Text-discrete ℕ_eq ℕ_discrete
devices_pass = (
  refl,
  (
    refl,
    (
      refl,
      (
        refl,
        (
          refl,
          (
            refl,
            (
              refl,
              (
                refl,
                (
                  refl,
                  (
                    refl,
                    (
                      refl,
                      (refl, (refl, (refl, (refl, (refl, (refl, (refl, (refl, (refl, tt))))))))),
                    ),
                  ),
                ),
              ),
            ),
          ),
        ),
      ),
    ),
  ),
)

events_pass : All IsPassed (
    test_required_properties ∷ test_with_string_property ∷ test_with_number_property
    ∷ test_with_bool_property ∷ test_with_object_property ∷ test_with_environment_app_id ∷ [])
unfolding decode_event decode_batch decode_environment decode_device read_events read_items
    read_timestamp ◌>>=◌ slot field_slot has_key check_length required optional defaulted read_i32
    read_map collect insert_entry to_value text_lt item_slot from_str u64_from_str u64_to_text
    event_into properties flatten_properties flatten_value number_as_f64 new_context get_value
    read_device_id into_proto events_into device_into platform platform_of platform_of_os
    platform_text language_of environment_into text_eq Text-discrete ℕ_eq ℕ_discrete
events_pass = (refl, (refl, (refl, (refl, (refl, (refl, tt))))))

answers_pass :
    All IsPassed
      (test_register_event_result ∷ test_register_event_result_empty_registration_data ∷ [])
unfolding response_json result_json registration_json status_json same_value text_eq Text-discrete
    ℕ_eq ℕ_discrete
answers_pass = (refl, (refl, tt))

contexts_pass : All IsPassed (
    test_empty_ip_address ∷ test_existing_ipv4_address ∷ test_existing_ipv6_address
    ∷ test_empty_api_token ∷ test_existing_api_token ∷ test_empty_signature
    ∷ test_existing_signature ∷ test_empty_origin ∷ test_existing_origin ∷ test_lowercase_origin
    ∷ test_empty_device_id ∷ test_faulty_device_id ∷ [])
unfolding new_context get_value read_device_id decrypt text_eq Text-discrete ℕ_eq ℕ_discrete
contexts_pass = (
  refl,
  (refl, (refl, (refl, (refl, (refl, (refl, (refl, (refl, (refl, (refl, (refl, tt))))))))))),
)

origins_pass : All IsPassed (
    new_with_cors_config ∷ wildcard_headers ∷ headers_for_existing_app_from_allowed_origin
    ∷ headers_for_existing_app_from_wrong_origin ∷ headers_for_non_existing_app ∷ [])
unfolding new_cors response_builder_wildcard response_builder_origin allowed_lists set_header
    valid_origin origin_headers contains lookup insert text_eq Text-discrete ℕ_eq ℕ_discrete
origins_pass = (refl, (refl, (refl, (refl, (refl, tt)))))

registries_pass : All IsPassed (
    test_app_creation_empty_secrets ∷ test_app_creation_with_token ∷ test_app_creation_with_secrets
    ∷ [])
unfolding create_app secret_key create_key text_eq Text-discrete ℕ_eq ℕ_discrete
registries_pass = (refl, (refl, (refl, tt)))

validations_pass : All IsPassed (
    test_validate_ios_no_events ∷ test_validate_ios_valid_data ∷ test_validate_android_valid_data
    ∷ test_validate_web_valid_data ∷ test_validate_invalid_app ∷ test_validate_invalid_token
    ∷ test_validate_missing_signature_if_not_allowed ∷ test_validate_no_secret_set_for_platform
    ∷ test_validate_web_invalid_signature ∷ [])
unfolding decode_event decode_batch decode_environment decode_device read_events read_items
    read_timestamp ◌>>=◌ slot field_slot has_key check_length required optional defaulted read_i32
    read_map collect insert_entry to_value from_str u64_from_str new_context get_value
    read_device_id new_registry load_test_apps create_app secret_key create_key validate
    platform_key platform platform_of platform_of_os lookup insert text_eq Text-discrete ℕ_eq
    ℕ_discrete
validations_pass = (refl, (refl, (refl, (refl, (refl, (refl, (refl, (refl, (refl, tt)))))))))
