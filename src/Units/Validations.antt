-- ===== src/Units/Validations.antt =====
-- The unit tests of src/app_registry.rs that validate a request.
use xorc_gateway.Base.{
  Bool, true, false, Option, List, [], ◌∷◌, Text, text, ◌==◌, text_eq, ◌&&◌, ◌||◌, map_option,
}
use xorc_gateway.AppRegistry.{validate}
use xorc_gateway.AppRegistry.Updates.{new_registry}
use xorc_gateway.Context.{new_context}
use xorc_gateway.Crates.{Hmac}
use xorc_gateway.Crates.Samples.{plain_base64, plain_hex, plain_http, plain_network}
use xorc_gateway.Error.{
  GatewayError, app_does_not_exist, invalid_token, invalid_payload, missing_signature,
  invalid_signature,
}
use xorc_gateway.Events.Batch.{SdkEventBatch}
use xorc_gateway.Events.Device.{ios}
use xorc_gateway.Events.Event.{string, array, object, nil, cons, end, field}
use xorc_gateway.Events.Json.Structs.{decode_batch}
use xorc_gateway.Metrics.{no_metrics}
use xorc_gateway.Results.{Result, ok, err}
use xorc_gateway.Samples.Requests.{crypto}
use xorc_gateway.Units.Assertions.{check, returns, header_map}
use xorc_gateway.Units.Origins.{tests_config}
use xorc_gateway.Units.Registries.{ios_text, android_text, web_text, token_text}

abbrev ios_signature : Text
ios_signature =
    text "8iq7J8PjWZvkfzPDa0HbfwnlbNWTK6giMO2Z1vsUhToMY62rSJtdIHkFaMY+UDIWRjCbf+c5le3AAHVUlDJDRg=="

abbrev android_signature : Text
android_signature =
    text "2dTSkXn6Z+DCYpXNKgRV2oA+wHhvig98A0eXfKpxgDndXTAxYDfAxGrCmbU+AHL9O+zajCLBKZzqmitPnQJeGA=="

abbrev web_signature : Text
web_signature =
    text "iamp0NMGsLvLTsoTSRRKQn4uTThETrkdk7hjCX0jqDXdjNyOv/tRK9C9cnPhi4IIvP4Fj/kP/5L8waXx3fokOg=="

-- The signatures that the comments of the tests compute, of the body `kulli` under the three secrets;
-- hexadecimal and base64 stand for what they encode.
abbrev hmac : Hmac
hmac = record {
  verify = λ key message signature.
      message == text "kulli"
      && ((key.bytes == ios_text && signature == ios_signature)
          || ((key.bytes == android_text && signature == android_signature)
              || (key.bytes == web_text && signature == web_signature)));
}

-- `create_test_event`
abbrev create_test_event : Text → Text → Option SdkEventBatch
create_test_event app_id platform = decode_batch (
    object (
      field (text "environment") (object (field (text "app_id") (string app_id) end)) (
        field (text "device") (object (field (text "platform") (string platform) end)) (
          field (text "events")
            (array (
              cons
                (object (
                  field (text "timestamp") (string (text "1527092525607")) (
                    field (text "name") (string (text "test_event"))
                      (field (text "properties") (object end) end))))
                nil))
            end))))

abbrev is_ok : Result GatewayError (Unit {0}) → Bool
is_ok (ok u) = true
is_ok (err e) = false

abbrev same_error : GatewayError → GatewayError → Bool
same_error app_does_not_exist app_does_not_exist = true
same_error invalid_token invalid_token = true
same_error invalid_payload invalid_payload = true
same_error missing_signature missing_signature = true
same_error invalid_signature invalid_signature = true
same_error _ _ = false

abbrev fails_with : GatewayError → Result GatewayError (Unit {0}) → Bool
fails_with e (ok u) = false
fails_with e (err e') = same_error e e'

-- The validation of a batch with the body `kulli`, by the registry of config/config.toml.tests.
abbrev validation :
    List (Text × Text) → Option SdkEventBatch → (Result GatewayError (Unit {0}) → Bool) → Bool
validation entries event asserts = check event λ batch.
    returns (new_context crypto plain_http plain_network (header_map entries) (text "123") ios)
      λ context. returns (new_registry plain_hex tests_config no_metrics).0 λ registry. asserts (
        validate plain_base64 hmac tests_config.gateway.default_token registry batch context
          (text "kulli"))

abbrev pub test_validate_ios_no_events : Bool
test_validate_ios_no_events =
    validation ((text "XORC-Signature", ios_signature) ∷ (text "XORC-Api-Token", token_text) ∷ [])
      (map_option (λ (e : SdkEventBatch). let e' : SdkEventBatch = record e { events = [] } in e')
        (create_test_event (text "22222222-0000-0000-0000-000000000000") (text "ios")))
      (fails_with invalid_payload)

abbrev pub test_validate_ios_valid_data : Bool
test_validate_ios_valid_data =
    validation ((text "XORC-Signature", ios_signature) ∷ (text "XORC-Api-Token", token_text) ∷ [])
      (create_test_event (text "22222222-0000-0000-0000-000000000000") (text "ios")) (is_ok)

abbrev pub test_validate_android_valid_data : Bool
test_validate_android_valid_data =
    validation
      ((text "XORC-Signature", android_signature) ∷ (text "XORC-Api-Token", token_text) ∷ [])
      (create_test_event (text "22222222-0000-0000-0000-000000000000") (text "android")) (is_ok)

abbrev pub test_validate_web_valid_data : Bool
test_validate_web_valid_data =
    validation ((text "XORC-Signature", web_signature) ∷ (text "XORC-Api-Token", token_text) ∷ [])
      (create_test_event (text "22222222-0000-0000-0000-000000000000") (text "web")) (is_ok)

abbrev pub test_validate_invalid_app : Bool
test_validate_invalid_app =
    validation ((text "XORC-Signature", web_signature) ∷ (text "XORC-Api-Token", token_text) ∷ [])
      (create_test_event (text "2") (text "web")) (fails_with app_does_not_exist)

abbrev pub test_validate_invalid_token : Bool
test_validate_invalid_token =
    validation ((text "XORC-Signature", web_signature) ∷ (text "XORC-Api-Token", text "pylly") ∷ [])
      (create_test_event (text "22222222-0000-0000-0000-000000000000") (text "web"))
      (fails_with invalid_token)

abbrev pub test_validate_missing_signature_if_not_allowed : Bool
test_validate_missing_signature_if_not_allowed =
    validation ((text "XORC-Api-Token", token_text) ∷ [])
      (create_test_event (text "22222222-0000-0000-0000-000000000000") (text "web"))
      (fails_with missing_signature)

abbrev pub test_validate_no_secret_set_for_platform : Bool
test_validate_no_secret_set_for_platform =
    validation ((text "XORC-Signature", web_signature) ∷ (text "XORC-Api-Token", token_text) ∷ [])
      (create_test_event (text "1") (text "pylly")) (fails_with app_does_not_exist)

abbrev pub test_validate_web_invalid_signature : Bool
test_validate_web_invalid_signature =
    validation ((text "XORC-Signature", web_signature) ∷ (text "XORC-Api-Token", token_text) ∷ [])
      (create_test_event (text "22222222-0000-0000-0000-000000000000") (text "android"))
      (fails_with invalid_signature)
