-- ===== src/Units/Answers.antt =====
-- The unit tests of src/events/input/sdk_response.rs. They compare what `to_string` writes of two
-- documents; here the documents are compared.
use xorc_gateway.Base.{Bool, some, [], ◌∷◌, text}
use xorc_gateway.Events.Event.{string, array, object, nil, cons, end, field}
use xorc_gateway.Events.Response.{
  success, response_from, new_result, register_result, response_json,
}
use xorc_gateway.Units.Assertions.{same_value}

abbrev pub test_register_event_result : Bool
test_register_event_result =
    let event_result =
      register_result (text "123") success (some (text "token"))
        (record { value = text "encrypted" }) in
    let json_expected = object (
      field (text "events_status")
        (array (
          cons
            (object (
              field (text "id") (string (text "123")) (
                field (text "registration_data")
                  (object (
                    field (text "api_token") (string (text "token"))
                      (field (text "device_id") (string (text "encrypted")) end)))
                  (field (text "status") (string (text "success")) end))))
            nil))
        end) in
    same_value json_expected (response_json (response_from (event_result ∷ [])))

abbrev pub test_register_event_result_empty_registration_data : Bool
test_register_event_result_empty_registration_data =
    let event_result = new_result (text "123") success in
    let json_expected = object (
      field (text "events_status")
        (array (
          cons
            (object (
              field (text "id") (string (text "123"))
                (field (text "status") (string (text "success")) end)))
            nil))
        end) in
    same_value json_expected (response_json (response_from (event_result ∷ [])))
