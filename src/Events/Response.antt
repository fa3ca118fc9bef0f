-- ===== src/Events/Response.antt =====
-- src/events/input/sdk_response.rs: the answer to a batch, and the JSON that `serde` derives for it.
use xorc_gateway.Base.{Option, none, some, List, [], ◌∷◌, Text, text}
use xorc_gateway.Encryption.{Ciphertext}
use xorc_gateway.Events.Event.{Value, string, array, object, Items, nil, cons, end, field}

-- `EventStatus`
pub data EventStatus : Type 0 where
  success : EventStatus

-- `RegistrationData`
pub record RegistrationData : Type 0 where
  pub api_token : Option Text
  pub device_id : Ciphertext

-- `EventResult`
pub record EventResult : Type 0 where
  pub id : Text
  pub registration_data : Option RegistrationData
  pub status : EventStatus

-- `SDKResponse`
pub record SdkResponse : Type 0 where
  pub events_status : List EventResult

-- `SDKResponse::from`
abbrev pub response_from : List EventResult → SdkResponse
response_from events_status = record { events_status = events_status }

-- `EventResult::new`
abbrev pub new_result : Text → EventStatus → EventResult
new_result id status = record { id = id; registration_data = none; status = status }

-- `EventResult::register`
abbrev pub register_result : Text → EventStatus → Option Text → Ciphertext → EventResult
register_result id status api_token ciphertext = record {
  id = id;
  registration_data = some (record { api_token = api_token; device_id = ciphertext });
  status = status;
}

-- The derived `Serialize`: fields in the order of their declaration, `skip_serializing_if` obeyed.
unfoldable pub status_json : EventStatus → Value
status_json success = string (text "success")

unfoldable pub registration_json : RegistrationData → Value
registration_json r = elim r.api_token [
  | none ↦ object (field (text "device_id") (string r.device_id.value) end)
  | some token ↦ object (
      field (text "api_token") (string token)
        (field (text "device_id") (string r.device_id.value) end))
]

unfoldable pub result_json : EventResult → Value
unfolding status_json registration_json
result_json r = elim r.registration_data [
  | none ↦
      object (field (text "id") (string r.id) (field (text "status") (status_json r.status) end))
  | some registration ↦ object (
      field (text "id") (string r.id) (
        field (text "registration_data") (registration_json registration)
          (field (text "status") (status_json r.status) end)))
]

results_json : List EventResult → Items
unfolding result_json
results_json [] = nil
results_json (r ∷ rs) = cons (result_json r) (results_json rs)

unfoldable pub response_json : SdkResponse → Value
unfolding results_json
response_json r = object (field (text "events_status") (array (results_json r.events_status)) end)
