-- ===== src/Tests/Gateway.antt =====
-- src/gateway.rs on small inputs.
use xorc_gateway.Base.{
  ℕ, ◌≡◌, ◌⊎◌, refl, ◌∷◌, [], Text, text, returned, some, none, true, text_eq, Text-discrete, ℕ_eq,
  ℕ_discrete,
}
use xorc_gateway.Base.Dict.{lookup}
use xorc_gateway.AppRegistry.{validate, platform_key, token_for}
use xorc_gateway.Bus.{publish, routing_key, stored}
use xorc_gateway.Context.{new_context, encrypt_id, generate, get_value, read_device_id}
use xorc_gateway.Cors.{Response, response_builder_origin, valid_origin}
use xorc_gateway.Encryption.{encrypt}
use xorc_gateway.Events.Batch.{events_into, into_proto}
use xorc_gateway.Events.Device.{platform, platform_of, platform_of_os, device_into, language_of}
use xorc_gateway.Events.Environment.{environment_into}
use xorc_gateway.Events.Event.{event_into, properties, flatten_properties, is_register}
use xorc_gateway.Events.Timestamp.{u64_to_text}
use xorc_gateway.Gateway.{
  generate_event_results, create_new_device, fetch_id, match_device, id_for, find_register,
}
use xorc_gateway.Gateway.Handlers.{
  handle_sdk, handle_body, handle_event, handle_in_context, process, send_batch, origin_refused,
  respond, sdk_builder,
}
use xorc_gateway.IfaMatching.{
  parse_ifa, get_id_for_ifa, put_id_for_ifa, run_query, read_answer, written,
}
use xorc_gateway.Cors.{new_builder}
use xorc_gateway.Context.{DeviceId}
use xorc_gateway.Crates.Samples.{plain_uuids}
use xorc_gateway.Error.{into_response, response_builder_for, status_of, body_of}
use xorc_gateway.Gateway.Handlers.{Request, count_request, service, get, handle_metrics}
use xorc_gateway.Gateway.Devices.{match_device-match_device}
use xorc_gateway.Gateway.Routes.{Counted, service-Counted}
use xorc_gateway.Samples.Laws.{lawful, random}
use xorc_gateway.Events.Event.Numbers.{HasNumbers, AllNumbers}
use xorc_gateway.Gateway.Acceptance.{IsServable, handle_sdk_served}
use xorc_gateway.Gateway.Answers.{IsPlain}
use xorc_gateway.Gateway.Rejections.{IsRead, not_json, handle_sdk_stopped}
use xorc_gateway.Gateway.Requests.{verdict}
use xorc_gateway.Gateway.Responses.{Answered, handle_sdk-sent}
use xorc_gateway.Results.{ok}
use xorc_gateway.Samples.Sorting.{insertion_sorter-IsSorter}
use xorc_gateway.Samples.Requests.{
  env, chance, world, request_for, context_for, plain_batch, registering_batch, app_id, ifa,
}

abbrev json_response : Response
json_response = record {
  status = 200;
  headers = (text "content-type", text "application/json") ∷ [];
  body = text "json";
}

registers : (handle_sdk env chance (request_for (text "register")) world).0 ≡ returned json_response
unfolding handle_sdk handle_body handle_event handle_in_context process send_batch origin_refused
    respond sdk_builder text_eq Text-discrete ℕ_eq ℕ_discrete lookup validate platform_key token_for
    publish routing_key new_context encrypt_id generate get_value read_device_id
    response_builder_origin valid_origin encrypt events_into into_proto platform platform_of
    platform_of_os device_into language_of environment_into event_into properties flatten_properties
    is_register u64_to_text generate_event_results create_new_device fetch_id match_device id_for
    find_register parse_ifa get_id_for_ifa put_id_for_ifa run_query read_answer written
registers = refl

handle_sdk-sent_example : Answered env chance (request_for (text "register")) world json_response
handle_sdk-sent_example =
    handle_sdk-sent env chance (request_for (text "register")) world json_response registers

-- The request without a register event.
abbrev plain : Text
plain = text "plain"

reads : IsRead env (request_for plain) world plain plain_batch (context_for plain)
unfolding new_context get_value read_device_id platform platform_of text_eq Text-discrete
reads = record { given = refl; parsed = refl; read = refl }

valid : verdict env world plain plain_batch (context_for plain) ≡ ok tt
unfolding validate lookup platform_key platform platform_of text_eq Text-discrete
valid = refl

plain_events : IsPlain plain_batch.events
unfolding is_register text_eq Text-discrete
plain_events = (refl, (refl, tt))

servable :
    IsServable env (request_for plain) world plain plain_batch (context_for plain) new_builder
unfolding origin_refused sdk_builder response_builder_origin valid_origin is_register HasNumbers
    AllNumbers text_eq Text-discrete
servable = record {
  read = reads;
  allowed = refl;
  validated = valid;
  numbers = (((tt, tt), tt), (((tt, tt), tt), tt));
  reports = λ m. (stored, refl);
  headers = refl;
}

handle_sdk_served_example :
    (handle_sdk env chance (request_for plain) world).0
    ≡ returned (record {
      status = 200;
      headers = (text "content-type", text "application/json") ∷ [];
      body = text "json";
    })
handle_sdk_served_example =
    handle_sdk_served env chance (request_for plain) world plain plain_batch (context_for plain)
      new_builder insertion_sorter-IsSorter servable plain_events

-- The UUIDs of the application and of the advertising id, as they are read.
abbrev app_uuid : ℕ
app_uuid = elim (plain_uuids.parse_str app_id) [ none ↦ 0 | some a ↦ a ]

abbrev ifa_uuid : ℕ
ifa_uuid = elim (plain_uuids.parse_str ifa) [ none ↦ 0 | some i ↦ i ]

app_read : plain_uuids.parse_str app_id ≡ some app_uuid
unfolding ℕ_discrete
app_read = refl

ifa_read : parse_ifa plain_uuids (some ifa) true ≡ some ifa_uuid
unfolding parse_ifa ℕ_discrete ℕ_eq
ifa_read = refl

match_device-match_device_example :
    (id id' : DeviceId) × ((match_device env chance (context_for plain) plain_batch world).0
      ≡ returned id)
    × ((match_device env chance
          (context_for plain)
          registering_batch
          (match_device env chance (context_for plain) plain_batch world).1).0
        ≡ returned id')
    × (id'.cleartext ≡ id.cleartext)
match_device-match_device_example =
    match_device-match_device env lawful chance chance random random (context_for plain)
      (context_for plain) plain_batch registering_batch world app_uuid ifa_uuid app_read ifa_read
      refl refl refl

abbrev refused : Response
refused = record { status = 400; headers = []; body = text "Invalid payload" }

refuses : (handle_sdk env chance (request_for (text "bad")) world).0 ≡ returned refused
unfolding handle_sdk handle_body respond into_response response_builder_for status_of body_of
    text_eq Text-discrete
refuses = refl

handle_sdk_stopped_example :
    (refused.status ≡ 400)
    × (refused.body ≡ text "Invalid payload")
    × ((handle_sdk env chance (request_for (text "bad")) world).1
        ≡ count_request env (u64_to_text 400) (text "sdk_events") world)
unfolding text_eq Text-discrete
handle_sdk_stopped_example =
    handle_sdk_stopped env (request_for (text "bad")) world chance 400 (text "Invalid payload")
      refused (not_json (text "bad") refl refl) refuses

abbrev missing_page : Request
missing_page = record (request_for plain) { path = text "/" }

abbrev not_found : Response
not_found = record { status = 404; headers = []; body = [] }

misses : (service env chance missing_page world).0 ≡ returned not_found
unfolding service text_eq Text-discrete
misses = refl

service-Counted_example :
    ((missing_page.method ≡ get)
      × (missing_page.path ≡ text "/metrics")
      × (service env chance missing_page world ≡ (returned (handle_metrics env world), world)))
    ⊎ Counted env chance missing_page world not_found
service-Counted_example = service-Counted env chance missing_page world not_found misses
