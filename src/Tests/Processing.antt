-- ===== src/Tests/Processing.antt =====
-- What src/gateway.rs does with accepted batches, on small inputs.
use xorc_gateway.Base.{
  ◌==◌, if◌then◌else◌, arith, ◌≡◌, ◌≢◌, ◌⊎◌, ◌++◌, refl, ◌∷◌, [], List, map, or_else, Text, text,
  returned, some, none, text_eq, Text-discrete, ℕ_eq, ℕ_discrete, replicate,
}
use xorc_gateway.Base.Dict.{lookup}
use xorc_gateway.AppRegistry.{token_for}
use xorc_gateway.Bus.{publish}
use xorc_gateway.Context.{Context, DeviceId, encrypt_id, generate, get_value, new_context}
use xorc_gateway.Crates.{HeaderMap}
use xorc_gateway.Events.Device.{ios}
use xorc_gateway.AppRegistry.Updates.{update_apps}
use xorc_gateway.Bus.{Report}
use xorc_gateway.Crates.Samples.{plain_hex}
use xorc_gateway.Gateway.Histories.{History, Logs, History-sent, begins, request, reload}
use xorc_gateway.World.{World}
use xorc_gateway.Gateway.Signatures.{History-allow_empty_signature}
use xorc_gateway.Gateway.Returns.{match_device-new_context}
use xorc_gateway.Samples.Laws.{lawful, random}
use xorc_gateway.Encryption.{encrypt}
use xorc_gateway.Error.{service_unavailable}
use xorc_gateway.Events.Batch.{events_into, into_proto}
use xorc_gateway.Events.Event.{SdkEvent, event_into, properties, flatten_properties, is_register}
use xorc_gateway.Events.Response.{EventResult, success, new_result, register_result}
use xorc_gateway.Gateway.{
  Env, generate_event_results, create_new_device, fetch_id, match_device, id_for, find_register,
}
use xorc_gateway.Gateway.Answers.{IsPlain, IsFirstRegister, generate_event_results-ok}
use xorc_gateway.Gateway.Delivery.{IsProcessed, process-ok, process_failed}
use xorc_gateway.Gateway.Handlers.{service, process, send_batch}
use xorc_gateway.IfaMatching.{
  parse_ifa, get_id_for_ifa, put_id_for_ifa, run_query, read_answer, written,
}
use xorc_gateway.Results.{ok, err}
use xorc_gateway.Samples.Requests.{
  request_for, app_id, env, chance, world, context_for, plain_batch, registering_batch,
}

abbrev before : Context
before = context_for (text "register")

-- The id that the new device gets: a UUID, and the nonce with what the sample cipher makes of it.
abbrev new_id : DeviceId
new_id = record {
  ciphertext = record { value = replicate 12 9 ++ (5 ∷ replicate 51 0) };
  cleartext = record { value = 5 ∷ replicate 35 0 };
}

abbrev after : Context
after = record before { device_id = some new_id; api_token = some (text "token") }

abbrev registered : List EventResult
registered = register_result (text "1") success (some (text "token")) new_id.ciphertext ∷ []

registers :
    (generate_event_results env chance before registering_batch world).0
    ≡ returned (ok (registered, after, registering_batch))
unfolding text_eq Text-discrete ℕ_eq ℕ_discrete lookup token_for encrypt_id generate encrypt
    is_register generate_event_results create_new_device fetch_id match_device id_for find_register
    parse_ifa get_id_for_ifa put_id_for_ifa run_query read_answer written
registers = refl

generate_event_results-ok_example :
    (IsPlain registering_batch.events
      × (registered ≡ map (λ e. new_result e.id success) registering_batch.events)
      × (after ≡ before)
      × (registering_batch ≡ registering_batch))
    ⊎ ((event : SdkEvent) × (id : DeviceId) × IsFirstRegister registering_batch.events event
        × (registered ≡ register_result event.id success after.api_token id.ciphertext ∷ [])
        × (after.device_id ≡ some id)
        × (or_else before.device_id (some id) ≡ some id)
        × (registering_batch ≡ registering_batch))
generate_event_results-ok_example =
    generate_event_results-ok env chance before registering_batch world registered after
      registering_batch registers

processes : (process env chance before plain_batch world).0 ≡ returned (ok (text "json", before))
unfolding process send_batch publish text_eq Text-discrete ℕ_eq ℕ_discrete is_register events_into
    into_proto event_into properties flatten_properties generate_event_results find_register
processes = refl

process-ok_example : IsProcessed env chance before plain_batch world (text "json") before
process-ok_example = process-ok env chance before plain_batch world (text "json") before processes

-- The environment whose producer is dropped.
abbrev broken : Env
broken = record env { producer = record { send = λ sent m. none } }

fails :
    (process broken chance before plain_batch world).0
    ≡ returned (err (service_unavailable (text "Could not send to kafka"), none))
unfolding process send_batch publish text_eq Text-discrete ℕ_eq ℕ_discrete is_register events_into
    into_proto event_into properties flatten_properties generate_event_results find_register
fails = refl

never :
    (json : Text) (c : Context)
    → (process broken chance before plain_batch world).0 ≢ returned (ok (json, c))
never json c e = ground (arith, fails)

process_failed_sample : (process broken chance before plain_batch world).1.sent ≡ []
process_failed_sample = process_failed broken chance before plain_batch world never

-- The headers of the next request of that device.
abbrev next_headers : HeaderMap
next_headers = record {
  get = λ name. if name == text "XORC-Device-Id" then some new_id.ciphertext.value else none;
}

matches : (match_device env chance before registering_batch world).0 ≡ returned new_id
unfolding text_eq Text-discrete ℕ_eq ℕ_discrete encrypt_id generate encrypt match_device id_for
    parse_ifa get_id_for_ifa put_id_for_ifa run_query read_answer written
matches = refl

sends_id : get_value env.http next_headers (text "XORC-Device-Id") ≡ some new_id.ciphertext.value
unfolding get_value text_eq Text-discrete
sends_id = refl

match_device-new_context_example :
    (ctx : Context) × (new_context env.crypto env.http env.translation.network next_headers app_id
        ios
      ≡ returned ctx)
    × (ctx.device_id ≡ some new_id)
match_device-new_context_example =
    match_device-new_context env lawful chance random before registering_batch world new_id
      next_headers app_id ios matches sends_id

-- A request that registers a device, and a reload after it.
abbrev requested : World env.cluster
requested = (service env chance (request_for (text "register")) world).1

abbrev reloaded : World env.cluster
reloaded = (update_apps env.cluster plain_hex env.uuids (text "ks") requested).1

abbrev passed : History env plain_hex world reloaded
passed = reload requested (request world chance (request_for (text "register")) begins)

History-sent_example :
    (reports : List Report) × (reloaded.sent ≡ [] ++ reports)
    × Logs env plain_hex world reloaded passed reports
History-sent_example = History-sent env plain_hex world reloaded passed

History-allow_empty_signature_sample :
    reloaded.registry.allow_empty_signature ≡ world.registry.allow_empty_signature
History-allow_empty_signature_sample =
    History-allow_empty_signature env plain_hex world reloaded
      (reload requested (request world chance (request_for (text "register")) begins))
