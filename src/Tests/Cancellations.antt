-- ===== src/Tests/Cancellations.antt =====
-- src/gateway.rs with a producer that gives no report.
use xorc_gateway.Base.{
  ◌≡◌, refl, [], Text, text, none, returned, text_eq, Text-discrete, ℕ_eq, ℕ_discrete,
}
use xorc_gateway.Base.Dict.{lookup}
use xorc_gateway.AppRegistry.{validate, platform_key}
use xorc_gateway.Bus.{publish}
use xorc_gateway.Context.{new_context, get_value, read_device_id}
use xorc_gateway.Cors.{Response}
use xorc_gateway.Error.{into_response, response_builder_for, status_of, body_of}
use xorc_gateway.Events.Batch.{events_into, into_proto}
use xorc_gateway.Events.Device.{platform, platform_of}
use xorc_gateway.Events.Event.{event_into, properties, flatten_properties, is_register}
use xorc_gateway.Events.Event.Numbers.{HasNumbers, AllNumbers}
use xorc_gateway.Gateway.{Env, generate_event_results, find_register}
use xorc_gateway.Gateway.Answers.{IsPlain}
use xorc_gateway.Gateway.Cancellations.{handle_sdk_canceled}
use xorc_gateway.Gateway.Handlers.{
  handle_sdk, handle_body, handle_event, handle_in_context, process, send_batch, origin_refused,
  respond, count_request,
}
use xorc_gateway.Gateway.Rejections.{IsRead}
use xorc_gateway.Gateway.Requests.{verdict}
use xorc_gateway.Results.{ok}
use xorc_gateway.Samples.Requests.{env, chance, world, request_for, context_for, plain_batch}
use xorc_gateway.Samples.Sorting.{insertion_sorter-IsSorter}

abbrev dropped : Env
dropped = record env { producer = record { send = λ sent m. none } }

abbrev plain : Text
plain = text "plain"

reads : IsRead dropped (request_for plain) world plain plain_batch (context_for plain)
unfolding new_context get_value read_device_id platform platform_of text_eq Text-discrete
reads = record { given = refl; parsed = refl; read = refl }

valid : verdict dropped world plain plain_batch (context_for plain) ≡ ok tt
unfolding validate lookup platform_key platform platform_of text_eq Text-discrete
valid = refl

plain_events : IsPlain plain_batch.events
unfolding is_register text_eq Text-discrete
plain_events = (refl, (refl, tt))

abbrev unavailable : Response
unavailable = record { status = 503; headers = []; body = text "Service unavailable" }

answers : (handle_sdk dropped chance (request_for plain) world).0 ≡ returned unavailable
unfolding handle_sdk handle_body handle_event handle_in_context process send_batch origin_refused
    respond into_response response_builder_for status_of body_of text_eq Text-discrete ℕ_eq
    ℕ_discrete lookup validate platform_key publish new_context get_value read_device_id events_into
    into_proto platform platform_of event_into properties flatten_properties is_register
    generate_event_results find_register
answers = refl

handle_sdk_canceled_example :
    (unavailable.status ≡ 503)
    × (unavailable.body ≡ text "Service unavailable")
    × ((handle_sdk dropped chance (request_for plain) world).1
        ≡ count_request dropped (text "503") (text "sdk_events") world)
unfolding origin_refused HasNumbers AllNumbers
handle_sdk_canceled_example =
    handle_sdk_canceled dropped chance (request_for plain) world plain plain_batch
      (context_for plain) unavailable insertion_sorter-IsSorter reads refl valid
      (((tt, tt), tt), (((tt, tt), tt), tt)) plain_events (λ m. refl) answers
