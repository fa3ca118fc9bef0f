-- ===== src/Tests/Documents.antt =====
-- A JSON document of a batch, from the request to the answer of src/gateway.rs.
use xorc_gateway.Base.{
  ◌≡◌, false, refl, ◌∷◌, [], All, Option, some, none, Text, text, returned, text_eq, Text-discrete,
  ℕ_eq, ℕ_discrete, arith, ◌>>=◌,
}
use xorc_gateway.Bus.{stored}
use xorc_gateway.Base.Dict.{lookup}
use xorc_gateway.AppRegistry.{validate, platform_key}
use xorc_gateway.Context.{new_context, get_value, read_device_id}
use xorc_gateway.Cors.{Response, new_builder, response_builder_origin, valid_origin}
use xorc_gateway.Events.Batch.{SdkEventBatch}
use xorc_gateway.Events.Device.{platform, platform_of}
use xorc_gateway.Events.Event.{Value, Fields, object, end, is_register}
use xorc_gateway.Events.Event.Numbers.{HasNumbers, AllNumbers}
use xorc_gateway.Events.Json.{collect, insert_entry, to_value, text_lt}
use xorc_gateway.Events.Json.Bounds.{IsBounded}
use xorc_gateway.Events.Json.Documents.{batch_value}
use xorc_gateway.Events.Json.Entries.{values_of, Once, Recipient}
use xorc_gateway.Events.Json.RoundTrip.{IsMap}
use xorc_gateway.Events.Json.Structs.{decode_batch, decode_environment, decode_device, read_events}
use xorc_gateway.Gateway.{Env}
use xorc_gateway.Gateway.Answers.{IsPlain}
use xorc_gateway.Gateway.Documents.{handle_sdk-Once, handle_sdk-batch_value}
use xorc_gateway.Gateway.Handlers.{origin_refused, sdk_builder, handle_sdk}
use xorc_gateway.Gateway.Requests.{verdict, read_context}
use xorc_gateway.Results.{ok}
use xorc_gateway.Samples.Requests.{env, chance, world, request_for, context_for, plain_batch}
use xorc_gateway.Samples.Sorting.{insertion_sorter-IsSorter}

-- A parser that gives the document of the batch for every text.
abbrev parse : Text → Option Value
parse body = some (batch_value (λ i. none) plain_batch)

abbrev parsing : Env
parsing = record env { from_slice = λ body. parse body >>= decode_batch }

abbrev plain : Text
plain = text "plain"

plain_batch-IsBounded : IsBounded plain_batch
plain_batch-IsBounded = ((omega arith, (omega arith, tt)), (tt, tt, tt))

plain_batch-All : All (λ e. IsMap e.properties) plain_batch.events
unfolding collect to_value insert_entry text_lt text_eq Text-discrete ℕ_eq ℕ_discrete
plain_batch-All = (refl, (refl, tt))

reads : read_context parsing (request_for plain).headers plain_batch ≡ returned (context_for plain)
unfolding new_context get_value read_device_id platform platform_of text_eq Text-discrete
reads = refl

allows : origin_refused parsing (context_for plain) ≡ false
unfolding origin_refused
allows = refl

valid : verdict parsing world plain plain_batch (context_for plain) ≡ ok tt
unfolding validate lookup platform_key platform platform_of text_eq Text-discrete
valid = refl

builds : sdk_builder parsing (context_for plain) ≡ returned new_builder
unfolding sdk_builder response_builder_origin valid_origin text_eq Text-discrete
builds = refl

plain_events : IsPlain plain_batch.events
unfolding is_register text_eq Text-discrete
plain_events = (refl, (refl, tt))

readable : All (λ e. AllNumbers e.properties) plain_batch.events
unfolding HasNumbers AllNumbers
readable = (((tt, tt), tt), (((tt, tt), tt), tt))

abbrev answer : Response
answer = record {
  status = 200;
  headers = (text "content-type", text "application/json") ∷ [];
  body = text "json";
}

served : (handle_sdk parsing chance (request_for plain) world).0 ≡ returned answer
served =
    handle_sdk-batch_value parsing parse (λ body. refl) chance (request_for plain) world (λ i. none)
      plain plain_batch (context_for plain) new_builder insertion_sorter-IsSorter refl refl
      plain_batch-IsBounded plain_batch-All reads allows valid readable (λ m. (stored, refl)) builds
      plain_events

handle_sdk-batch_value_example :
    (handle_sdk parsing chance (request_for plain) world).0 ≡ returned answer
handle_sdk-batch_value_example =
    handle_sdk-batch_value parsing parse (λ body. refl) chance (request_for plain) world (λ i. none)
      plain plain_batch (context_for plain) new_builder insertion_sorter-IsSorter refl refl
      plain_batch-IsBounded plain_batch-All reads allows valid readable (λ m. (stored, refl)) builds
      plain_events

abbrev entries : Fields
entries = elim (batch_value (λ i. none) plain_batch) [ object fs ↦ fs | _ ↦ end ]

handle_sdk-Once_example :
    (b : SdkEventBatch) × (parsing.from_slice plain ≡ some b)
    × Once decode_environment (text "environment") entries b.environment
    × Once read_events (text "events") entries b.events
    × Once decode_device (text "device") entries b.device
    × Recipient (values_of (text "recipient_id") entries) b.recipient_id
    × IsBounded b
handle_sdk-Once_example =
    handle_sdk-Once parsing parse (λ body. refl) chance (request_for plain) world plain entries
      answer refl refl served refl
