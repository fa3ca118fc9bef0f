-- ===== src/Tests/Json.antt =====
-- The JSON of src/events/input on small documents.
use xorc_gateway.Base.{
  ◌≡◌, ◌↔◌, refl, All, some, none, text, text_eq, Text-discrete, ℕ_eq, ℕ_discrete, arith, true,
}
use xorc_gateway.Events.Event.{Value, boolean, object, array, nil, Fields, end, field}
use xorc_gateway.Events.Json.{collect, insert_entry, to_value, text_lt}
use xorc_gateway.Events.Json.Bounds.{IsBounded, decode_batch-IsBounded}
use xorc_gateway.Events.Json.Documents.{batch_value}
use xorc_gateway.Events.Json.Entries.{
  values_of, Once, Recipient, decode_batch-values_of, decode_batch-eq-some_iff,
}
use xorc_gateway.Events.Json.RoundTrip.{IsMap, decode_batch-batch_value}
use xorc_gateway.Events.Json.Structs.{decode_batch, decode_environment, decode_device, read_events}
use xorc_gateway.Samples.Requests.{plain_batch}

abbrev document : Value
document = batch_value (λ i. none) plain_batch

plain_batch-All : All (λ e. IsMap e.properties) plain_batch.events
unfolding collect to_value insert_entry text_lt text_eq Text-discrete ℕ_eq ℕ_discrete
plain_batch-All = (refl, (refl, tt))

plain_batch-IsBounded : IsBounded plain_batch
plain_batch-IsBounded = ((omega arith, (omega arith, tt)), (tt, tt, tt))

decode_batch-batch_value_example : decode_batch document ≡ some plain_batch
decode_batch-batch_value_example =
    decode_batch-batch_value (λ i. none) plain_batch plain_batch-IsBounded plain_batch-All

decode_batch-IsBounded_sample : IsBounded plain_batch
decode_batch-IsBounded_sample =
    decode_batch-IsBounded document plain_batch decode_batch-batch_value_example

-- A batch without events, with its fields in two orders and an unknown one.
abbrev ordered : Fields
ordered =
    field (text "environment") (object end)
      (field (text "device") (object end) (field (text "events") (array nil) end))

abbrev reordered : Fields
reordered = field (text "events") (array nil) (
    field (text "extra") (boolean true)
      (field (text "device") (object end) (field (text "environment") (object end) end)))

decode_batch-values_of_example : decode_batch (object ordered) ≡ decode_batch (object reordered)
unfolding values_of text_eq Text-discrete ℕ_eq ℕ_discrete
decode_batch-values_of_example = decode_batch-values_of ordered reordered refl refl refl refl

decode_batch-eq-some_iff_example : (decode_batch (object reordered) ≡ some plain_batch) ↔ (
    Once decode_environment (text "environment") reordered plain_batch.environment
    × Once read_events (text "events") reordered plain_batch.events
    × Once decode_device (text "device") reordered plain_batch.device
    × Recipient (values_of (text "recipient_id") reordered) plain_batch.recipient_id)
decode_batch-eq-some_iff_example = decode_batch-eq-some_iff reordered plain_batch
