-- ===== src/Gateway/Documents.antt =====
-- From the JSON document that a client sends to the answer of src/gateway.rs: `from_slice` as a parser
-- of JSON followed by the derived `Deserialize` of src/events/input.
use mathlib.Core.Option.{some-injective}
use mathlib.Core.Path.{subst}
use xorc_gateway.Base.{
  false, Option, some, [], ◌∷◌, ◌++◌, ◌≡◌, ◌∙◌, ap, sym, Text, text, map, All, returned, ◌>>=◌, ℤ,
  inl, inr,
}
use xorc_gateway.Bus.{Message, Delivery}
use xorc_gateway.Context.{Context}
use xorc_gateway.Cors.{Builder, Response}
use xorc_gateway.Crates.{F64}
use xorc_gateway.Events.Batch.{SdkEventBatch}
use xorc_gateway.Events.Batch.Order.{IsSorter}
use xorc_gateway.Events.Event.{Value, object, Fields}
use xorc_gateway.Events.Event.Numbers.{AllNumbers}
use xorc_gateway.Events.Json.Bounds.{IsBounded, decode_batch-IsBounded}
use xorc_gateway.Events.Json.Documents.{batch_value}
use xorc_gateway.Events.Json.Entries.{values_of, Once, Recipient, decode_batch-eq-some_iff}
use xorc_gateway.Events.Json.RoundTrip.{IsMap, decode_batch-batch_value}
use xorc_gateway.Events.Json.Structs.{decode_batch, decode_environment, decode_device, read_events}
use xorc_gateway.Events.Response.{success, new_result, response_from, response_json}
use xorc_gateway.Gateway.{Env, Chance}
use xorc_gateway.Gateway.Acceptance.{handle_sdk_served}
use xorc_gateway.Gateway.Answers.{IsPlain}
use xorc_gateway.Gateway.Handlers.{Request, origin_refused, sdk_builder, handle_sdk}
use xorc_gateway.Gateway.Requests.{verdict, read_context}
use xorc_gateway.Gateway.Responses.{handle_sdk-sent}
use xorc_gateway.Results.{ok}
use xorc_gateway.World.{World}

-- `serde_json::from_slice` parses the text to a document and reads the batch from it.
abbrev pub Parses : Env → (Text → Option Value) → Type 0
Parses env parse = (body : Text) → env.from_slice body ≡ (parse body >>= decode_batch)

module _ (env : Env) (parse : Text → Option Value) (parses : Parses env parse) (chance : Chance)
    (req : Request) (w : World env.cluster) where
  read_of :
      (body : Text) (v : Value) (b : SdkEventBatch)
      → parse body ≡ some v
      → decode_batch v ≡ some b
      → env.from_slice body ≡ some b
  read_of body v b parsed decoded = parses body ∙ (ap (λ o. o >>= decode_batch) parsed ∙ decoded)

  -- Where a request whose body is a JSON object is answered with status 200, the object has an
  -- environment, events and a device, each once, which are those of the batch that was read, and the
  -- timestamps of its events and the numbers of its device are within their bounds.
  pub handle_sdk-Once :
      (body : Text) (fs : Fields) (r : Response)
      → req.body ≡ some body
      → parse body ≡ some (object fs)
      → (handle_sdk env chance req w).0 ≡ returned r
      → r.status ≡ 200
      → (b : SdkEventBatch) × (env.from_slice body ≡ some b)
        × Once decode_environment (text "environment") fs b.environment
        × Once read_events (text "events") fs b.events
        × Once decode_device (text "device") fs b.device
        × Recipient (values_of (text "recipient_id") fs) b.recipient_id
        × IsBounded b
  handle_sdk-Once body fs r given parsed answered fine =
      elim (handle_sdk-sent env chance req w r answered) [
        | inr (other, unsent) ↦ absurd (other fine)
        | inl (status, body', c, given', json, same, served, sent) ↦
            let b = served.batch in
            let equal : body' ≡ body = some-injective body' body (sym given' ∙ given) in
            let read : env.from_slice body ≡ some b =
              subst (λ t. env.from_slice t ≡ some b) equal served.parsed in
            let decoded : decode_batch (object fs) ≡ some b =
              sym (parses body ∙ ap (λ o. o >>= decode_batch) parsed) ∙ read in
            let (e, v, d, rc) = (decode_batch-eq-some_iff fs b).0 decoded in
            (b, read, e, v, d, rc, decode_batch-IsBounded (object fs) b decoded)
      ]

  -- Under a lawful sorter, a request whose body is the JSON document of a batch, with its fields by
  -- their names, that is within its bounds, with maps for properties and readable numbers, is answered
  -- with status 200 and one successful result per event, if its origin is allowed, it is validated,
  -- none of its events registers a device, and the future of the producer comes to a report.
  pub handle_sdk-batch_value :
      (f : ℤ → Option F64) (body : Text) (b : SdkEventBatch) (c : Context) (builder : Builder)
      → IsSorter env.translation.sorter
      → req.body ≡ some body
      → parse body ≡ some (batch_value f b)
      → IsBounded b
      → All (λ e. IsMap e.properties) b.events
      → read_context env req.headers b ≡ returned c
      → origin_refused env c ≡ false
      → verdict env w body b c ≡ ok tt
      → All (λ e. AllNumbers e.properties) b.events
      → ((m : Message) → (d : Delivery) × (env.producer.send w.sent m ≡ some d))
      → sdk_builder env c ≡ returned builder
      → IsPlain b.events
      → (handle_sdk env chance req w).0
        ≡ returned (record {
          status = 200;
          headers = builder.headers ++ (text "content-type", text "application/json") ∷ [];
          body =
              env.to_string
                (response_json (response_from (map (λ e. new_result e.id success) b.events)));
        })
  handle_sdk-batch_value f body b c builder sorter given parsed bounded maps read allowed validated
        numbers reports headers plain =
      handle_sdk_served env chance req w body b c builder sorter
        (record {
          read = record {
            given = given;
            parsed =
                read_of body (batch_value f b) b parsed (decode_batch-batch_value f b bounded maps);
            read = read;
          };
          allowed = allowed;
          validated = validated;
          numbers = numbers;
          reports = reports;
          headers = headers;
        })
        plain
