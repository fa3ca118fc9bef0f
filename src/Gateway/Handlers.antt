-- ===== src/Gateway/Handlers.antt =====
-- src/gateway.rs: the handlers of requests and the routes.
use xorc_gateway.Base.{
  ℕ, ◌+◌, Bool, false, Option, none, some, List, [], Text, text, ◌==◌, text_eq, if◌then◌else◌, ◌&&◌,
  not, Outcome, returned, panicked, length,
}
use xorc_gateway.AppRegistry.{validate}
use xorc_gateway.Bus.{publish}
use xorc_gateway.Context.{Context, new_context}
use xorc_gateway.Cors.{
  Builder, Response, new_builder, header, finish, valid_origin, response_builder_origin,
  response_builder_wildcard,
}
use xorc_gateway.Crates.{HeaderMap}
use xorc_gateway.Error.{
  GatewayError, unknown_origin, invalid_payload, internal_server_error, into_response,
}
use xorc_gateway.Events.Batch.{SdkEventBatch, ProtoBatch, into_proto}
use xorc_gateway.Events.Device.{platform, is_web}
use xorc_gateway.Events.Response.{EventResult, response_from, response_json}
use xorc_gateway.Events.Timestamp.{u64_to_text}
use xorc_gateway.Gateway.{Env, Chance, generate_event_results}
use xorc_gateway.Metrics.{inc_labels}
use xorc_gateway.Results.{Result, ok, err}
use xorc_gateway.World.{World, Run}

-- The methods that the routes tell apart.
pub data Method : Type 0 where
  options post get other : Method

-- `Request<Body>`; the body is what `concat2` gives, `none` if it fails.
pub record Request : Type 0 where
  pub method : Method
  pub path : Text
  pub headers : HeaderMap
  pub body : Option Text

-- An error of `handle_event` carries the context where the response may depend on it.
abbrev pub Failure : Type 0
Failure = GatewayError × Option Context

abbrev pub sdk_path : Text
sdk_path = text "/xray/events/xorc/sdk/v1"

module _ (env : Env) where
  unfoldable pub count_request : Text → Text → World env.cluster → World env.cluster
  unfolding inc_labels
  count_request status endpoint w = record w {
    metrics = record w.metrics { requests = inc_labels status endpoint w.metrics.requests };
  }

  -- `EVENTS_COUNTER.inc_by(results.len() as f64)`
  count_events : ℕ → World env.cluster → World env.cluster
  count_events n w = record w {
    metrics = record w.metrics { events_total = w.metrics.events_total + n };
  }

  -- The end of `handle_event`, for the message: it is encoded and published, and then answered.
  unfoldable pub send_batch :
      ProtoBatch
      → List EventResult
      → Context
      → World env.cluster
      → Result Failure (Text × Context) × World env.cluster
  unfolding count_events
  send_batch proto results c w =
      let (published, sent) =
        publish env.producer env.config.kafka.topic (env.encode proto) c w.sent in
      let w' : World env.cluster = record w { sent = sent } in
      elim published [
        | err e ↦ (err (e, none), w')
        | ok _ ↦ (
          ok (env.to_string (response_json (response_from results)), c),
          count_events (length results) w',
        )
      ]

  -- The origin check of `handle_event`: whether the request is turned away.
  unfoldable pub origin_refused : Context → Bool
  unfolding valid_origin
  origin_refused c = elim env.cors [
    | none ↦ false
    | some cors ↦ is_web c.platform && not (valid_origin cors c.app_id c.origin)
  ]

  module _ (chance : Chance) where
    -- What follows on a request that is accepted.
    unfoldable pub process :
        Context → SdkEventBatch → Run env.cluster (Result Failure (Text × Context))
    process c b w =
        let (generated, w') = generate_event_results env chance c b w in
        elim generated [
          | panicked ↦ (panicked, w')
          | returned (err e) ↦ (returned (err (e, none)), w')
          | returned (ok (results, c', b')) ↦ elim (into_proto env.translation chance.now b' c') [
            | panicked ↦ (panicked, w')
            | returned proto ↦
                let (answer, w'') = send_batch proto results c' w' in (returned answer, w'')
          ]
        ]

    -- `handle_event` for the context of the request.
    unfoldable pub handle_in_context :
        Text → SdkEventBatch → Context → Run env.cluster (Result Failure (Text × Context))
    handle_in_context body b c w =
        if origin_refused c
        then (returned (err (unknown_origin, some c)), w)
        else elim (validate env.crypto.base64 env.hmac env.config.gateway.default_token w.registry b
            c body) [ err e ↦ (returned (err (e, some c)), w) | ok _ ↦ process c b w ]

    -- `Gateway::handle_event`
    unfoldable pub handle_event :
        Text → SdkEventBatch → HeaderMap → Run env.cluster (Result Failure (Text × Context))
    handle_event body b headers w =
        elim (new_context env.crypto env.http env.translation.network headers b.environment.app_id
          (platform b.device)) [
            | panicked ↦ (panicked, w)
            | returned c ↦ handle_in_context body b c w
          ]

    -- The body of the request, read as a batch and handled.
    unfoldable pub handle_body :
        Option Text → HeaderMap → Run env.cluster (Result Failure (Text × Context))
    handle_body none headers w =
        (returned (err (internal_server_error (text "body concat"), none)), w)
    handle_body (some body) headers w = elim (env.from_slice body) [
      | none ↦ (returned (err (invalid_payload, none)), w)
      | some b ↦ handle_event body b headers w
    ]

  unfoldable pub sdk_builder : Context → Outcome Builder
  unfolding response_builder_origin
  sdk_builder c = elim env.cors [
    | none ↦ returned new_builder
    | some cors ↦ response_builder_origin env.http cors c.app_id c.origin c.platform
  ]

  -- The response of `handle_sdk` to what the handling gave.
  unfoldable pub respond : Result Failure (Text × Context) → Run env.cluster Response
  unfolding sdk_builder count_request
  respond (ok (json_body, c)) w = elim (sdk_builder c) [
    | panicked ↦ (panicked, w)
    | returned builder ↦ (
      returned
          (finish (header (text "content-type") (text "application/json") builder) 200 json_body),
      count_request (text "200") (text "sdk_events") w,
    )
  ]
  respond (err (e, c)) w = elim (into_response env.http env.cors e c) [
    | panicked ↦ (panicked, w)
    | returned response ↦
        (returned response, count_request (u64_to_text response.status) (text "sdk_events") w)
  ]

  -- `Gateway::handle_sdk`
  unfoldable pub handle_sdk : Chance → Request → Run env.cluster Response
  handle_sdk chance req w =
      let (handled, w') = handle_body chance req.body req.headers w in
      elim handled [ panicked ↦ (panicked, w') | returned result ↦ respond result w' ]

  -- `Gateway::handle_metrics`
  unfoldable pub handle_metrics : World env.cluster → Response
  handle_metrics w =
      finish (header (text "content-type") env.format_type new_builder) 200 (env.gather w.metrics)

  -- `Gateway::handle_options`
  unfoldable pub handle_options : Outcome Response
  unfolding response_builder_wildcard
  handle_options =
      elim (elim env.cors as (λ c. Outcome Builder) [
        | none ↦ returned new_builder
        | some cors ↦ response_builder_wildcard env.http cors
      ]) [ panicked ↦ panicked | returned builder ↦ returned (finish builder 200 []) ]

  -- `Gateway::service`
  unfoldable pub service : Chance → Request → Run env.cluster Response
  unfolding count_request
  service chance req w =
      let not_found : Outcome Response × World env.cluster =
        (returned (finish new_builder 404 []), count_request (text "404") (text "not_found") w) in
      elim req.method [
        | options ↦
            if req.path == sdk_path
            then (handle_options, count_request (text "200") (text "options") w)
            else not_found
        | post ↦ if req.path == sdk_path then handle_sdk chance req w else not_found
        | get ↦ if req.path == text "/metrics" then (returned (handle_metrics w), w) else not_found
        | other ↦ not_found
      ]
