-- ===== src/Gateway/Acceptance.antt =====
-- Requests that src/gateway.rs is bound to serve.
use xorc_gateway.Base.{
  false, some, List, [], ◌∷◌, ◌++◌, ◌≡◌, ◌∙◌, ap, Text, text, map, All, returned,
}
use xorc_gateway.Bus.{Message, Delivery, publish}
use xorc_gateway.Context.{Context}
use xorc_gateway.Cors.{Builder}
use xorc_gateway.Events.Batch.{SdkEventBatch, ProtoBatch}
use xorc_gateway.Events.Batch.Order.{IsSorter}
use xorc_gateway.Events.Batch.Totality.{into_proto-Returns}
use xorc_gateway.Events.Event.Numbers.{AllNumbers}
use xorc_gateway.Events.Response.{EventResult, success, new_result, response_from, response_json}
use xorc_gateway.Gateway.{Env, Chance, generate_event_results}
use xorc_gateway.Gateway.Answers.{IsPlain, plain_lem, find_register_plain}
use xorc_gateway.Gateway.Delivery.{message_for, process_sent}
use xorc_gateway.Gateway.Handlers.{
  Request, origin_refused, process, send_batch, sdk_builder, handle_sdk, respond,
}
use xorc_gateway.Gateway.Registration.{generate_event_results-IsQuiet}
use xorc_gateway.Gateway.Rejections.{IsRead, handle_body_read}
use xorc_gateway.Gateway.Requests.{verdict, validated_lem}
use xorc_gateway.Gateway.Responses.{handle_sdk_lem}
use xorc_gateway.Results.{ok}
use xorc_gateway.World.{World}

module _ (env : Env) where
  send_batch_sent :
      (proto : ProtoBatch) (results : List EventResult) (c : Context) (w : World env.cluster)
      (delivery : Delivery)
      → env.producer.send w.sent (message_for env proto c) ≡ some delivery
      → (send_batch env proto results c w).0
        ≡ ok (env.to_string (response_json (response_from results)), c)
  unfolding send_batch publish
  send_batch_sent proto results c w delivery reported = rw (send_batch, reported)

  -- What a response to a context without CORS headers has.
  respond_plain :
      (json : Text) (c : Context) (w : World env.cluster) (builder : Builder)
      → sdk_builder env c ≡ returned builder
      → (respond env (ok (json, c)) w).0
        ≡ returned (record {
          status = 200;
          headers = builder.headers ++ (text "content-type", text "application/json") ∷ [];
          body = json;
        })
  unfolding respond
  respond_plain json c w builder made = rw (respond, made)

module _ (env : Env) (req : Request) (w : World env.cluster) where
  -- Everything that a request needs to be served, but for the registration of a device.
  pub record IsServable (body : Text) (b : SdkEventBatch) (c : Context) (builder : Builder)
      : Type 0 where
    pub read : IsRead env req w body b c
    pub allowed : origin_refused env c ≡ false
    pub validated : verdict env w body b c ≡ ok tt
    pub numbers : All (λ e. AllNumbers e.properties) b.events
    pub reports : (m : Message) → (d : Delivery) × (env.producer.send w.sent m ≡ some d)
    pub headers : sdk_builder env c ≡ returned builder

module _ (env : Env) (chance : Chance) (req : Request) (w : World env.cluster) where
  process_generated :
      (b : SdkEventBatch) (c c' : Context) (results : List EventResult)
      → IsSorter env.translation.sorter
      → All (λ e. AllNumbers e.properties) b.events
      → ((m : Message) → (d : Delivery) × (env.producer.send w.sent m ≡ some d))
      → (generate_event_results env chance c b w).0 ≡ returned (ok (results, c', b))
      → (process env chance c b w).0
        ≡ returned (ok (env.to_string (response_json (response_from results)), c'))
  process_generated b c c' results lawful numbers reports generated =
      let (proto, translated) = into_proto-Returns env.translation lawful chance.now b c' numbers in
      let w' = (generate_event_results env chance c b w).1 in
      let (delivery, reported) = reports (message_for env proto c') in
      let still : env.producer.send w'.sent (message_for env proto c') ≡ some delivery =
        rw ((generate_event_results-IsQuiet env chance c b w).sent) reported in
      ap (λ p. p.0) (process_sent env chance c b w results c' b proto generated translated)
      ∙ ap returned (send_batch_sent env proto results c' w' delivery still)

  pub handle_sdk_generated :
      (body : Text) (b : SdkEventBatch) (c c' : Context) (builder : Builder)
      (results : List EventResult)
      → IsSorter env.translation.sorter
      → IsServable env req w body b c builder
      → (generate_event_results env chance c b w).0 ≡ returned (ok (results, c', b))
      → sdk_builder env c' ≡ returned builder
      → (handle_sdk env chance req w).0
        ≡ returned (record {
          status = 200;
          headers = builder.headers ++ (text "content-type", text "application/json") ∷ [];
          body = env.to_string (response_json (response_from results));
        })
  handle_sdk_generated body b c c' builder results lawful s generated headers =
      let whole =
        handle_body_read env req w chance body b c s.read
        ∙ validated_lem env chance req.headers w body b c s.allowed s.validated in
      let handled =
        ap (λ p. p.0) whole
        ∙ process_generated b c c' results lawful s.numbers s.reports generated in
      ap (λ p. p.0) (handle_sdk_lem env chance req w _ handled)
      ∙ respond_plain env _ c' _ builder headers

  -- Under a lawful sorter, a request that is read, allowed and validated, whose events register no
  -- device and have readable numbers, and for whose messages the future of the producer comes to a
  -- report, be it of a delivery or of a failure, is answered with status 200 and one successful result per event, in their order, with the CORS headers of its
  -- context and the content type.
  pub handle_sdk_served :
      (body : Text) (b : SdkEventBatch) (c : Context) (builder : Builder)
      → IsSorter env.translation.sorter
      → IsServable env req w body b c builder
      → IsPlain b.events
      → (handle_sdk env chance req w).0
        ≡ returned (record {
          status = 200;
          headers = builder.headers ++ (text "content-type", text "application/json") ∷ [];
          body =
              env.to_string
                (response_json (response_from (map (λ e. new_result e.id success) b.events)));
        })
  handle_sdk_served body b c builder lawful s plain =
      handle_sdk_generated body b c c builder _ lawful s
        (ap (λ p. p.0) (plain_lem env chance c b w (find_register_plain b.events plain))) s.headers
