-- ===== src/Gateway/Cancellations.antt =====
-- What src/gateway.rs answers where the producer of the message bus gives no report.
use xorc_gateway.Base.{
  arith, ℕ_eq, none, false, ◌≡◌, ◌∙◌, refl, ap, List, Text, text, All, returned,
}
use xorc_gateway.Bus.{Message, publish}
use xorc_gateway.Context.{Context}
use xorc_gateway.Cors.{Response}
use xorc_gateway.Error.{service_unavailable, status_of, body_of}
use xorc_gateway.Events.Batch.{SdkEventBatch, ProtoBatch}
use xorc_gateway.Events.Batch.Order.{IsSorter}
use xorc_gateway.Events.Batch.Totality.{into_proto-Returns}
use xorc_gateway.Events.Event.Numbers.{AllNumbers}
use xorc_gateway.Events.Response.{EventResult}
use xorc_gateway.Events.Timestamp.{u64_to_text}
use xorc_gateway.Gateway.{Env, Chance}
use xorc_gateway.Gateway.Answers.{IsPlain, plain_lem, find_register_plain}
use xorc_gateway.Gateway.Delivery.{message_for, process_sent}
use xorc_gateway.Gateway.Handlers.{
  Request, origin_refused, process, send_batch, handle_body, handle_sdk, count_request,
}
use xorc_gateway.Gateway.Rejections.{IsRead, handle_body_read}
use xorc_gateway.Gateway.Requests.{verdict, validated_lem}
use xorc_gateway.Gateway.Responses.{handle_sdk_lem, respond-err}
use xorc_gateway.Results.{ok, err}
use xorc_gateway.World.{World}

u64_to_text_503 : u64_to_text 503 ≡ text "503"
unfolding u64_to_text ℕ_eq
u64_to_text_503 = refl

module _ (env : Env) (chance : Chance) (req : Request) (w : World env.cluster) where
  send_batch_canceled :
      (proto : ProtoBatch) (results : List EventResult) (c : Context)
      → env.producer.send w.sent (message_for env proto c) ≡ none
      → send_batch env proto results c w
        ≡ (err (service_unavailable (text "Could not send to kafka"), none), w)
  unfolding send_batch publish
  send_batch_canceled proto results c canceled = ground (arith, canceled)

  process_canceled :
      (b : SdkEventBatch) (c : Context)
      → IsSorter env.translation.sorter
      → All (λ e. AllNumbers e.properties) b.events
      → IsPlain b.events
      → ((m : Message) → env.producer.send w.sent m ≡ none)
      → process env chance c b w
        ≡ (returned (err (service_unavailable (text "Could not send to kafka"), none)), w)
  process_canceled b c lawful numbers plain canceled =
      let (proto, translated) = into_proto-Returns env.translation lawful chance.now b c numbers in
      let generated = plain_lem env chance c b w (find_register_plain b.events plain) in
      process_sent env chance c b w _ c b proto (ap (λ p. p.0) generated) translated
      ∙ rw (generated, send_batch_canceled proto _ c (canceled (message_for env proto c))) refl

  -- A request that is read, allowed and validated, whose events register no device and have readable
  -- numbers, but for whose messages the future of the producer is canceled, is answered, if there is a
  -- response, with 503 and the text of that error; no report is added, no event is counted, and all
  -- that changes is that the request is counted under that status.
  pub handle_sdk_canceled :
      (body : Text) (b : SdkEventBatch) (c : Context) (r : Response)
      → IsSorter env.translation.sorter
      → IsRead env req w body b c
      → origin_refused env c ≡ false
      → verdict env w body b c ≡ ok tt
      → All (λ e. AllNumbers e.properties) b.events
      → IsPlain b.events
      → ((m : Message) → env.producer.send w.sent m ≡ none)
      → (handle_sdk env chance req w).0 ≡ returned r
      → (r.status ≡ 503)
        × (r.body ≡ text "Service unavailable")
        × ((handle_sdk env chance req w).1 ≡ count_request env (text "503") (text "sdk_events") w)
  unfolding status_of body_of
  handle_sdk_canceled body b c r lawful read allowed validated numbers plain canceled h =
      let handled : handle_body env chance req.body req.headers w
          ≡ (returned (err (service_unavailable (text "Could not send to kafka"), none)), w) =
        handle_body_read env req w chance body b c read
        ∙ (validated_lem env chance req.headers w body b c allowed validated
            ∙ process_canceled b c lawful numbers plain canceled) in
      let whole = handle_sdk_lem env chance req w _ (ap (λ p. p.0) handled) in
      let (status, said, counted) =
        respond-err env (handle_body env chance req.body req.headers w).1 _ none r
          (rw (← whole) h) in
      (status, said, ap (λ p. p.1) whole ∙ (counted ∙ rw (handled, status, u64_to_text_503) refl))
