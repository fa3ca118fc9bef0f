-- ===== src/Gateway/Counters.antt =====
-- Which steps of src/gateway.rs leave the counter of requests and the registry alone.
use xorc_gateway.Base.{
  Option, none, some, List, ◌≡◌, refl, Text, arith, returned, Outcome-cases, Option-cases, inl, inr,
  ◌∙◌,
}
use xorc_gateway.Bus.{publish}
use xorc_gateway.Context.{Context, new_context}
use xorc_gateway.Crates.{HeaderMap}
use xorc_gateway.Events.Batch.{SdkEventBatch, ProtoBatch, into_proto}
use xorc_gateway.Events.Device.{platform}
use xorc_gateway.Events.Response.{EventResult}
use xorc_gateway.Gateway.{Env, Chance, generate_event_results}
use xorc_gateway.Gateway.Delivery.{
  process_sent, process_panicked, process_refused, process_untranslated,
}
use xorc_gateway.Gateway.Handlers.{
  send_batch, process, handle_in_context, handle_event, handle_body,
}
use xorc_gateway.Gateway.Registration.{generate_event_results-IsQuiet}
use xorc_gateway.Results.{ok, err, Result-cases}
use xorc_gateway.World.{World}

-- The counter of requests and the registry are the same in both states.
pub record IsUncounted (env : Env) (w w' : World env.cluster) : Type 0 where
  pub requests : w'.metrics.requests ≡ w.metrics.requests
  pub registry : w'.registry ≡ w.registry

module _ (env : Env) where
  IsUncounted-refl : (w : World env.cluster) → IsUncounted env w w
  IsUncounted-refl w = record { requests = refl; registry = refl }

  send_batch-IsUncounted :
      (proto : ProtoBatch) (results : List EventResult) (c : Context) (w : World env.cluster)
      → IsUncounted env w (send_batch env proto results c w).1
  unfolding send_batch publish
  send_batch-IsUncounted proto results c w = ground arith

module _ (env : Env) (chance : Chance) (w : World env.cluster) where
  process-IsUncounted :
      (c : Context) (b : SdkEventBatch) → IsUncounted env w (process env chance c b w).1
  process-IsUncounted c b =
      let quiet = generate_event_results-IsQuiet env chance c b w in
      let w' = (generate_event_results env chance c b w).1 in
      let same : IsUncounted env w w' = record {
        requests = quiet.requests;
        registry = quiet.registry;
      } in
      let gen = (generate_event_results env chance c b w).0 in
      elim (Outcome-cases gen) [
        | inl stops ↦ rw (process_panicked env chance c b w stops) same
        | inr (result, made) ↦ elim (Result-cases result) [
          | inr (failure, refused) ↦
              let made' : gen ≡ returned (err failure) = rw (← refused) made in
              rw (process_refused env chance c b w failure made') same
          | inl ((results, c', b'), generated) ↦
              let made' : gen ≡ returned (ok (results, c', b')) = rw (← generated) made in
              elim (Outcome-cases (into_proto env.translation chance.now b' c')) [
                | inl stops ↦
                    rw (process_untranslated env chance c b w results c' b' made' stops) same
                | inr (proto, translated) ↦
                    let sent = send_batch-IsUncounted env proto results c' w' in
                    rw (process_sent env chance c b w results c' b' proto made' translated) record {
                      requests = sent.requests ∙ quiet.requests;
                      registry = sent.registry ∙ quiet.registry;
                    }
              ]
        ]
      ]

  handle_in_context-IsUncounted :
      (body : Text) (b : SdkEventBatch) (c : Context)
      → IsUncounted env w (handle_in_context env chance body b c w).1
  unfolding handle_in_context
  handle_in_context-IsUncounted body b c =
      ground (arith, process-IsUncounted c b, IsUncounted-refl env w)

  handle_event-IsUncounted :
      (body : Text) (b : SdkEventBatch) (headers : HeaderMap)
      → IsUncounted env w (handle_event env chance body b headers w).1
  unfolding handle_event
  handle_event-IsUncounted body b headers =
      elim (Outcome-cases (
        new_context env.crypto env.http env.translation.network headers b.environment.app_id
          (platform b.device))) [
            | inl stops ↦ rw (handle_event, stops) (IsUncounted-refl env w)
            | inr (c, read) ↦ rw (handle_event, read) (handle_in_context-IsUncounted body b c)
          ]

  pub handle_body-IsUncounted :
      (body : Option Text) (headers : HeaderMap)
      → IsUncounted env w (handle_body env chance body headers w).1
  unfolding handle_body
  handle_body-IsUncounted none headers = IsUncounted-refl env w
  handle_body-IsUncounted (some body) headers = elim (Option-cases (env.from_slice body)) [
    | inl broken ↦ rw (handle_body, broken) (IsUncounted-refl env w)
    | inr (b, parsed) ↦ rw (handle_body, parsed) (handle_event-IsUncounted body b headers)
  ]
