-- ===== src/Gateway/Delivery.antt =====
-- What src/gateway.rs sends downstream, and what it answers then.
use xorc_gateway.Base.{
  ◌+◌, some, none, Option-cases, List, [], ◌∷◌, ◌++◌, ◌≡◌, ◌≢◌, Text, arith, returned, panicked,
  length, Outcome-cases, inl, inr,
}
use xorc_gateway.Bus.{Message, Delivery, Report, publish, routing_key}
use xorc_gateway.Context.{Context}
use xorc_gateway.Error.{GatewayError}
use xorc_gateway.Events.Batch.{SdkEventBatch, ProtoBatch, into_proto}
use xorc_gateway.Events.Response.{EventResult, response_from, response_json}
use xorc_gateway.Gateway.{Env, Chance, generate_event_results}
use xorc_gateway.Gateway.Handlers.{Failure, send_batch, process}
use xorc_gateway.Gateway.Registration.{generate_event_results-IsQuiet}
use xorc_gateway.IfaMatching.Frames.{IsQuiet}
use xorc_gateway.Results.{ok, err, Result-cases}
use xorc_gateway.World.{World}

-- The message for a batch that was translated.
abbrev pub message_for : (env : Env) → ProtoBatch → Context → Message
message_for env proto c = record {
  topic = env.config.kafka.topic;
  payload = env.encode proto;
  key = routing_key c;
}

-- The message with the report that the producer gives on it.
abbrev pub report_for : (env : Env) → ProtoBatch → Context → Delivery → Report
report_for env proto c delivery = record { message = message_for env proto c; delivery = delivery }

module _ (env : Env) where
  send_batch-ok :
      (proto : ProtoBatch) (results : List EventResult) (c : Context) (w : World env.cluster)
      (json : Text) (c' : Context)
      → (send_batch env proto results c w).0 ≡ ok (json, c')
      → (c' ≡ c)
        × (json ≡ env.to_string (response_json (response_from results)))
        × ((send_batch env proto results c w).1.metrics.events_total
            ≡ w.metrics.events_total + length results)
        × ((delivery : Delivery) × (env.producer.send w.sent (message_for env proto c)
              ≡ some delivery)
            × ((send_batch env proto results c w).1.sent
                ≡ w.sent ++ report_for env proto c delivery ∷ []))
  unfolding send_batch publish
  send_batch-ok proto results c w json c' e =
      elim (Option-cases (env.producer.send w.sent (message_for env proto c))) [
        | inl canceled ↦ ground arith
        | inr (delivery, reported) ↦
            (ground arith, ground arith, ground arith, (delivery, reported, ground arith))
      ]

  send_batch-err :
      (proto : ProtoBatch) (results : List EventResult) (c : Context) (w : World env.cluster)
      (f : Failure)
      → (send_batch env proto results c w).0 ≡ err f
      → (send_batch env proto results c w).1.sent ≡ w.sent
  unfolding send_batch publish
  send_batch-err proto results c w f e = ground arith

-- What holds where a batch was processed: its results and its message belong to the same context,
-- and the last report is that on the message.
pub record IsProcessed (env : Env) (chance : Chance) (c : Context) (b : SdkEventBatch)
    (w : World env.cluster) (json : Text) (c' : Context) : Type 0 where
  pub results : List EventResult
  pub batch : SdkEventBatch
  pub proto : ProtoBatch
  pub generated : (generate_event_results env chance c b w).0 ≡ returned (ok (results, c', batch))
  pub translated : into_proto env.translation chance.now batch c' ≡ returned proto
  pub answered : json ≡ env.to_string (response_json (response_from results))
  pub delivery : Delivery
  pub reported : env.producer.send w.sent (message_for env proto c') ≡ some delivery
  pub sent : (process env chance c b w).1.sent ≡ w.sent ++ report_for env proto c' delivery ∷ []
  pub counted :
      (process env chance c b w).1.metrics.events_total ≡ w.metrics.events_total + length results

module _ (env : Env) (chance : Chance) (c : Context) (b : SdkEventBatch)
    (w : World env.cluster) where
  pub process_sent :
      (results : List EventResult) (c' : Context) (b' : SdkEventBatch) (proto : ProtoBatch)
      → (generate_event_results env chance c b w).0 ≡ returned (ok (results, c', b'))
      → into_proto env.translation chance.now b' c' ≡ returned proto
      → let (answer, w') =
          send_batch env proto results c' (generate_event_results env chance c b w).1 in
        process env chance c b w ≡ (returned answer, w')
  unfolding process
  process_sent results c' b' proto generated translated = rw (process, generated, translated)

  pub process_panicked :
      (generate_event_results env chance c b w).0 ≡ panicked
      → process env chance c b w ≡ (panicked, (generate_event_results env chance c b w).1)
  unfolding process
  process_panicked stops = rw (process, stops)

  pub process_refused :
      (e : GatewayError)
      → (generate_event_results env chance c b w).0 ≡ returned (err e)
      → process env chance c b w
        ≡ (returned (err (e, none)), (generate_event_results env chance c b w).1)
  unfolding process
  process_refused e refused = rw (process, refused)

  pub process_untranslated :
      (results : List EventResult) (c' : Context) (b' : SdkEventBatch)
      → (generate_event_results env chance c b w).0 ≡ returned (ok (results, c', b'))
      → into_proto env.translation chance.now b' c' ≡ panicked
      → process env chance c b w ≡ (panicked, (generate_event_results env chance c b w).1)
  unfolding process
  process_untranslated results c' b' generated stops = rw (process, generated, stops)

  generated-IsQuiet : IsQuiet env.cluster w (generate_event_results env chance c b w).1
  generated-IsQuiet = generate_event_results-IsQuiet env chance c b w

  delivered :
      (results : List EventResult) (c' : Context) (b' : SdkEventBatch) (proto : ProtoBatch)
      (json : Text) (d : Context)
      → (generate_event_results env chance c b w).0 ≡ returned (ok (results, c', b'))
      → into_proto env.translation chance.now b' c' ≡ returned proto
      → (process env chance c b w).0 ≡ returned (ok (json, d))
      → IsProcessed env chance c b w json d
  delivered results c' b' proto json d generated translated e =
      let w' = (generate_event_results env chance c b w).1 in
      let whole = process_sent results c' b' proto generated translated in
      let answer : (send_batch env proto results c' w').0 ≡ ok (json, d) = ground (arith, whole) in
      let (same, answered, counted, (delivery, reported, sent)) =
        send_batch-ok env proto results c' w' json d answer in
      rw (same) record {
        results = results;
        batch = b';
        proto = proto;
        generated = generated;
        translated = translated;
        answered = answered;
        delivery = delivery;
        reported = ground (arith, generated-IsQuiet);
        sent = ground (arith, whole, generated-IsQuiet);
        counted = ground (arith, whole, generated-IsQuiet);
      }

  -- A batch that is processed to the end was given results and was translated for the context that
  -- they belong to, the future of the producer for its message came to a report, be it of a delivery
  -- or of a failure, that report is the one that was added, and the counter of events grew by the
  -- number of results.
  pub process-ok :
      (json : Text) (c' : Context)
      → (process env chance c b w).0 ≡ returned (ok (json, c'))
      → IsProcessed env chance c b w json c'
  process-ok json d e = elim (Outcome-cases (generate_event_results env chance c b w).0) [
    | inl stops ↦ ground (arith, process_panicked stops)
    | inr (result, made) ↦ elim (Result-cases result) [
      | inr (failure, refused) ↦ ground (arith, process_refused failure)
      | inl ((results, c', b'), generated) ↦
          elim (Outcome-cases (into_proto env.translation chance.now b' c')) [
            | inl stops ↦ ground (arith, process_untranslated results c' b')
            | inr (proto, translated) ↦
                delivered results c' b' proto json d (rw (← generated) made) translated e
          ]
    ]
  ]

  unsent :
      (results : List EventResult) (c' : Context) (b' : SdkEventBatch) (proto : ProtoBatch)
      → (generate_event_results env chance c b w).0 ≡ returned (ok (results, c', b'))
      → into_proto env.translation chance.now b' c' ≡ returned proto
      → ((json : Text) (d : Context) → (process env chance c b w).0 ≢ returned (ok (json, d)))
      → (process env chance c b w).1.sent ≡ w.sent
  unsent results c' b' proto generated translated never =
      let w' = (generate_event_results env chance c b w).1 in
      let whole = process_sent results c' b' proto generated translated in
      elim (Result-cases (send_batch env proto results c' w').0) [
        | inl ((json, d), answer) ↦ absurd (never json d (ground (arith, whole)))
        | inr (failure, answer) ↦
            ground (
              arith,
              whole,
              send_batch-err env proto results c' w' failure answer,
              generated-IsQuiet,
            )
      ]

  -- Where a batch is not processed to the end, by an error or by a panic, no report is added.
  pub process_failed :
      ((json : Text) (c' : Context) → (process env chance c b w).0 ≢ returned (ok (json, c')))
      → (process env chance c b w).1.sent ≡ w.sent
  process_failed never = elim (Outcome-cases (generate_event_results env chance c b w).0) [
    | inl stops ↦ ground (arith, process_panicked stops, generated-IsQuiet)
    | inr (result, made) ↦ elim (Result-cases result) [
      | inr (failure, refused) ↦ ground (arith, process_refused failure, generated-IsQuiet)
      | inl ((results, c', b'), generated) ↦
          elim (Outcome-cases (into_proto env.translation chance.now b' c')) [
            | inl stops ↦ ground (arith, process_untranslated results c' b', generated-IsQuiet)
            | inr (proto, translated) ↦
                unsent results c' b' proto (rw (← generated) made) translated never
          ]
    ]
  ]
