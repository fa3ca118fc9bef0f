-- ===== src/Gateway/Responses.antt =====
-- What src/gateway.rs answers, and the counter of requests.
use xorc_gateway.Base.{
  ℕ_eq, Option, some, [], ◌∷◌, ◌++◌, ◌≡◌, ◌≢◌, ◌⊎◌, refl, Text, text, arith, returned,
  Outcome-cases, inl, inr, ap, ◌∙◌,
}
use xorc_gateway.Context.{Context}
use xorc_gateway.Cors.{Response}
use xorc_gateway.Error.{GatewayError, status_of, body_of, into_response, response_builder_for}
use xorc_gateway.Events.Timestamp.{u64_to_text}
use xorc_gateway.Gateway.{Env, Chance}
use xorc_gateway.Gateway.Delivery.{report_for}
use xorc_gateway.Gateway.Handlers.{
  Failure, Request, sdk_builder, respond, count_request, handle_body, handle_sdk,
}
use xorc_gateway.Gateway.Counters.{handle_body-IsUncounted}
use xorc_gateway.Gateway.Requests.{IsServed, handle_body-ok, handle_body_failed}
use xorc_gateway.Metrics.{inc_labels}
use xorc_gateway.Results.{Result, ok, err, Result-cases}
use xorc_gateway.World.{World}

-- No error is answered with the status of success.
status_of_error : (e : GatewayError) → status_of e ≢ 200
unfolding status_of
status_of_error e = ground arith

pub u64_to_text_200 : u64_to_text 200 ≡ text "200"
unfolding u64_to_text ℕ_eq
u64_to_text_200 = refl

pub count_request_lem :
    (env : Env) (status endpoint : Text) (w w' : World env.cluster)
    → w'.metrics.requests ≡ w.metrics.requests
    → (count_request env status endpoint w').metrics.requests
      ≡ inc_labels status endpoint w.metrics.requests
unfolding count_request
count_request_lem env status endpoint w w' same = ap (inc_labels status endpoint) same

module _ (env : Env) (w : World env.cluster) where
  respond-ok :
      (json : Text) (c : Context) (r : Response)
      → (respond env (ok (json, c)) w).0 ≡ returned r
      → (r.status ≡ 200)
        × (r.body ≡ json)
        × ((respond env (ok (json, c)) w).1 ≡ count_request env (text "200") (text "sdk_events") w)
  unfolding respond
  respond-ok json c r e = elim (Outcome-cases (sdk_builder env c)) [
    | inl stops ↦ ground arith
    | inr (builder, made) ↦ (ground arith, ground arith, rw (respond, made))
  ]

  pub respond-err :
      (e : GatewayError) (c : Option Context) (r : Response)
      → (respond env (err (e, c)) w).0 ≡ returned r
      → (r.status ≡ status_of e)
        × (r.body ≡ body_of e)
        × ((respond env (err (e, c)) w).1
            ≡ count_request env (u64_to_text r.status) (text "sdk_events") w)
  unfolding respond into_response
  respond-err e c r h = elim (Outcome-cases (response_builder_for env.http env.cors c)) [
    | inl stops ↦ ground arith
    | inr (builder, made) ↦ (ground arith, ground arith, ground arith)
  ]

module _ (env : Env) (chance : Chance) (req : Request) (w : World env.cluster) where
  pub handle_sdk_lem :
      (result : Result Failure (Text × Context))
      → (handle_body env chance req.body req.headers w).0 ≡ returned result
      → handle_sdk env chance req w
        ≡ respond env result (handle_body env chance req.body req.headers w).1
  unfolding handle_sdk
  handle_sdk_lem result handled = rw (handle_sdk, handled)

  handled_of_response :
      (r : Response)
      → (handle_sdk env chance req w).0 ≡ returned r
      → (result : Result Failure (Text × Context)) × ((handle_body env chance req.body req.headers
            w).0
          ≡ returned result)
  unfolding handle_sdk
  handled_of_response r e = elim (Outcome-cases (handle_body env chance req.body req.headers w).0) [
    | inl stops ↦ ground arith
    | inr made ↦ made
  ]

  -- A response of status 200 carries the answer to a request that is served, and the report on its
  -- message is the one that is added; with a response of any other status none is.
  abbrev pub Answered : Response → Type 0
  Answered r =
      ((r.status ≡ 200)
        × (body : Text) × (c : Context) × (req.body ≡ some body)
        × (json : Text) × (r.body ≡ json)
        × (served : IsServed env chance req.headers w body json c) × ((handle_sdk env chance req
              w).1.sent
            ≡ w.sent ++ report_for env served.processed.proto c served.processed.delivery ∷ []))
      ⊎ ((r.status ≢ 200) × ((handle_sdk env chance req w).1.sent ≡ w.sent))

  -- Where an SDK request gets a response, either its status is 200, the body of the request was
  -- read as a batch, the origin was not refused, the request was validated, the batch was
  -- processed, the body of the response is its answer, and the one report that the producer added is
  -- on its message, under the routing key of the request's context, and says that it was delivered
  -- or that it was not; or the status is another and no report was added.
  pub handle_sdk-sent : (r : Response) → (handle_sdk env chance req w).0 ≡ returned r → Answered r
  unfolding count_request
  handle_sdk-sent r e =
      let handling = (handle_body env chance req.body req.headers w).0 in
      let (result, handled) = handled_of_response r e in
      let w' = (handle_body env chance req.body req.headers w).1 in
      elim (Result-cases result) [
        | inl ((json, c), succeeds) ↦
            let handled' : handling ≡ returned (ok (json, c)) = rw (← succeeds) handled in
            let whole = handle_sdk_lem (ok (json, c)) handled' in
            let (status, same, counted) = respond-ok env w' json c r (rw (← whole) e) in
            let (body, given, served) =
              handle_body-ok env chance req.headers w req.body json c handled' in
            inl (
              status,
              body,
              c,
              given,
              json,
              same,
              served,
              ap (λ p. p.1.sent) whole
                  ∙ (ap (λ w''. w''.sent) counted
                      ∙ (rw given (ap (λ p. p.1.sent) served.handled ∙ served.processed.sent))),
            )
        | inr ((failure, c), fails) ↦
            let handled' : handling ≡ returned (err (failure, c)) = rw (← fails) handled in
            let whole = handle_sdk_lem (err (failure, c)) handled' in
            let (status, said, counted) = respond-err env w' failure c r (rw (← whole) e) in
            let kept =
              handle_body_failed env chance req.headers w req.body
                (λ json c'. ground (arith, handled')) in
            inr (
              rw status (status_of_error failure),
              ap (λ p. p.1.sent) whole ∙ (ap (λ w''. w''.sent) counted ∙ kept),
            )
      ]

  pub handle_sdk_counted :
      (r : Response)
      → (handle_sdk env chance req w).0 ≡ returned r
      → (handle_sdk env chance req w).1.metrics.requests
        ≡ inc_labels (u64_to_text r.status) (text "sdk_events") w.metrics.requests
  handle_sdk_counted r e =
      let (result, handled) = handled_of_response r e in
      let w' = (handle_body env chance req.body req.headers w).1 in
      let uncounted = handle_body-IsUncounted env chance w req.body req.headers in
      elim (Result-cases result) [
        | inl ((json, c), succeeds) ↦
            let whole = handle_sdk_lem (ok (json, c)) (rw (← succeeds) handled) in
            let (status, same, counted) = respond-ok env w' json c r (rw (← whole) e) in
            rw (whole, counted, status, u64_to_text_200)
              (count_request_lem env (text "200") (text "sdk_events") w w' uncounted.requests)
        | inr ((failure, c), fails) ↦
            let whole = handle_sdk_lem (err (failure, c)) (rw (← fails) handled) in
            let (status, said, counted) = respond-err env w' failure c r (rw (← whole) e) in
            rw (whole, counted)
              (count_request_lem env (u64_to_text r.status) (text "sdk_events") w w'
                uncounted.requests)
      ]
