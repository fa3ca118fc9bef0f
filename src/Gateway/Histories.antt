-- ===== src/Gateway/Histories.antt =====
-- Runs of src/gateway.rs over many requests, between which the registry may be reloaded.
use mathlib.Core.List.{append_assoc, append-nil}
use xorc_gateway.Base.{
  ◌≡◌, ◌≢◌, ◌∙◌, ap, sym, some, List, [], ◌∷◌, ◌++◌, Text, Text-discrete, text_eq, arith, returned,
  panicked, Outcome-cases, inl, inr,
}
use xorc_gateway.AppRegistry.Failures.{update_apps-frame}
use xorc_gateway.AppRegistry.Updates.{update_apps}
use xorc_gateway.Bus.{Report}
use xorc_gateway.Context.{Context}
use xorc_gateway.Crates.{Hex}
use xorc_gateway.Gateway.{Env, Chance}
use xorc_gateway.Gateway.Delivery.{report_for}
use xorc_gateway.Gateway.Handlers.{
  Failure, Request, post, sdk_path, service, handle_sdk, handle_body, respond, count_request,
}
use xorc_gateway.Gateway.Requests.{IsServed, handle_body-ok, handle_body_failed}
use xorc_gateway.Gateway.Responses.{handle_sdk_lem}
use xorc_gateway.Gateway.Routes.{Method-cases, service_post}
use xorc_gateway.Results.{Result, ok, err, Result-cases}
use xorc_gateway.World.{World}

module _ (env : Env) where
  -- What a request, in a state, adds to the reports. Either it is an SDK request that is served, and
  -- it is the report on its message; or it is none or is not served, and it is nothing.
  pub data Logged (w : World env.cluster) (chance : Chance) (req : Request)
      : List Report → Type 0 where
    one :
        (body json : Text) (c : Context)
        → req.method ≡ post
        → req.path ≡ sdk_path
        → req.body ≡ some body
        → (served : IsServed env chance req.headers w body json c)
        → Logged w chance req
            (report_for env served.processed.proto c served.processed.delivery ∷ [])
    no_one :
        (req.method ≡ post
          → req.path ≡ sdk_path
          → (json : Text) (c : Context)
          → (handle_body env chance req.body req.headers w).0 ≢ returned (ok (json, c)))
        → Logged w chance req []

  respond-sent :
      (result : Result Failure (Text × Context)) (w : World env.cluster)
      → (respond env result w).1.sent ≡ w.sent
  unfolding respond count_request
  respond-sent (ok (json, c)) w = ground arith
  respond-sent (err (e, c)) w = ground arith

  module _ (chance : Chance) (req : Request) (w : World env.cluster) where
    pub handle_sdk_stops :
        (handle_body env chance req.body req.headers w).0 ≡ panicked
        → (handle_sdk env chance req w).1 ≡ (handle_body env chance req.body req.headers w).1
    unfolding handle_sdk
    handle_sdk_stops stops = rw (handle_sdk, stops)

    handle_sdk-handle_body-sent :
        (handle_sdk env chance req w).1.sent
        ≡ (handle_body env chance req.body req.headers w).1.sent
    handle_sdk-handle_body-sent =
        elim (Outcome-cases (handle_body env chance req.body req.headers w).0) [
          | inl stops ↦ ap (λ w'. w'.sent) (handle_sdk_stops stops)
          | inr (result, handled) ↦
              ap (λ p. p.1.sent) (handle_sdk_lem env chance req w result handled)
              ∙ respond-sent result (handle_body env chance req.body req.headers w).1
        ]

    -- What is added from one state to another is what the request says.
    abbrev Adds : World env.cluster → Type 0
    Adds w' = (more : List Report) × (w'.sent ≡ w.sent ++ more) × Logged w chance req more

    nothing :
        (w' : World env.cluster)
        → w'.sent ≡ w.sent
        → (req.method ≡ post
            → req.path ≡ sdk_path
            → (json : Text) (c : Context)
            → (handle_body env chance req.body req.headers w).0 ≢ returned (ok (json, c)))
        → Adds w'
    nothing w' same never = ([], same ∙ sym (append-nil w.sent), no_one never)

    failed-Adds :
        ((json : Text) (c : Context)
          → (handle_body env chance req.body req.headers w).0 ≢ returned (ok (json, c)))
        → Adds (handle_sdk env chance req w).1
    failed-Adds never =
        nothing (handle_sdk env chance req w).1
          (handle_sdk-handle_body-sent ∙ handle_body_failed env chance req.headers w req.body never)
          (λ m p. never)

    handle_sdk-Adds : req.method ≡ post → req.path ≡ sdk_path → Adds (handle_sdk env chance req w).1
    handle_sdk-Adds m p = elim (Outcome-cases (handle_body env chance req.body req.headers w).0) [
      | inl stops ↦ failed-Adds (λ json c. ground (arith, stops))
      | inr (result, handled) ↦ elim (Result-cases result) [
        | inr (failure, fails) ↦ failed-Adds (λ json c. ground (arith, handled, fails))
        | inl ((json, c), succeeds) ↦
            let (body, given, served) =
              handle_body-ok env chance req.headers w req.body json c (rw (← succeeds) handled) in
            (
              report_for env served.processed.proto c served.processed.delivery ∷ [],
              handle_sdk-handle_body-sent
                  ∙ (rw given (ap (λ p. p.1.sent) served.handled ∙ served.processed.sent)),
              one body json c m p given served,
            )
      ]
    ]

    service-Adds : Adds (service env chance req w).1
    unfolding service count_request
    service-Adds =
        let w' = (service env chance req w).1 in
        elim (Method-cases req.method) [
          | inl m ↦ nothing w' (ground (arith, m)) (λ m'. ground (arith, m))
          | inr (inl m) ↦ elim (Text-discrete req.path sdk_path) [
            | yes p ↦ rw (service_post env chance req w m p) (handle_sdk-Adds m p)
            | no p ↦ nothing w' (ground (arith, m)) (λ m' p'. absurd (p p'))
          ]
          | inr (inr (inl m)) ↦ nothing w' (ground (arith, m)) (λ m'. ground (arith, m))
          | inr (inr (inr m)) ↦ nothing w' (ground (arith, m)) (λ m'. ground (arith, m))
        ]

  module _ (hex : Hex) where
    -- The states that requests and reloads reach from a state.
    pub data History (start : World env.cluster) : World env.cluster → Type 0 where
      begins : History start start
      request :
          (w : World env.cluster) (chance : Chance) (req : Request)
          → History start w
          → History start (service env chance req w).1
      reload :
          (w : World env.cluster)
          → History start w
          → History start (update_apps env.cluster hex env.uuids env.config.cassandra.keyspace w).1

    -- The reports are those that the requests of the history add, one request after the other.
    pub data Logs (start : World env.cluster)
        : (w : World env.cluster) → History start w → List Report → Type 0 where
      none_yet : Logs start start begins []
      requested :
          (w : World env.cluster) (chance : Chance) (req : Request) (h : History start w)
          (before more : List Report)
          → Logs start w h before
          → Logged w chance req more
          → Logs start (service env chance req w).1 (request w chance req h) (before ++ more)
      reloaded :
          (w : World env.cluster) (h : History start w) (before : List Report)
          → Logs start w h before
          → Logs start
              (update_apps env.cluster hex env.uuids env.config.cassandra.keyspace w).1
              (reload w h)
              before

    -- Over any sequence of requests and reloads, the reports of the producer stay and stay in order,
    -- and those that come after them are, one after the other, those of the requests of the sequence:
    -- an SDK request that is served, in the state at which it comes, adds exactly the report on its
    -- message, and any other request, and a reload, adds none.
    pub History-sent :
        (start w : World env.cluster)
        → (h : History start w)
        → (reports : List Report) × (w.sent ≡ start.sent ++ reports) × Logs start w h reports
    History-sent start _ begins = ([], sym (append-nil start.sent), none_yet)
    History-sent start _ (request w chance req h) =
        let (before, held, logs) = History-sent start w h in
        let (more, added, logged) = service-Adds chance req w in
        (
          before ++ more,
          added ∙ (ap (λ l. l ++ more) held ∙ append_assoc start.sent before more),
          requested w chance req h before more logs logged,
        )
    History-sent start _ (reload w h) =
        let (before, held, logs) = History-sent start w h in
        (
          before,
          (update_apps-frame env.cluster hex env.uuids env.config.cassandra.keyspace w).1 ∙ held,
          reloaded w h before logs,
        )
