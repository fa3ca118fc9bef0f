-- ===== src/Gateway/Signatures.antt =====
-- Whether empty signatures are allowed, over the runs of src/gateway.rs.
use xorc_gateway.Base.{
  ◌≡◌, ◌∙◌, refl, ap, Text, Text-discrete, text_eq, arith, Outcome-cases, inl, inr,
}
use xorc_gateway.AppRegistry.Failures.{update_apps-frame}
use xorc_gateway.Context.{Context}
use xorc_gateway.Crates.{Hex}
use xorc_gateway.Gateway.{Env, Chance}
use xorc_gateway.Gateway.Counters.{handle_body-IsUncounted}
use xorc_gateway.Gateway.Handlers.{
  Failure, Request, sdk_path, service, handle_sdk, handle_body, respond, count_request,
}
use xorc_gateway.Gateway.Histories.{History, begins, request, reload, handle_sdk_stops}
use xorc_gateway.Gateway.Responses.{handle_sdk_lem}
use xorc_gateway.Gateway.Routes.{Method-cases, service_post}
use xorc_gateway.Results.{Result, ok, err}
use xorc_gateway.World.{World}

module _ (env : Env) where
  respond-registry :
      (result : Result Failure (Text × Context)) (w : World env.cluster)
      → (respond env result w).1.registry ≡ w.registry
  unfolding respond count_request
  respond-registry (ok (json, c)) w = ground arith
  respond-registry (err (e, c)) w = ground arith

  module _ (chance : Chance) (req : Request) (w : World env.cluster) where
    handle_sdk-registry : (handle_sdk env chance req w).1.registry ≡ w.registry
    handle_sdk-registry =
        let kept = (handle_body-IsUncounted env chance w req.body req.headers).registry in
        elim (Outcome-cases (handle_body env chance req.body req.headers w).0) [
          | inl stops ↦ ap (λ w'. w'.registry) (handle_sdk_stops env chance req w stops) ∙ kept
          | inr (result, handled) ↦
              ap (λ p. p.1.registry) (handle_sdk_lem env chance req w result handled)
              ∙ (respond-registry result (handle_body env chance req.body req.headers w).1 ∙ kept)
        ]

    service-registry : (service env chance req w).1.registry ≡ w.registry
    unfolding service count_request
    service-registry = elim (Method-cases req.method) [
      | inl m ↦ ground (arith, m)
      | inr (inl m) ↦ elim (Text-discrete req.path sdk_path) [
        | yes p ↦ ap (λ p. p.1.registry) (service_post env chance req w m p) ∙ handle_sdk-registry
        | no p ↦ ground (arith, m)
      ]
      | inr (inr (inl m)) ↦ ground (arith, m)
      | inr (inr (inr m)) ↦ ground (arith, m)
    ]

  -- No sequence of requests and reloads changes whether empty signatures are allowed.
  pub History-allow_empty_signature :
      (hex : Hex) (start w : World env.cluster)
      → History env hex start w
      → w.registry.allow_empty_signature ≡ start.registry.allow_empty_signature
  History-allow_empty_signature hex start _ begins = refl
  History-allow_empty_signature hex start _ (request w chance req before) =
      ap (λ r. r.allow_empty_signature) (service-registry chance req w)
      ∙ History-allow_empty_signature hex start w before
  History-allow_empty_signature hex start _ (reload w before) =
      (update_apps-frame env.cluster hex env.uuids env.config.cassandra.keyspace w).0
      ∙ History-allow_empty_signature hex start w before
