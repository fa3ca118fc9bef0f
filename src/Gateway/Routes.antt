-- ===== src/Gateway/Routes.antt =====
-- How src/gateway.rs routes requests, and how it counts them.
use xorc_gateway.Base.{
  [], ◌≡◌, ◌≢◌, ◌⊎◌, refl, Text, text, Text-discrete, text_eq, ℕ_eq, arith, Outcome, returned,
  Outcome-cases, Option-cases, sym, inl, inr, ap, ◌∙◌,
}
use xorc_gateway.Cors.{Response, response_builder_wildcard, finish, new_builder}
use xorc_gateway.Events.Timestamp.{u64_to_text}
use xorc_gateway.Gateway.{Env, Chance}
use xorc_gateway.Gateway.Handlers.{
  Request, Method, options, post, get, other, sdk_path, count_request, handle_sdk, handle_options,
  handle_metrics, service,
}
use xorc_gateway.Gateway.Responses.{handle_sdk_counted, u64_to_text_200, count_request_lem}
use xorc_gateway.Metrics.{inc_labels}
use xorc_gateway.World.{World}

abbrev metrics_path : Text
metrics_path = text "/metrics"

-- The name under which a request is counted.
pub data Endpoint (req : Request) : Text → Type 0 where
  at_sdk : req.method ≡ post → req.path ≡ sdk_path → Endpoint req (text "sdk_events")
  at_options : req.method ≡ options → req.path ≡ sdk_path → Endpoint req (text "options")
  nowhere :
      (req.path ≢ sdk_path) ⊎ ((req.method ≢ post) × (req.method ≢ options))
      → (req.path ≢ metrics_path) ⊎ (req.method ≢ get)
      → Endpoint req (text "not_found")

u64_to_text_404 : u64_to_text 404 ≡ text "404"
unfolding u64_to_text ℕ_eq
u64_to_text_404 = refl

pub Method-cases : (m : Method) → (m ≡ options) ⊎ (m ≡ post) ⊎ (m ≡ get) ⊎ (m ≡ other)
Method-cases options = inl refl
Method-cases post = inr (inl refl)
Method-cases get = inr (inr (inl refl))
Method-cases other = inr (inr (inr refl))

handle_options-status :
    (env : Env) (r : Response) → handle_options env ≡ returned r → r.status ≡ 200
unfolding handle_options
handle_options-status env r e = elim (Option-cases env.cors) [
  | inl absent ↦ ground arith
  | inr (cors, present) ↦ elim (Outcome-cases (response_builder_wildcard env.http cors)) [
    | inl stops ↦ ground arith
    | inr (builder, made) ↦ ground arith
  ]
]

module _ (env : Env) (chance : Chance) (req : Request) (w : World env.cluster) where
  abbrev pub Counted : Response → Type 0
  Counted r =
      (endpoint : Text) × Endpoint req endpoint
      × ((service env chance req w).1.metrics.requests
          ≡ inc_labels (u64_to_text r.status) endpoint w.metrics.requests)

  abbrev not_found : Outcome Response × World env.cluster
  not_found =
      (returned (finish new_builder 404 []), count_request env (text "404") (text "not_found") w)

  Counted-nowhere :
      (r : Response)
      → Endpoint req (text "not_found")
      → service env chance req w ≡ not_found
      → (service env chance req w).0 ≡ returned r
      → Counted r
  Counted-nowhere r there missing e =
      let status : r.status ≡ 404 = ground (arith, missing, e) in
      (
        text "not_found",
        there,
        rw (missing, status, u64_to_text_404)
            (count_request_lem env (text "404") (text "not_found") w w refl),
      )

  Counted-options :
      (r : Response)
      → Endpoint req (text "options")
      → service env chance req w
        ≡ (handle_options env, count_request env (text "200") (text "options") w)
      → (service env chance req w).0 ≡ returned r
      → Counted r
  Counted-options r there served e =
      let status : r.status ≡ 200 = handle_options-status env r (ap (λ p. p.0) (sym served) ∙ e) in
      (
        text "options",
        there,
        rw (served, status, u64_to_text_200)
            (count_request_lem env (text "200") (text "options") w w refl),
      )

  Counted-sdk :
      (r : Response)
      → Endpoint req (text "sdk_events")
      → service env chance req w ≡ handle_sdk env chance req w
      → (service env chance req w).0 ≡ returned r
      → Counted r
  Counted-sdk r there served e = (
    text "sdk_events",
    there,
    rw served (handle_sdk_counted env chance req w r (rw (← served) e)),
  )

  pub service_post :
      req.method ≡ post
      → req.path ≡ sdk_path
      → service env chance req w ≡ handle_sdk env chance req w
  unfolding service
  service_post m p = ground (arith, m, p)

  service_options :
      req.method ≡ options
      → req.path ≡ sdk_path
      → service env chance req w
        ≡ (handle_options env, count_request env (text "200") (text "options") w)
  unfolding service
  service_options m p = ground (arith, m, p)

  service_get :
      req.method ≡ get
      → req.path ≡ metrics_path
      → service env chance req w ≡ (returned (handle_metrics env w), w)
  unfolding service
  service_get m p = ground (arith, m, p)

  service_nowhere :
      (req.path ≢ sdk_path) ⊎ ((req.method ≢ post) × (req.method ≢ options))
      → (req.path ≢ metrics_path) ⊎ (req.method ≢ get)
      → service env chance req w ≡ not_found
  unfolding service
  service_nowhere here there = elim (Method-cases req.method) [
    | inl m ↦ ground (arith, m)
    | inr (inl m) ↦ ground (arith, m)
    | inr (inr (inl m)) ↦ ground (arith, m)
    | inr (inr (inr m)) ↦ ground (arith, m)
  ]

  -- Where a request gets a response, it is either a `GET` of the metrics, which changes nothing, or
  -- it is counted exactly once, under the status of its response and the name of its route:
  -- `sdk_events` for a `POST` and `options` for an `OPTIONS` request to the path of the SDK, and
  -- `not_found` for all others.
  pub service-Counted :
      (r : Response)
      → (service env chance req w).0 ≡ returned r
      → ((req.method ≡ get)
          × (req.path ≡ metrics_path)
          × (service env chance req w ≡ (returned (handle_metrics env w), w)))
        ⊎ Counted r
  service-Counted r e =
      let lost : (req.path ≢ sdk_path) ⊎ ((req.method ≢ post) × (req.method ≢ options))
          → (req.path ≢ metrics_path) ⊎ (req.method ≢ get)
          → ((req.method ≡ get)
              × (req.path ≡ metrics_path)
              × (service env chance req w ≡ (returned (handle_metrics env w), w)))
            ⊎ Counted r =
        λ here there. inr (Counted-nowhere r (nowhere here there) (service_nowhere here there) e) in
      elim (Method-cases req.method) [
        | inl m ↦ elim (Text-discrete req.path sdk_path) [
          | yes p ↦ inr (Counted-options r (at_options m p) (service_options m p) e)
          | no p ↦ lost (inl p) (inr (λ n. cc))
        ]
        | inr (inl m) ↦ elim (Text-discrete req.path sdk_path) [
          | yes p ↦ inr (Counted-sdk r (at_sdk m p) (service_post m p) e)
          | no p ↦ lost (inl p) (inr (λ n. cc))
        ]
        | inr (inr (inl m)) ↦ elim (Text-discrete req.path metrics_path) [
          | yes p ↦ inl (m, p, service_get m p)
          | no p ↦ lost (inr (λ n. cc, λ n. cc)) (inl p)
        ]
        | inr (inr (inr m)) ↦ lost (inr (λ n. cc, λ n. cc)) (inr (λ n. cc))
      ]
