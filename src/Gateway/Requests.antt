-- ===== src/Gateway/Requests.antt =====
-- Which requests src/gateway.rs serves, and what is sent downstream for them.
use xorc_gateway.Base.{
  true, false, Option, none, some, ◌≡◌, ◌≢◌, refl, Text, arith, Outcome, returned, Outcome-cases,
  Option-cases, Bool-cases, inl, inr, ap, ◌∙◌,
}
use xorc_gateway.AppRegistry.{validate}
use xorc_gateway.Context.{Context, new_context}
use xorc_gateway.Crates.{HeaderMap}
use xorc_gateway.Error.{GatewayError}
use xorc_gateway.Events.Batch.{SdkEventBatch}
use xorc_gateway.Events.Device.{platform}
use xorc_gateway.Gateway.{Env, Chance}
use xorc_gateway.Gateway.Delivery.{IsProcessed, process-ok, process_failed}
use xorc_gateway.Gateway.Handlers.{
  origin_refused, process, handle_in_context, handle_event, handle_body,
}
use xorc_gateway.Results.{Result, ok, Result-cases}
use xorc_gateway.World.{World}

-- What `validate` says of a batch, and the context that its request gives.
abbrev pub verdict :
    (env : Env)
    → World env.cluster
    → Text
    → SdkEventBatch
    → Context
    → Result GatewayError (Unit {0})
verdict env w body b c =
    validate env.crypto.base64 env.hmac env.config.gateway.default_token w.registry b c body

abbrev pub read_context : Env → HeaderMap → SdkEventBatch → Outcome Context
read_context env headers b =
    new_context env.crypto env.http env.translation.network headers b.environment.app_id
      (platform b.device)

module _ (env : Env) (chance : Chance) (headers : HeaderMap) (w : World env.cluster) where
  -- What holds of a request that is served.
  pub record IsServed (body : Text) (json : Text) (c' : Context) : Type 0 where
    pub batch : SdkEventBatch
    pub context : Context
    pub parsed : env.from_slice body ≡ some batch
    pub read : read_context env headers batch ≡ returned context
    pub allowed : origin_refused env context ≡ false
    pub validated : verdict env w body batch context ≡ ok tt
    pub handled : handle_body env chance (some body) headers w ≡ process env chance context batch w
    pub processed : IsProcessed env chance context batch w json c'

  module _ (body : Text) (b : SdkEventBatch) (c : Context) where
    refused_lem : origin_refused env c ≡ true → (handle_in_context env chance body b c w).1 ≡ w
    unfolding handle_in_context
    refused_lem refused = rw (handle_in_context, refused)

    pub validated_lem :
        origin_refused env c ≡ false
        → verdict env w body b c ≡ ok tt
        → handle_in_context env chance body b c w ≡ process env chance c b w
    unfolding handle_in_context
    validated_lem allowed validated = rw (handle_in_context, allowed, validated)

    handle_in_context-ok :
        (json : Text) (c' : Context)
        → (handle_in_context env chance body b c w).0 ≡ returned (ok (json, c'))
        → (origin_refused env c ≡ false)
          × (verdict env w body b c ≡ ok tt)
          × (handle_in_context env chance body b c w ≡ process env chance c b w)
    unfolding handle_in_context
    handle_in_context-ok json c' e = elim (Bool-cases (origin_refused env c)) [
      | inl refused ↦ ground arith
      | inr allowed ↦ elim (Result-cases (verdict env w body b c)) [
        | inr (failure, rejected) ↦ ground arith
        | inl (done, validated) ↦ (allowed, validated, validated_lem allowed validated)
      ]
    ]

    handle_in_context_failed :
        ((json : Text) (c' : Context)
          → (handle_in_context env chance body b c w).0 ≢ returned (ok (json, c')))
        → (handle_in_context env chance body b c w).1.sent ≡ w.sent
    handle_in_context_failed never = elim (Bool-cases (origin_refused env c)) [
      | inl refused ↦ ap (λ w'. w'.sent) (refused_lem refused)
      | inr allowed ↦ elim (Result-cases (verdict env w body b c)) [
        | inr (failure, rejected) ↦ unfold handle_in_context in ground arith
        | inl (done, validated) ↦
            let whole = validated_lem allowed validated in
            rw whole (process_failed env chance c b w (λ json c'. rw (← whole) (never json c')))
      ]
    ]

  pub handle_event_lem :
      (body : Text) (b : SdkEventBatch) (c : Context)
      → read_context env headers b ≡ returned c
      → handle_event env chance body b headers w ≡ handle_in_context env chance body b c w
  unfolding handle_event
  handle_event_lem body b c read = rw (handle_event, read)

  pub handle_body_lem :
      (body : Text) (b : SdkEventBatch)
      → env.from_slice body ≡ some b
      → handle_body env chance (some body) headers w ≡ handle_event env chance body b headers w
  unfolding handle_body
  handle_body_lem body b parsed = rw (handle_body, parsed)

  serve :
      (body : Text) (b : SdkEventBatch) (json : Text) (c' : Context)
      → env.from_slice body ≡ some b
      → (handle_body env chance (some body) headers w).0 ≡ returned (ok (json, c'))
      → IsServed body json c'
  unfolding handle_event
  serve body b json c' parsed e = elim (Outcome-cases (read_context env headers b)) [
    | inl stops ↦ ground (arith, handle_body_lem body b parsed)
    | inr (c, read) ↦
        let whole = handle_body_lem body b parsed ∙ handle_event_lem body b c read in
        let (allowed, validated, same) = handle_in_context-ok body b c json c' (rw (← whole) e) in
        record {
          batch = b;
          context = c;
          parsed = parsed;
          read = read;
          allowed = allowed;
          validated = validated;
          handled = whole ∙ same;
          processed = process-ok env chance c b w json c' (ground arith);
        }
  ]

  pub handle_body-ok :
      (body : Option Text) (json : Text) (c' : Context)
      → (handle_body env chance body headers w).0 ≡ returned (ok (json, c'))
      → (bytes : Text) × (body ≡ some bytes) × IsServed bytes json c'
  unfolding handle_body
  handle_body-ok none json c' e = ground arith
  handle_body-ok (some body) json c' e = elim (Option-cases (env.from_slice body)) [
    | inl broken ↦ ground arith
    | inr (b, parsed) ↦ (body, refl, serve body b json c' parsed e)
  ]

  unserved :
      (body : Text) (b : SdkEventBatch)
      → ((json : Text) (c' : Context)
          → (handle_event env chance body b headers w).0 ≢ returned (ok (json, c')))
      → (handle_event env chance body b headers w).1.sent ≡ w.sent
  unserved body b never = elim (Outcome-cases (read_context env headers b)) [
    | inl stops ↦ unfold handle_event in rw (handle_event, stops)
    | inr (c, read) ↦
        let whole = handle_event_lem body b c read in
        rw whole (handle_in_context_failed body b c (λ json c'. rw (← whole) (never json c')))
  ]

  pub handle_body_failed :
      (body : Option Text)
      → ((json : Text) (c' : Context)
          → (handle_body env chance body headers w).0 ≢ returned (ok (json, c')))
      → (handle_body env chance body headers w).1.sent ≡ w.sent
  unfolding handle_body
  handle_body_failed none never = refl
  handle_body_failed (some body) never = elim (Option-cases (env.from_slice body)) [
    | inl broken ↦ ground arith
    | inr (b, parsed) ↦
        let whole = handle_body_lem body b parsed in
        rw whole (unserved body b (λ json c'. rw (← whole) (never json c')))
  ]
