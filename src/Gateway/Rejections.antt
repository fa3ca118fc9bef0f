-- ===== src/Gateway/Rejections.antt =====
-- The requests that src/gateway.rs turns away, and what it answers to them.
use xorc_gateway.Base.{true, false, Option, none, some, ℕ, ◌≡◌, ◌∙◌, refl, ap, Text, text, returned}
use xorc_gateway.Context.{Context}
use xorc_gateway.Cors.{Response}
use xorc_gateway.Error.{
  GatewayError, status_of, body_of, unknown_origin, invalid_payload, internal_server_error,
  app_does_not_exist, invalid_token, missing_signature, invalid_signature,
}
use xorc_gateway.Events.Batch.{SdkEventBatch}
use xorc_gateway.Events.Timestamp.{u64_to_text}
use xorc_gateway.Gateway.{Env, Chance}
use xorc_gateway.Gateway.Handlers.{
  Request, origin_refused, handle_in_context, handle_body, handle_sdk, count_request,
}
use xorc_gateway.Gateway.Requests.{verdict, read_context, handle_event_lem, handle_body_lem}
use xorc_gateway.Gateway.Responses.{respond-err, handle_sdk_lem}
use xorc_gateway.Results.{err}
use xorc_gateway.World.{World}

module _ (env : Env) (req : Request) (w : World env.cluster) where
  -- The body is a batch, and the context of the request is known.
  pub record IsRead (body : Text) (b : SdkEventBatch) (c : Context) : Type 0 where
    pub given : req.body ≡ some body
    pub parsed : env.from_slice body ≡ some b
    pub read : read_context env req.headers b ≡ returned c

  -- The error that stops a request before it is processed.
  data Stops : GatewayError → Type 0 where
    absent : req.body ≡ none → Stops (internal_server_error (text "body concat"))
    unreadable :
        (body : Text) → req.body ≡ some body → env.from_slice body ≡ none → Stops invalid_payload
    foreign :
        (body : Text) (b : SdkEventBatch) (c : Context)
        → IsRead body b c
        → origin_refused env c ≡ true
        → Stops unknown_origin
    not_valid :
        (e : GatewayError) (body : Text) (b : SdkEventBatch) (c : Context)
        → IsRead body b c
        → origin_refused env c ≡ false
        → verdict env w body b c ≡ err e
        → Stops e

  -- The status and the text for a request that is turned away, by what stops it.
  pub data Refuses : ℕ → Text → Type 0 where
    no_body : req.body ≡ none → Refuses 500 (text "Invalid Server Error")
    not_json :
        (body : Text)
        → req.body ≡ some body
        → env.from_slice body ≡ none
        → Refuses 400 (text "Invalid payload")
    wrong_origin :
        (body : Text) (b : SdkEventBatch) (c : Context)
        → IsRead body b c
        → origin_refused env c ≡ true
        → Refuses 403 (text "Unknown Origin")
    -- The application is not known, or it has no key for the platform.
    no_app :
        (body : Text) (b : SdkEventBatch) (c : Context)
        → IsRead body b c
        → origin_refused env c ≡ false
        → verdict env w body b c ≡ err app_does_not_exist
        → Refuses 403 (text "Unknown app")
    wrong_token :
        (body : Text) (b : SdkEventBatch) (c : Context)
        → IsRead body b c
        → origin_refused env c ≡ false
        → verdict env w body b c ≡ err invalid_token
        → Refuses 412 (text "Invalid XORC-Api-Token")
    no_events :
        (body : Text) (b : SdkEventBatch) (c : Context)
        → IsRead body b c
        → origin_refused env c ≡ false
        → verdict env w body b c ≡ err invalid_payload
        → Refuses 400 (text "Invalid payload")
    no_signature :
        (body : Text) (b : SdkEventBatch) (c : Context)
        → IsRead body b c
        → origin_refused env c ≡ false
        → verdict env w body b c ≡ err missing_signature
        → Refuses 412 (text "Missing XORC-Signature")
    wrong_signature :
        (body : Text) (b : SdkEventBatch) (c : Context)
        → IsRead body b c
        → origin_refused env c ≡ false
        → verdict env w body b c ≡ err invalid_signature
        → Refuses 412 (text "Invalid XORC-Signature")

  Refuses-Stops :
      (status : ℕ) (said : Text)
      → Refuses status said
      → (e : GatewayError) × Stops e × (status_of e ≡ status) × (body_of e ≡ said)
  unfolding status_of body_of
  Refuses-Stops _ _ (no_body given) = (_, absent given, refl, refl)
  Refuses-Stops _ _ (not_json body given broken) = (_, unreadable body given broken, refl, refl)
  Refuses-Stops _ _ (wrong_origin body b c given refused) =
      (_, foreign body b c given refused, refl, refl)
  Refuses-Stops _ _ (no_app body b c given allowed rejected) =
      (_, not_valid _ body b c given allowed rejected, refl, refl)
  Refuses-Stops _ _ (wrong_token body b c given allowed rejected) =
      (_, not_valid _ body b c given allowed rejected, refl, refl)
  Refuses-Stops _ _ (no_events body b c given allowed rejected) =
      (_, not_valid _ body b c given allowed rejected, refl, refl)
  Refuses-Stops _ _ (no_signature body b c given allowed rejected) =
      (_, not_valid _ body b c given allowed rejected, refl, refl)
  Refuses-Stops _ _ (wrong_signature body b c given allowed rejected) =
      (_, not_valid _ body b c given allowed rejected, refl, refl)

  module _ (chance : Chance) where
    pub handle_body_read :
        (body : Text) (b : SdkEventBatch) (c : Context)
        → IsRead body b c
        → handle_body env chance req.body req.headers w ≡ handle_in_context env chance body b c w
    handle_body_read body b c given = rw given.given (
        handle_body_lem env chance req.headers w body b given.parsed
        ∙ handle_event_lem env chance req.headers w body b c given.read)

    handle_body_stopped :
        (e : GatewayError)
        → Stops e
        → (c : Option Context) × (handle_body env chance req.body req.headers w
            ≡ (returned (err (e, c)), w))
    unfolding handle_body handle_in_context
    handle_body_stopped _ (absent given) = (none, rw given)
    handle_body_stopped _ (unreadable body given broken) = (none, rw (given, handle_body, broken))
    handle_body_stopped _ (foreign body b c given refused) =
        (some c, handle_body_read body b c given ∙ rw (handle_in_context, refused))
    handle_body_stopped _ (not_valid e body b c given allowed rejected) =
        (some c, handle_body_read body b c given ∙ rw (handle_in_context, allowed, rejected))

    -- Where there is a response, a request without a body is answered with 500, one without a JSON
    -- batch or without events with 400, one of an origin that is refused, of an unknown application
    -- or without a key for its platform with 403, one with a wrong token or with no signature or a
    -- wrong one with 412, each with its text, and all that changes is that it is counted under that
    -- status.
    pub handle_sdk_stopped :
        (status : ℕ) (said : Text) (r : Response)
        → Refuses status said
        → (handle_sdk env chance req w).0 ≡ returned r
        → (r.status ≡ status)
          × (r.body ≡ said)
          × ((handle_sdk env chance req w).1
              ≡ count_request env (u64_to_text status) (text "sdk_events") w)
    handle_sdk_stopped status said r refuses h =
        let (e, stops, same, text') = Refuses-Stops status said refuses in
        let (c, stopped) = handle_body_stopped e stops in
        let whole = handle_sdk_lem env chance req w (err (e, c)) (ap (λ p. p.0) stopped) in
        let (status', said', counted) =
          respond-err env (handle_body env chance req.body req.headers w).1 e c r
            (rw (← whole) h) in
        let equal = status' ∙ same in
        (equal, said' ∙ text', ap (λ p. p.1) whole ∙ (counted ∙ rw (stopped, equal) refl))
