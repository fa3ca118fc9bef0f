-- ===== src/AppRegistry/Validation.antt =====
-- Which requests src/app_registry.rs accepts, and with which error it turns the others away.
use xorc_gateway.Base.{
  ℕ, true, false, ◌≡◌, ◌≢◌, ◌↔◌, ◌⊎◌, inl, inr, if◌then◌else◌, ◌∙◌, some, none, List, [], Text,
  arith, text_eq, Option-cases, Bool-cases,
}
use xorc_gateway.Base.Dict.{lookup}
use xorc_gateway.AppRegistry.{
  Application, AppRegistry, validate, check_events, verify_signature, platform_key, get_or_default,
}
use xorc_gateway.AppRegistry.Checks.{
  check_token-cases, check_token-ok, check_token-wrong, List-cases, check_events-ok,
}
use xorc_gateway.Context.{Context}
use xorc_gateway.Crates.{Base64, Hmac, VerificationKey}
use xorc_gateway.Error.{
  GatewayError, app_does_not_exist, invalid_token, invalid_payload, missing_signature,
  invalid_signature,
}
use xorc_gateway.Events.Batch.{SdkEventBatch}
use xorc_gateway.Events.Device.{platform}
use xorc_gateway.Results.{Result, ok, err}

module _ (base64 : Base64) (hmac : Hmac) (default_token : Text) (r : AppRegistry)
    (b : SdkEventBatch) (c : Context) (raw_data : List ℕ) where
  -- A signature that was sent and made with the key that an application has for the platform.
  pub record IsSigned (app : Application) : Type 0 where
    pub signature : Text
    pub key : VerificationKey
    pub decoded : List ℕ
    pub sent : c.signature ≡ some signature
    pub known : platform_key (platform b.device) app ≡ some key
    pub decodes : base64.decode signature ≡ some decoded
    pub verifies : hmac.verify key raw_data decoded ≡ true

  -- What a request has to meet.
  pub record IsAccepted : Type 0 where
    pub app : Application
    pub registered : lookup b.environment.app_id r.apps ≡ some app
    pub token : (t : Text) → c.api_token ≡ some t → t ≡ get_or_default app.token default_token
    pub events : b.events ≢ []
    pub signed : (r.allow_empty_signature ≡ true) ⊎ IsSigned app

  -- The checks that come before the signature.
  pub record IsAdmitted (app : Application) : Type 0 where
    pub registered : lookup b.environment.app_id r.apps ≡ some app
    pub token : (t : Text) → c.api_token ≡ some t → t ≡ get_or_default app.token default_token
    pub events : b.events ≢ []
    pub signatures : r.allow_empty_signature ≡ false

  -- The first check that a request fails, for each error.
  pub data Rejects : GatewayError → Type 0 where
    no_app : lookup b.environment.app_id r.apps ≡ none → Rejects app_does_not_exist
    wrong_token :
        (app : Application) (t : Text)
        → lookup b.environment.app_id r.apps ≡ some app
        → c.api_token ≡ some t
        → t ≢ get_or_default app.token default_token
        → Rejects invalid_token
    no_events :
        (app : Application)
        → lookup b.environment.app_id r.apps ≡ some app
        → ((t : Text) → c.api_token ≡ some t → t ≡ get_or_default app.token default_token)
        → b.events ≡ []
        → Rejects invalid_payload
    no_signature :
        (app : Application) → IsAdmitted app → c.signature ≡ none → Rejects missing_signature
    no_key :
        (app : Application) (signature : Text)
        → IsAdmitted app
        → c.signature ≡ some signature
        → platform_key (platform b.device) app ≡ none
        → Rejects app_does_not_exist
    not_base64 :
        (app : Application) (signature : Text) (key : VerificationKey)
        → IsAdmitted app
        → c.signature ≡ some signature
        → platform_key (platform b.device) app ≡ some key
        → base64.decode signature ≡ none
        → Rejects invalid_signature
    not_verified :
        (app : Application) (signature : Text) (key : VerificationKey) (decoded : List ℕ)
        → IsAdmitted app
        → c.signature ≡ some signature
        → platform_key (platform b.device) app ≡ some key
        → base64.decode signature ≡ some decoded
        → hmac.verify key raw_data decoded ≡ false
        → Rejects invalid_signature

  abbrev outcome : Result GatewayError (Unit {0})
  outcome = validate base64 hmac default_token r b c raw_data

  -- What `validate` returns, with the reason.
  abbrev Verdict : Type 0
  Verdict = (outcome ≡ ok tt) × IsAccepted ⊎ ((e : GatewayError) × (outcome ≡ err e) × Rejects e)

  validate_passed :
      (app : Application)
      → lookup b.environment.app_id r.apps ≡ some app
      → ((t : Text) → c.api_token ≡ some t → t ≡ get_or_default app.token default_token)
      → b.events ≢ []
      → outcome ≡ (
          if r.allow_empty_signature
          then ok tt
          else verify_signature base64 hmac c.signature
              (platform_key (platform b.device) app)
              raw_data)
  unfolding validate
  validate_passed app registered token events =
      rw (validate, registered, check_token-ok _ _ token, check_events-ok _ events)

  validate_admitted :
      (app : Application)
      → IsAdmitted app
      → outcome
        ≡ verify_signature base64 hmac c.signature (platform_key (platform b.device) app) raw_data
  validate_admitted app a = validate_passed app a.registered a.token a.events ∙ rw a.signatures

  Rejects→err : {e : GatewayError} → Rejects e → outcome ≡ err e
  unfolding verify_signature
  Rejects→err (no_app missing) = unfold validate in rw (validate, missing)
  Rejects→err (wrong_token app t registered sent differs) =
      unfold validate in rw (validate, registered, sent, check_token-wrong t _ differs)
  Rejects→err (no_events app registered token empty) =
      unfold validate check_events in rw (validate, registered, check_token-ok _ _ token, empty)
  Rejects→err (no_signature app a unsigned) =
      validate_admitted app a ∙ rw (verify_signature, unsigned)
  Rejects→err (no_key app signature a sent missing) =
      validate_admitted app a ∙ rw (verify_signature, sent, missing)
  Rejects→err (not_base64 app signature key a sent known broken) =
      validate_admitted app a ∙ rw (verify_signature, sent, known, broken)
  Rejects→err (not_verified app signature key decoded a sent known decodes fails) =
      validate_admitted app a ∙ rw (verify_signature, sent, known, decodes, fails)

  IsAccepted→ok : IsAccepted → outcome ≡ ok tt
  unfolding verify_signature
  IsAccepted→ok a = validate_passed a.app a.registered a.token a.events ∙ elim a.signed [
    | inl allowed ↦ rw allowed
    | inr s ↦ ground (arith, s.sent, s.known, s.decodes, s.verifies)
  ]

  rejected : {e : GatewayError} → Rejects e → Verdict
  rejected {e} why = inr (e, Rejects→err why, why)

  accepted : IsAccepted → Verdict
  accepted a = inl (IsAccepted→ok a, a)

  signed_verdict : (app : Application) → IsAdmitted app → Verdict
  signed_verdict app a = elim (Option-cases c.signature) [
    | inl unsigned ↦ rejected (no_signature app a unsigned)
    | inr (signature, sent) ↦ elim (Option-cases (platform_key (platform b.device) app)) [
      | inl missing ↦ rejected (no_key app signature a sent missing)
      | inr (key, known) ↦ elim (Option-cases (base64.decode signature)) [
        | inl broken ↦ rejected (not_base64 app signature key a sent known broken)
        | inr (decoded, decodes) ↦ elim (Bool-cases (hmac.verify key raw_data decoded)) [
          | inr fails ↦ rejected (not_verified app signature key decoded a sent known decodes fails)
          | inl verifies ↦ accepted (record {
            app = app;
            registered = a.registered;
            token = a.token;
            events = a.events;
            signed = inr (record {
              signature = signature;
              key = key;
              decoded = decoded;
              sent = sent;
              known = known;
              decodes = decodes;
              verifies = verifies;
            });
          })
        ]
      ]
    ]
  ]

  verdict : Verdict
  verdict = elim (Option-cases (lookup b.environment.app_id r.apps)) [
    | inl missing ↦ rejected (no_app missing)
    | inr (app, registered) ↦
        elim (check_token-cases c.api_token (get_or_default app.token default_token)) [
          | inr (t, _, sent, differs) ↦ rejected (wrong_token app t registered sent differs)
          | inl (_, token) ↦ elim (List-cases b.events) [
            | inl empty ↦ rejected (no_events app registered token empty)
            | inr events ↦ elim (Bool-cases r.allow_empty_signature) [
              | inl allowed ↦ accepted (record {
                app = app;
                registered = registered;
                token = token;
                events = events;
                signed = inl allowed;
              })
              | inr signatures ↦ signed_verdict app (record {
                registered = registered;
                token = token;
                events = events;
                signatures = signatures;
              })
            ]
          ]
        ]
  ]

  -- A request is accepted exactly if its application is registered, the token that it sends, if any,
  -- is the application's or else the default one, it holds an event, and, unless empty signatures
  -- are allowed, its signature verifies under the application's key for the platform.
  pub validate-eq-ok_iff : (validate base64 hmac default_token r b c raw_data ≡ ok tt) ↔ IsAccepted
  validate-eq-ok_iff =
      (λ e. elim verdict [ inl (_, a) ↦ a | inr (error, failed, _) ↦ cc ], IsAccepted→ok)

  -- A request is turned away with an error exactly if the check that belongs to the error is the
  -- first that fails; of the errors only five are used, and a missing token is none.
  pub validate-eq-err_iff :
      (e : GatewayError) → (validate base64 hmac default_token r b c raw_data ≡ err e) ↔ Rejects e
  validate-eq-err_iff e = (
    λ h. elim verdict [
      | inl (passed, _) ↦ cc
      | inr (error, failed, why) ↦ let same : error ≡ e = cc in rw same at why
    ],
    Rejects→err,
  )
