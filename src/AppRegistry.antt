-- ===== src/AppRegistry.antt =====
-- src/app_registry.rs: the applications, their keys, and the validation of a request.
pub mod Updates
pub mod Loads
pub mod Reloads
pub mod Failures
pub mod Checks
pub mod Validation
use xorc_gateway.Base.{
  ℕ, suc, ◌+◌, Bool, true, false, Option, none, some, List, [], ◌∷◌, ◌++◌, Text, text, ◌==◌,
  text_eq, if◌then◌else◌, not, Outcome, returned, panicked, and_then, map_option,
}
use xorc_gateway.Base.Dict.{Dict, lookup, insert}
use xorc_gateway.Cluster.{Cluster, Row, Frame, Query}
use xorc_gateway.Config.{Config, TestAppConfig}
use xorc_gateway.Context.{Context}
use xorc_gateway.Crates.{Base64, Hex, Hmac, VerificationKey, Uuids}
use xorc_gateway.Error.{
  GatewayError, app_does_not_exist, invalid_token, invalid_payload, missing_signature,
  invalid_signature,
}
use xorc_gateway.Events.Batch.{SdkEventBatch}
use xorc_gateway.Events.Device.{Platform, ios, android, web, unknown, platform}
use xorc_gateway.Metrics.{Metrics}
use xorc_gateway.Results.{Result, ok, err, ◌>>=◌, ◌>>◌, ok_or}

-- `Application`
pub record Application : Type 0 where
  pub id : Text
  pub token : Option Text
  pub ios_secret : Option VerificationKey
  pub android_secret : Option VerificationKey
  pub web_secret : Option VerificationKey

-- `AppRegistry`; of the pool only whether there is one.
pub record AppRegistry : Type 0 where
  pub allow_empty_signature : Bool
  pub apps : Dict Text Application
  pub has_pool : Bool

-- `AppRegistry::create_key`; what it logs is left out.
unfoldable pub create_key : Hex → Text → Option VerificationKey
create_key hex s = map_option (λ decoded. record { bytes = decoded }) (hex.decode s)

unfoldable pub secret_key : Hex → Option Text → Option VerificationKey
unfolding create_key
secret_key hex none = none
secret_key hex (some s) = create_key hex s

-- `AppRegistry::create_app`
unfoldable pub create_app :
    Hex
    → Text
    → Option Text
    → (ios_secret android_secret web_secret : Option Text) → Metrics
    → Application × Metrics
unfolding secret_key
create_app hex id token ios_secret android_secret web_secret m = (
  record {
    id = id;
    token = token;
    ios_secret = secret_key hex ios_secret;
    android_secret = secret_key hex android_secret;
    web_secret = secret_key hex web_secret;
  },
  record m { app_updates = m.app_updates + 1 },
)

-- The `fold` over the applications of the configuration.
unfoldable pub load_test_apps :
    Hex → List TestAppConfig → Dict Text Application → Metrics → Dict Text Application × Metrics
unfolding create_app insert
load_test_apps hex [] acc m = (acc, m)
load_test_apps hex (t ∷ ts) acc m =
    let (app, m') = create_app hex t.app_id t.token t.secret_ios t.secret_android t.secret_web m in
    load_test_apps hex ts (insert t.app_id app acc) m'

-- `AppRegistry::token_for`
unfoldable pub token_for : AppRegistry → Text → Option Text
unfolding lookup
token_for r app_id = elim (lookup app_id r.apps) [ none ↦ none | some app ↦ app.token ]

-- The check of the token that was sent, if one was.
pub check_token : Option Text → Text → Result GatewayError (Unit {0})
check_token none valid_token = ok tt
check_token (some sent_token) valid_token =
    if not (sent_token == valid_token) then err invalid_token else ok tt

abbrev pub get_or_default : Option Text → Text → Text
get_or_default none d = d
get_or_default (some t) d = t

pub check_events {ℓ} : {A : Type ℓ} → List A → Result GatewayError (Unit {0})
check_events [] = err invalid_payload
check_events (e ∷ es) = ok tt

-- The key of an application for a platform.
unfoldable pub platform_key : Platform → Application → Option VerificationKey
platform_key ios app = app.ios_secret
platform_key android app = app.android_secret
platform_key web app = app.web_secret
platform_key unknown app = none

-- The rest of `validate`, where signatures are not optional.
verify_signature :
    Base64 → Hmac → Option Text → Option VerificationKey → List ℕ → Result GatewayError (Unit {0})
verify_signature base64 hmac signature key raw_data = do
  sig ← ok_or signature missing_signature
  platform_key' ← ok_or key app_does_not_exist
  decoded ← ok_or (base64.decode sig) invalid_signature
  if hmac.verify platform_key' raw_data decoded then ok tt else err invalid_signature

-- `AppRegistry::validate`, for the default token of the configuration.
unfoldable pub validate :
    Base64
    → Hmac
    → (default_token : Text) → AppRegistry
    → SdkEventBatch
    → Context
    → (raw_data : List ℕ) → Result GatewayError (Unit {0})
unfolding lookup check_token check_events verify_signature platform_key platform
validate base64 hmac default_token r event c raw_data = do
  app ← ok_or (lookup event.environment.app_id r.apps) app_does_not_exist
  check_token c.api_token (get_or_default app.token default_token)
  check_events event.events
  if r.allow_empty_signature
      then ok tt
      else verify_signature base64 hmac c.signature (platform_key (platform event.device) app)
          raw_data
