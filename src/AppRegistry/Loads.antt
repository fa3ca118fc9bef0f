-- ===== src/AppRegistry/Loads.antt =====
-- What src/app_registry.rs holds after it has loaded the applications.
use xorc_gateway.Base.{
  ◌+◌, false, ◌≡◌, ◌∙◌, refl, some, none, Option, List, [], ◌∷◌, length, Text, arith, text_eq, ◌==◌,
  if◌then◌else◌, or_else, or_else-none, map_option, returned,
}
use xorc_gateway.Base.Dict.{Dict, lookup, insert, lookup-insert}
use xorc_gateway.AppRegistry.{Application, AppRegistry, secret_key, load_test_apps}
use xorc_gateway.AppRegistry.Updates.{new_registry}
use xorc_gateway.Config.{Config, TestAppConfig}
use xorc_gateway.Crates.{Hex}
use xorc_gateway.Metrics.{Metrics}

-- The application for an entry of the configuration: a secret that is not hexadecimal counts as none.
abbrev pub app_of : Hex → TestAppConfig → Application
app_of hex t = record {
  id = t.app_id;
  token = t.token;
  ios_secret = secret_key hex t.secret_ios;
  android_secret = secret_key hex t.secret_android;
  web_secret = secret_key hex t.secret_web;
}

-- The last element with a key.
unfoldable pub last_with {ℓ} : {A : Type ℓ} → (A → Text) → Text → List A → Option A
last_with key_of k [] = none
last_with key_of k (a ∷ as') =
    or_else (last_with key_of k as') (if k == key_of a then some a else none)

module _ (hex : Hex) where
  lookup-load_test_apps :
      (k : Text) (ts : List TestAppConfig) (acc : Dict Text Application) (m : Metrics)
      → lookup k (load_test_apps hex ts acc m).0
        ≡ or_else (map_option (app_of hex) (last_with (λ t. t.app_id) k ts)) (lookup k acc)
  unfolding load_test_apps last_with
  lookup-load_test_apps k [] acc m = refl
  lookup-load_test_apps k (t ∷ ts) acc m =
      lookup-load_test_apps k ts (insert t.app_id (app_of hex t) acc) _
      ∙ ground (arith, lookup-insert k t.app_id (app_of hex t) acc)

  app_updates-load_test_apps :
      (ts : List TestAppConfig) (acc : Dict Text Application) (m : Metrics)
      → (load_test_apps hex ts acc m).1.app_updates ≡ m.app_updates + length ts
  unfolding load_test_apps
  app_updates-load_test_apps [] acc m = omega arith
  app_updates-load_test_apps (t ∷ ts) acc m = omega (
    arith,
    app_updates-load_test_apps ts (insert t.app_id (app_of hex t) acc)
        (record m { app_updates = m.app_updates + 1 }),
  )

  -- Without `manage_apps`, the registry holds for every id the application of the last entry of
  -- `[[test_apps]]` with that id, and no other; the counter of updates grows by the number of entries.
  pub lookup-new_registry :
      (config : Config) (ts : List TestAppConfig) (m : Metrics)
      → config.test_apps ≡ some ts
      → (r : AppRegistry) × ((new_registry hex config m).0 ≡ returned r)
        × ((k : Text) → lookup k r.apps ≡ map_option (app_of hex) (last_with (λ t. t.app_id) k ts))
        × (r.allow_empty_signature ≡ config.gateway.allow_empty_signature)
        × ((new_registry hex config m).1.app_updates ≡ m.app_updates + length ts)
  unfolding new_registry
  lookup-new_registry config ts m given =
      rw (new_registry, given)
        (
          record {
            allow_empty_signature = config.gateway.allow_empty_signature;
            apps = (load_test_apps hex ts [] m).0;
            has_pool = false;
          },
          refl,
          λ k. lookup-load_test_apps k ts [] m ∙ unfold lookup in or_else-none _,
          refl,
          app_updates-load_test_apps ts [] m,
        )
