-- ===== src/Config/Checks.antt =====
-- What src/config.rs lets pass.
use xorc_gateway.Base.{
  false, ◌≡◌, ◌↔◌, refl, some, none, Option, Text, text, returned, arith, text_eq, ◌⊎◌,
}
use xorc_gateway.Config.{Config, parse}

-- The configuration of a file is used exactly if the file can be read and parsed and, where
-- `RUST_ENV` is not `development`, allows no empty signatures and does not let the cluster manage
-- the applications.
pub parse-eq-returned_iff :
    (file : Option Text) (from_str : Text → Option Config) (rust_env : Text) (config : Config)
    → (parse file from_str rust_env ≡ returned config) ↔ (
        (config_toml : Text) × (file ≡ some config_toml)
        × (from_str config_toml ≡ some config)
        × ((rust_env ≡ text "development")
            ⊎ ((config.gateway.allow_empty_signature ≡ false)
                × (config.cassandra.manage_apps ≡ false))))
unfolding parse
parse-eq-returned_iff none from_str rust_env config = (λ e. cc, λ (t, e, _, _). cc)
parse-eq-returned_iff (some t) from_str rust_env config =
    (λ e. (t, refl, ground arith, ground arith), λ (t', e, p, q). ground arith)
