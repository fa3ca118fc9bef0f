-- ===== src/Process/Production.antt =====
-- A process of src/main.rs outside of development, from its configuration to the requests it serves.
use mathlib.Core.Option.{some-injective}
use xorc_gateway.Base.{
  Bool, ℕ, false, ◌≡◌, ◌≢◌, ◌∙◌, refl, some, Option-cases, Text, text, returned, arith, inl, inr,
  text_eq,
}
use xorc_gateway.Base.Dict.{lookup}
use xorc_gateway.AppRegistry.{Application}
use xorc_gateway.AppRegistry.Validation.{IsSigned, IsAccepted, validate-eq-ok_iff}
use xorc_gateway.Config.{Config, parse}
use xorc_gateway.Config.Checks.{parse-eq-returned_iff}
use xorc_gateway.Context.{Context}
use xorc_gateway.Crates.{Hex, HeaderMap}
use xorc_gateway.Events.Batch.{SdkEventBatch}
use xorc_gateway.Gateway.{Env, Chance}
use xorc_gateway.Gateway.Handlers.{handle_body}
use xorc_gateway.Gateway.Requests.{handle_body-ok, read_context}
use xorc_gateway.Gateway.Signatures.{History-allow_empty_signature}
use xorc_gateway.Process.Connections.{Driver}
use xorc_gateway.Process.Registry.{start_registry, start_registry-allow_empty_signature}
use xorc_gateway.Process.Start.{Surroundings, rust_env, load_config, unwrap_or}
use xorc_gateway.Process.Threads.{Process, Run, init}
use xorc_gateway.Process.Worlds.{Run-History}
use xorc_gateway.Results.{ok}
use xorc_gateway.World.{World}

module _ (s : Surroundings) where
  load_config-parse :
      load_config s
      ≡ parse
          (s.read_file (unwrap_or (s.var (text "CONFIG")) (text "./config/config.toml.tests")))
          s.from_toml
          (rust_env s)
  unfolding load_config
  load_config-parse = elim (Option-cases (s.var (text "CONFIG"))) [
    | inl unset ↦ rw (load_config, unset) refl
    | inr (path, set) ↦ rw (load_config, set) refl
  ]

  -- A configuration that is used outside of development allows no empty signatures and does not let
  -- the cluster manage the applications.
  load_config_strict :
      (config : Config)
      → rust_env s ≢ text "development"
      → load_config s ≡ returned config
      → (config.gateway.allow_empty_signature ≡ false) × (config.cassandra.manage_apps ≡ false)
  load_config_strict config production loaded =
      let path = unwrap_or (s.var (text "CONFIG")) (text "./config/config.toml.tests") in
      let checks =
        (parse-eq-returned_iff (s.read_file path) s.from_toml (rust_env s) config).0
          (rw (← load_config-parse) loaded) in
      elim checks.3 [ inl dev ↦ absurd (production dev) | inr strict ↦ strict ]

module _ (env : Env) (w : World env.cluster) (headers : HeaderMap) (body : Text) where
  -- The body is a batch for an application that is known, and its signature was made with the key
  -- that the application has for the platform.
  pub record IsAuthentic : Type 0 where
    pub batch : SdkEventBatch
    pub context : Context
    pub app : Application
    pub parsed : env.from_slice body ≡ some batch
    pub read : read_context env headers batch ≡ returned context
    pub known : lookup batch.environment.app_id w.registry.apps ≡ some app
    pub signed :
        IsSigned env.crypto.base64 env.hmac env.config.gateway.default_token w.registry batch
          context body app

  signed_of :
      (batch : SdkEventBatch) (context : Context)
      → env.from_slice body ≡ some batch
      → read_context env headers batch ≡ returned context
      → w.registry.allow_empty_signature ≡ false
      → IsAccepted env.crypto.base64 env.hmac env.config.gateway.default_token w.registry batch
          context body
      → IsAuthentic
  signed_of batch context parsed read strict accepted = record {
    batch = batch;
    context = context;
    app = accepted.app;
    parsed = parsed;
    read = read;
    known = accepted.registered;
    signed = elim accepted.signed [ inl allowed ↦ ground arith | inr signed ↦ signed ];
  }

-- A process that was started outside of development answers a batch of events, at any moment and
-- after any steps of its threads and any requests, only if the batch is for an application that is
-- known at that moment and carries a signature that verifies under its key for the platform.
pub Run-IsAuthentic :
    (s : Surroundings) (driver : Driver) (env : Env) (hex : Hex) (opens : Bool)
    → rust_env s ≢ text "development"
    → load_config s ≡ returned env.config
    → (before start : World env.cluster)
    → start_registry env.cluster driver hex env.uuids env.config before ≡ returned start
    → (n : ℕ) (p : Process env) → Run env hex opens (init env hex opens start) n p
    → (chance : Chance) (headers : HeaderMap) (body json : Text) (c : Context)
    → (handle_body env chance (some body) headers p.world).0 ≡ returned (ok (json, c))
    → IsAuthentic env p.world headers body
Run-IsAuthentic s driver env hex opens production loaded before start started n p run chance headers
      body json c handled =
    let (bytes, same, served) =
      handle_body-ok env chance headers p.world (some body) json c handled in
    let strict = (load_config_strict s env.config production loaded).0 in
    let closed =
      History-allow_empty_signature env hex start p.world (Run-History env hex opens start n p run)
      ∙ (start_registry-allow_empty_signature env.cluster driver hex env.uuids env.config before
            start started
          ∙ strict) in
    let accepted =
      (validate-eq-ok_iff env.crypto.base64 env.hmac env.config.gateway.default_token
          p.world.registry served.batch served.context bytes).0
        served.validated in
    rw (some-injective body bytes same) (
      signed_of env p.world headers bytes served.batch served.context served.parsed served.read
        closed accepted)
