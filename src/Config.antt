-- ===== src/Config.antt =====
-- src/config.rs: the configuration and the checks on it.
pub mod Checks
use xorc_gateway.Base.{
  ℕ, Bool, Option, none, some, List, Text, text, ◌==◌, text_eq, if◌then◌else◌, not, Outcome,
  returned, panicked,
}

-- `GatewayConfig`
pub record GatewayConfig : Type 0 where
  pub threads : ℕ
  pub process_name_prefix : Text
  pub default_token : Text
  pub allow_empty_signature : Bool

-- `OriginConfig`
pub record OriginConfig : Type 0 where
  pub app_id : Text
  pub allowed : List Text

-- `TestAppConfig`
pub record TestAppConfig : Type 0 where
  pub app_id : Text
  pub token : Option Text
  pub secret_ios : Option Text
  pub secret_android : Option Text
  pub secret_web : Option Text

-- `CorsConfig`
pub record CorsConfig : Type 0 where
  pub allowed_methods : Text
  pub allowed_headers : Text

-- `CassandraConfig`
pub record CassandraConfig : Type 0 where
  pub keyspace : Text
  pub contact_points : Text
  pub username : Option Text
  pub password : Option Text
  pub manage_apps : Bool

-- `KafkaConfig`
pub record KafkaConfig : Type 0 where
  pub topic : Text
  pub brokers : Text

-- `Config`
pub record Config : Type 0 where
  pub kafka : KafkaConfig
  pub gateway : GatewayConfig
  pub cors : Option CorsConfig
  pub origins : Option (List OriginConfig)
  pub test_apps : Option (List TestAppConfig)
  pub cassandra : CassandraConfig

-- `Config::parse`, for what opening and reading the file gives (`none` is an error), for the parser
-- of `toml`, and for `RUST_ENV`.
unfoldable pub parse : Option Text → (Text → Option Config) → Text → Outcome Config
parse none from_str rust_env = panicked
parse (some config_toml) from_str rust_env = elim (from_str config_toml) [
  | none ↦ panicked
  | some config ↦
      if not (rust_env == text "development")
      then (if config.gateway.allow_empty_signature
          then panicked
          else if config.cassandra.manage_apps
          then panicked
          else returned config)
      else returned config
]
