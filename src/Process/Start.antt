-- ===== src/Process/Start.antt =====
-- The statics of src/main.rs, and how src/gateway.rs starts to listen.
use xorc_gateway.Base.{
  ℕ, Bool, true, false, Option, none, some, List, [], ◌∷◌, ◌++◌, Text, text, ◌==◌, text_eq,
  if◌then◌else◌, Outcome, returned, panicked, and_then, unwrap,
}
use xorc_gateway.Config.{Config, parse}
use xorc_gateway.Crates.{IpAddr}

-- What the process finds around it: `env::var`, the files (`none` where one cannot be opened or
-- read), `toml::from_str`, `maxminddb::Reader::open` with the `lookup` of the reader,
-- `to_socket_addrs`, whether a runtime of a name and a number of threads can be built, and whether an
-- address can be bound.
pub record Surroundings : Type 0 where
  pub var : Text → Option Text
  pub read_file : Text → Option Text
  pub from_toml : Text → Option Config
  pub open_reader : Text → Option (IpAddr → Option Text)
  pub to_socket_addrs : Text → Option (List Text)
  pub builds : Text → ℕ → Bool
  pub binds : Text → Bool

-- The drain and the values of the root of `Logger`.
pub data Format : Type 0 where
  json compact : Format

pub record Logger : Type 0 where
  pub format : Format
  pub application_name : Text
  pub environment : Text

-- `unwrap_or_else` with a constant.
abbrev pub unwrap_or : Option Text → Text → Text
unwrap_or none d = d
unwrap_or (some t) d = t

-- `iter.next().unwrap()`
abbrev pub first : List Text → Outcome Text
first [] = panicked
first (a ∷ as') = returned a

module _ (s : Surroundings) where
  -- `RUST_ENV`
  unfoldable pub rust_env : Text
  rust_env = unwrap_or (s.var (text "RUST_ENV")) (text "development")

  -- `Logger::new`, which is `GLOG`; both formats write to the error output.
  unfoldable pub new_logger : Logger
  unfolding rust_env
  new_logger = record {
    format = elim (s.var (text "LOG_FORMAT")) [
      | some val ↦ if val == text "json" then json else compact
      | none ↦ compact
    ];
    application_name = text "xorc-gateway";
    environment = rust_env;
  }

  -- `GEOIP`
  unfoldable pub geoip : Outcome (IpAddr → Option Text)
  geoip = elim (s.var (text "GEOIP")) [
    | some geoip_location ↦ unwrap (s.open_reader geoip_location)
    | none ↦ unwrap (s.open_reader (text "./resources/GeoLite2-Country.mmdb"))
  ]

  -- `CONFIG`
  unfoldable pub load_config : Outcome Config
  unfolding rust_env parse
  load_config = elim (s.var (text "CONFIG")) [
    | some config_file_location ↦ parse (s.read_file config_file_location) s.from_toml rust_env
    | none ↦ parse (s.read_file (text "./config/config.toml.tests")) s.from_toml rust_env
  ]

  -- The address of `Gateway::run`.
  unfoldable pub listen_address : Outcome Text
  listen_address =
      let port = unwrap_or (s.var (text "PORT")) (text "1337") in
      and_then (unwrap (s.to_socket_addrs (text "0.0.0.0:" ++ port))) first

  -- `Gateway::run` up to where the server accepts connections; what `Gateway::new` comes to is given.
  unfoldable pub listen {ℓ} : {A : Type ℓ} → Config → Outcome A → Outcome (Text × A)
  unfolding listen_address
  listen config new_gateway = and_then listen_address λ addr.
      if s.builds config.gateway.process_name_prefix config.gateway.threads
      then and_then new_gateway
          (λ gateway. if s.binds addr then returned (addr, gateway) else panicked)
      else panicked

  -- Whether `Gateway::run` comes to listen.
  unfoldable pub opens {ℓ} : {A : Type ℓ} → Config → Outcome A → Bool
  unfolding listen
  opens config new_gateway = elim (listen config new_gateway) [
    | panicked ↦ false
    | returned r ↦ true
  ]
