-- ===== src/Tests/Stores.antt =====
-- src/ifa_matching.rs, src/cors.rs and src/config.rs on small inputs.
use mathlib.Core.List.{Mem}
use xorc_gateway.Base.{
  ℕ, ◌≡◌, ◌≢◌, ◌⊎◌, ◌↔◌, refl, ◌∷◌, [], List, arith, Text, text, true, false, returned, some, none,
  ℕ_discrete, ℕ_eq, text_eq, Text-discrete,
}
use xorc_gateway.Base.Dict.{lookup}
use xorc_gateway.Config.{OriginConfig, parse}
use xorc_gateway.Config.Checks.{parse-eq-returned_iff}
use xorc_gateway.Cors.{Builder, new_cors, valid_origin, allow_origin, response_builder_origin}
use xorc_gateway.Cors.Headers.{response_builder_origin-allow_origin_iff}
use xorc_gateway.Cors.Origins.{last_allowed, valid_origin-new_cors_iff}
use xorc_gateway.Crates.Samples.{plain_uuids, plain_uuids-IsUuids, plain_http}
use xorc_gateway.Encryption.{Cleartext}
use xorc_gateway.Events.Device.{web}
use xorc_gateway.IfaMatching.{parse_ifa, get_id_for_ifa, put_id_for_ifa}
use xorc_gateway.IfaMatching.Lookup.{
  parse_ifa-eq-some_iff, tracking_disabled, get_id_for_ifa-put_id_for_ifa,
}
use xorc_gateway.Results.{ok, err}
use xorc_gateway.Samples.Clusters.{
  plain_cluster, plain_cluster-IsAvailable, plain_cluster-KeepsIfas,
}
use xorc_gateway.Samples.Requests.{app_id, ifa, world, config, cors}
use xorc_gateway.World.{invalid_input}

abbrev uuid_of : Text → ℕ
uuid_of s = elim (plain_uuids.parse_str s) [ none ↦ 0 | some a ↦ a ]

app_read : plain_uuids.parse_str app_id ≡ some (uuid_of app_id)
unfolding ℕ_discrete
app_read = refl

ifa_read : parse_ifa plain_uuids (some ifa) true ≡ some (uuid_of ifa)
unfolding parse_ifa ℕ_discrete ℕ_eq
ifa_read = refl

abbrev id_5 : Cleartext
id_5 = record { value = plain_uuids.hyphenated 5 }

get_id_for_ifa-put_id_for_ifa_example :
    ((put_id_for_ifa plain_cluster plain_uuids (text "ks") app_id id_5 (some ifa) true world).0
      ≡ ok tt)
    × ((get_id_for_ifa plain_cluster plain_uuids
          (text "ks")
          app_id
          (some ifa)
          true
          (put_id_for_ifa plain_cluster plain_uuids
            (text "ks")
            app_id
            id_5
            (some ifa)
            true
            world).1).0
        ≡ some (plain_uuids.hyphenated 5))
get_id_for_ifa-put_id_for_ifa_example =
    get_id_for_ifa-put_id_for_ifa plain_cluster plain_uuids (text "ks") plain_cluster-IsAvailable
      (plain_cluster-KeepsIfas (text "ks")) plain_uuids-IsUuids app_id 5 (some ifa) true world
      (uuid_of app_id) (uuid_of ifa) (omega arith) app_read ifa_read

parse_ifa-eq-some_iff_sample : (parse_ifa plain_uuids (some ifa) true ≡ some (uuid_of ifa)) ↔ (
    (s : Text) × (some ifa ≡ some s)
    × (plain_uuids.parse_str s ≡ some (uuid_of ifa))
    × (true ≡ true)
    × (uuid_of ifa ≢ 0))
parse_ifa-eq-some_iff_sample = parse_ifa-eq-some_iff plain_uuids (some ifa) true (uuid_of ifa)

tracking_disabled_sample :
    (get_id_for_ifa plain_cluster plain_uuids (text "ks") app_id (some ifa) false world
      ≡ (none, world))
    × (put_id_for_ifa plain_cluster plain_uuids (text "ks") app_id id_5 (some ifa) false world
        ≡ (err invalid_input, world))
tracking_disabled_sample =
    tracking_disabled plain_cluster plain_uuids (text "ks") app_id id_5 (some ifa) world

abbrev origins : List OriginConfig
origins = elim config.origins [ none ↦ [] | some os ↦ os ]

made : new_cors config ≡ some cors
unfolding new_cors
made = refl

valid_origin-new_cors_iff_example :
    (valid_origin cors app_id (some (text "https://a.example")) ≡ true) ↔ (
      (allowed : List Text) × (last_allowed app_id origins ≡ some allowed)
      × Mem (text "https://a.example") allowed)
valid_origin-new_cors_iff_example =
    valid_origin-new_cors_iff config cors origins app_id (text "https://a.example") made refl

abbrev built : Builder
built = record {
  status = 200;
  headers =
      (text "access-control-allow-origin", text "https://a.example")
      ∷ (text "access-control-allow-methods", text "POST")
      ∷ (text "access-control-allow-headers", text "Content-Type")
      ∷ [];
}

builds :
    response_builder_origin plain_http cors app_id (some (text "https://a.example")) web
    ≡ returned built
unfolding response_builder_origin valid_origin lookup text_eq Text-discrete
builds = refl

response_builder_origin-allow_origin_iff_example :
    (lookup allow_origin built.headers ≡ some (text "https://a.example")) ↔ (
      (o : Text) × (some (text "https://a.example") ≡ some o)
      × (some o ≡ some (text "https://a.example"))
      × (valid_origin cors app_id (some (text "https://a.example")) ≡ true)
      × (true ≡ true))
response_builder_origin-allow_origin_iff_example =
    response_builder_origin-allow_origin_iff plain_http cors app_id
      (some (text "https://a.example")) web built builds (text "https://a.example")

parse-eq-returned_iff_example :
    (parse (some (text "file")) (λ s. some config) (text "production") ≡ returned config) ↔ (
      (config_toml : Text) × (some (text "file") ≡ some config_toml)
      × (some config ≡ some config)
      × ((text "production" ≡ text "development")
          ⊎ ((config.gateway.allow_empty_signature ≡ false)
              × (config.cassandra.manage_apps ≡ false))))
parse-eq-returned_iff_example =
    parse-eq-returned_iff (some (text "file")) (λ s. some config) (text "production") config
