-- ===== src/Units/Origins.antt =====
-- The unit tests of src/cors.rs, for the configuration of config/config.toml.tests.
use xorc_gateway.Base.{Bool, true, false, none, some, [], ◌∷◌, Text, text, text_eq, is_none, ◌&&◌}
use xorc_gateway.Base.Dict.{lookup}
use xorc_gateway.Config.{Config}
use xorc_gateway.Cors.{
  Builder, new_cors, response_builder_origin, response_builder_wildcard, allow_origin,
  allow_methods, allow_headers,
}
use xorc_gateway.Crates.Samples.{plain_http}
use xorc_gateway.Events.Device.{web}
use xorc_gateway.Units.Assertions.{check, returns, is_text}

-- config/config.toml.tests
abbrev pub tests_config : Config
tests_config = record {
  kafka = record { topic = text "sdk"; brokers = text "kafka:9092" };
  gateway = record {
    threads = 4;
    process_name_prefix = text "sdk-gateway-worker-";
    default_token =
        text
          "T0BdxB0O/+eRZhN6REPmbYpTqjxCTtUgirbW7ABJ8renKaxoGbHFsOX2iLFhuWaJbZHzmTnvKv15fv/87ceIQQ==";
    allow_empty_signature = false;
  };
  cors = some (record {
    allowed_methods = text "HERP,DERP";
    allowed_headers = text "Content-Type, Content-Length";
  });
  origins = some (
      record {
        app_id = text "00000000-0000-0000-0000-000000000000";
        allowed = text "https://www.google.fi" ∷ [];
      }
      ∷ record {
        app_id = text "11111111-0000-0000-0000-000000000000";
        allowed = text "http://localhost:5401" ∷ text "https://reddit.com" ∷ [];
      }
      ∷ []);
  test_apps = some (
      record {
        app_id = text "22222222-0000-0000-0000-000000000000";
        token = some (text "46732a28cd445366c6c8dcbd57500af4e69597c8ebe224634d6ccab812275c9c");
        secret_ios = some (text "1b66af517dd60807aeff8b4582d202ef500085bc0cec92bc3e67f0c58d6203b5");
        secret_android =
            some (text "d685e53ae50c945e5ae4f36170d7213360a25ed91b91a647574aa384d2b6f901");
        secret_web = some (text "4c553960fdc2a82f90b84f6ef188e836818fcee2c43a6c32bd6c91f41772657f");
      }
      ∷ []);
  cassandra = record {
    keyspace = text "sdk";
    contact_points = text "localhost:9042";
    username = none;
    password = none;
    manage_apps = false;
  };
}

abbrev pub new_with_cors_config : Bool
new_with_cors_config = check (new_cors tests_config) λ cors. true

abbrev has_lists : Builder → Bool
has_lists response =
    is_text (lookup allow_methods response.headers) (text "HERP,DERP")
    && is_text (lookup allow_headers response.headers) (text "Content-Type, Content-Length")

abbrev pub wildcard_headers : Bool
wildcard_headers = check (new_cors tests_config) λ cors.
    returns (response_builder_wildcard plain_http cors)
      λ response. is_text (lookup allow_origin response.headers) (text "*") && has_lists response

abbrev origin_response : Text → Text → (Builder → Bool) → Bool
origin_response app_id origin asserts =
    check (new_cors tests_config)
      λ cors. returns (response_builder_origin plain_http cors app_id (some origin) web) asserts

abbrev pub headers_for_existing_app_from_allowed_origin : Bool
headers_for_existing_app_from_allowed_origin =
    origin_response (text "11111111-0000-0000-0000-000000000000") (text "https://reddit.com")
      λ response.
        is_text (lookup allow_origin response.headers) (text "https://reddit.com")
        && has_lists response

abbrev pub headers_for_existing_app_from_wrong_origin : Bool
headers_for_existing_app_from_wrong_origin =
    origin_response (text "2") (text "https://facebook.com")
      λ response. is_none (lookup allow_origin response.headers)

abbrev pub headers_for_non_existing_app : Bool
headers_for_non_existing_app =
    origin_response (text "3") (text "https://reddit.com")
      λ response. is_none (lookup allow_origin response.headers)
