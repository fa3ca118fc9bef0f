-- ===== src/Units/Registries.antt =====
-- The unit tests of src/app_registry.rs that make an application.
use xorc_gateway.Base.{Bool, Option, none, some, Text, text, ◌==◌, text_eq, is_none, not, ◌&&◌}
use xorc_gateway.AppRegistry.{Application, create_app}
use xorc_gateway.Crates.Samples.{plain_hex}
use xorc_gateway.Metrics.{no_metrics}
use xorc_gateway.Units.Assertions.{is_text}

abbrev pub ios_text : Text
ios_text = text "1b66af517dd60807aeff8b4582d202ef500085bc0cec92bc3e67f0c58d6203b5"

abbrev pub android_text : Text
android_text = text "d685e53ae50c945e5ae4f36170d7213360a25ed91b91a647574aa384d2b6f901"

abbrev pub web_text : Text
web_text = text "4c553960fdc2a82f90b84f6ef188e836818fcee2c43a6c32bd6c91f41772657f"

abbrev pub token_text : Text
token_text = text "46732a28cd445366c6c8dcbd57500af4e69597c8ebe224634d6ccab812275c9c"

abbrev nil_uuid : Text
nil_uuid = text "00000000-0000-0000-0000-000000000000"

abbrev app_with : Option Text → (ios android web : Option Text) → Application
app_with token ios android web = (create_app plain_hex nil_uuid token ios android web no_metrics).0

abbrev pub test_app_creation_empty_secrets : Bool
test_app_creation_empty_secrets =
    let app = app_with none none none none in
    nil_uuid == app.id
    && (is_none app.token
        && (is_none app.ios_secret && (is_none app.android_secret && is_none app.web_secret)))

abbrev pub test_app_creation_with_token : Bool
test_app_creation_with_token =
    let app = app_with (some token_text) none none none in is_text app.token token_text

abbrev pub test_app_creation_with_secrets : Bool
test_app_creation_with_secrets =
    let app = app_with none (some ios_text) (some android_text) (some web_text) in
    not (is_none app.ios_secret)
    && (not (is_none app.android_secret) && not (is_none app.web_secret))
