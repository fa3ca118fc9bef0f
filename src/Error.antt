-- ===== src/Error.antt =====
-- src/error.rs: the errors of a request and the responses to them.
use xorc_gateway.Base.{ℕ, Option, some, Text, text, Outcome, returned, and_then}
use xorc_gateway.Context.{Context}
use xorc_gateway.Cors.{Cors, Builder, Response, new_builder, finish, response_builder_origin}
use xorc_gateway.Crates.{Http}

-- `GatewayError`
pub data GatewayError : Type 0 where
  app_does_not_exist invalid_token missing_token missing_signature : GatewayError
  invalid_signature unknown_origin bad_device_id invalid_payload : GatewayError
  internal_server_error service_unavailable : Text → GatewayError

-- `GatewayError::description`
unfoldable pub description : GatewayError → Text
description app_does_not_exist = text "Application does not exist"
description invalid_token = text "The given SDK token was invalid"
description missing_token = text "No SDK token given"
description missing_signature = text "The signature header was missing"
description invalid_signature = text "The signature header was invalid"
description unknown_origin = text "The ORIGIN didn't match to the CORS configuration"
description bad_device_id = text "There is something fishy in the device id encryption"
description invalid_payload = text "The request JSON was faulty"
description (internal_server_error reason) = reason
description (service_unavailable reason) = reason

-- `response_builder_for`, for the global `CORS`.
unfoldable pub response_builder_for : Http → Option Cors → Option Context → Outcome Builder
unfolding response_builder_origin
response_builder_for http (some cors) (some c) =
    response_builder_origin http cors c.app_id c.origin c.platform
response_builder_for http _ _ = returned new_builder

-- The status and the body that the match of `into_response` sets.
unfoldable pub status_of : GatewayError → ℕ
status_of app_does_not_exist = 403
status_of invalid_token = 412
status_of missing_token = 412
status_of missing_signature = 412
status_of invalid_signature = 412
status_of unknown_origin = 403
status_of bad_device_id = 400
status_of invalid_payload = 400
status_of (internal_server_error reason) = 500
status_of (service_unavailable reason) = 503

unfoldable pub body_of : GatewayError → Text
body_of app_does_not_exist = text "Unknown app"
body_of invalid_token = text "Invalid XORC-Api-Token"
body_of missing_token = text "Missing XORC-Api-Token"
body_of missing_signature = text "Missing XORC-Signature"
body_of invalid_signature = text "Invalid XORC-Signature"
body_of unknown_origin = text "Unknown Origin"
body_of bad_device_id = text "Bad XORC-Device-Id"
body_of invalid_payload = text "Invalid payload"
body_of (internal_server_error reason) = text "Invalid Server Error"
body_of (service_unavailable reason) = text "Service unavailable"

-- `into_response`
unfoldable pub into_response : Http → Option Cors → GatewayError → Option Context → Outcome Response
unfolding response_builder_for status_of body_of
into_response http cors error context =
    and_then (response_builder_for http cors context)
      λ builder. returned (finish builder (status_of error) (body_of error))
