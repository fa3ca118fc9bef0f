-- ===== src/Units/Contexts.antt =====
-- The unit tests of src/context.rs, but for the one that needs the cipher.
use xorc_gateway.Base.{panicked, Bool, none, List, [], ◌∷◌, Text, text, ◌==◌, text_eq, is_none}
use xorc_gateway.Context.{Context, Crypto, new_context}
use xorc_gateway.Crates.Samples.{plain_base64, plain_aead, plain_http, plain_network}
use xorc_gateway.Events.Device.{ios}
use xorc_gateway.Units.Assertions.{check, returns, is_text, header_map}

-- The faked id is no base64.
abbrev crypto : Crypto
crypto = record {
  base64 = record plain_base64 { decode = λ s. none };
  aead = plain_aead;
  secret = panicked;
}

-- The context of a request with these headers.
abbrev in_context : List (Text × Text) → (Context → Bool) → Bool
in_context entries asserts =
    returns (new_context crypto plain_http plain_network (header_map entries) (text "123") ios)
      asserts

abbrev pub test_empty_ip_address : Bool
test_empty_ip_address = in_context ([]) λ context. is_none context.ip

abbrev pub test_existing_ipv4_address : Bool
test_existing_ipv4_address =
    in_context ((text "x-real-ip", text "1.1.1.1") ∷ [])
      λ context. check context.ip λ ip. ip.display == text "1.1.1.1"

abbrev pub test_existing_ipv6_address : Bool
test_existing_ipv6_address =
    in_context ((text "x-real-ip", text "::1") ∷ [])
      λ context. check context.ip λ ip. ip.display == text "::1"

abbrev pub test_empty_api_token : Bool
test_empty_api_token = in_context ([]) λ context. is_none context.api_token

abbrev pub test_existing_api_token : Bool
test_existing_api_token =
    in_context ((text "xorc-api-token", text "some-token") ∷ [])
      λ context. is_text context.api_token (text "some-token")

abbrev pub test_empty_signature : Bool
test_empty_signature = in_context ([]) λ context. is_none context.signature

abbrev pub test_existing_signature : Bool
test_existing_signature =
    in_context ((text "xorc-Signature", text "some-signature") ∷ [])
      λ context. is_text context.signature (text "some-signature")

abbrev pub test_empty_origin : Bool
test_empty_origin = in_context ([]) λ context. is_none context.origin

abbrev pub test_existing_origin : Bool
test_existing_origin =
    in_context ((text "Origin", text "http://google.com") ∷ [])
      λ context. is_text context.origin (text "http://google.com")

abbrev pub test_lowercase_origin : Bool
test_lowercase_origin =
    in_context ((text "origin", text "http://google.com") ∷ [])
      λ context. is_text context.origin (text "http://google.com")

abbrev pub test_empty_device_id : Bool
test_empty_device_id = in_context ([]) λ context. is_none context.device_id

abbrev pub test_faulty_device_id : Bool
test_faulty_device_id =
    in_context ((text "XORC-Device-Id", text "THIS_IS_FAKED") ∷ [])
      λ context. is_none context.device_id
