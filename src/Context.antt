-- ===== src/Context.antt =====
-- src/context.rs: what the gateway knows about a request.
pub mod Devices
pub mod Logging
use xorc_gateway.Base.{
  Option, none, some, List, Text, text, Outcome, returned, and_then, map_option, ◌>>=◌, ℕ,
}
use xorc_gateway.Crates.{Base64, Aead, Http, HeaderMap, Network, IpAddr, Uuids}
use xorc_gateway.Encryption.{Ciphertext, Cleartext, encrypt, decrypt}
use xorc_gateway.Events.Device.{Platform}

-- `DeviceId`
pub record DeviceId : Type 0 where
  pub ciphertext : Ciphertext
  pub cleartext : Cleartext

-- `Context`
pub record Context : Type 0 where
  pub app_id : Text
  pub platform : Platform
  pub api_token : Option Text
  pub device_id : Option DeviceId
  pub signature : Option Text
  pub ip : Option IpAddr
  pub origin : Option Text

-- The parts of the environment that reading a request takes.
pub record Crypto : Type 0 where
  pub base64 : Base64
  pub aead : Aead
  pub secret : Outcome (List ℕ)

-- `Ciphertext::encrypt` and the pair that `DeviceId` keeps.
unfoldable pub encrypt_id : Crypto → List ℕ → Cleartext → Outcome DeviceId
unfolding encrypt
encrypt_id c nonce cleartext =
    and_then (encrypt c.base64 c.aead c.secret nonce cleartext)
      λ ciphertext. returned (record { ciphertext = ciphertext; cleartext = cleartext })

-- `DeviceId::generate`, for the UUID of version 4 and the nonce that the random generator gives.
unfoldable pub generate : Crypto → Uuids → ℕ → List ℕ → Outcome DeviceId
unfolding encrypt_id
generate c uuids new_v4 nonce = encrypt_id c nonce (record { value = uuids.hyphenated new_v4 })

-- `Context::get_value`
unfoldable pub get_value : Http → HeaderMap → Text → Option Text
get_value http headers key = headers.get key >>= http.to_str

-- The closure in `Context::new` on the value of `XORC-Device-Id`.
unfoldable pub read_device_id : Crypto → Option Text → Outcome (Option DeviceId)
unfolding decrypt
read_device_id c none = returned none
read_device_id c (some s) =
    let ciphertext : Ciphertext = record { value = s } in
    and_then (decrypt c.base64 c.aead c.secret ciphertext) λ opened.
      returned
        (map_option (λ cleartext. record { ciphertext = ciphertext; cleartext = cleartext }) opened)

-- `Context::new`
unfoldable pub new_context : Crypto → Http → Network → HeaderMap → Text → Platform → Outcome Context
unfolding get_value read_device_id
new_context c http network headers app_id platform =
    and_then (read_device_id c (get_value http headers (text "XORC-Device-Id"))) λ device_id.
      returned (record {
        app_id = app_id;
        platform = platform;
        api_token = get_value http headers (text "XORC-Api-Token");
        device_id = device_id;
        signature = get_value http headers (text "XORC-Signature");
        ip = get_value http headers (text "X-Real-IP") >>= network.parse_ip;
        origin = get_value http headers (text "Origin");
      })
