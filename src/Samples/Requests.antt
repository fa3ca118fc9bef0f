-- ===== src/Samples/Requests.antt =====
-- A request, and the environment and the state that it is handled in.
use xorc_gateway.Base.{
  returned, ℕ, true, false, some, none, List, [], ◌∷◌, Text, text, ◌==◌, text_eq, if◌then◌else◌,
  replicate, pos,
}
use xorc_gateway.Bus.{stored}
use xorc_gateway.AppRegistry.{Application, AppRegistry}
use xorc_gateway.Config.{Config}
use xorc_gateway.Context.{Context, Crypto}
use xorc_gateway.Cors.{Cors}
use xorc_gateway.Crates.{HeaderMap}
use xorc_gateway.Crates.Samples.{
  plain_base64, plain_hmac, plain_aead, plain_uuids, plain_http, plain_network, plain_casts,
}
use xorc_gateway.Events.Batch.{SdkEventBatch, Translation}
use xorc_gateway.Events.Device.{SdkDevice, ios}
use xorc_gateway.Events.Event.{SdkEvent, field, end, string, object}
use xorc_gateway.Gateway.{Env, Chance}
use xorc_gateway.Gateway.Handlers.{Request, post, sdk_path}
use xorc_gateway.Metrics.{no_metrics}
use xorc_gateway.Samples.Clusters.{plain_cluster}
use xorc_gateway.Samples.Sorting.{insertion_sorter}
use xorc_gateway.World.{World}

abbrev pub app_id : Text
app_id = text "0c2a8a52-7b5e-4f43-9d2e-3f8c1f6a5b11"

abbrev pub ifa : Text
ifa = text "7f1f5f0e-2a4b-4a53-8c39-51d3a0c2e9d4"

abbrev pub device : SdkDevice
device = record {
  platform = some (text "ios");
  os_name = none;
  ifa = some ifa;
  ifa_tracking_enabled = true;
  notification_registered = false;
  h = none;
  w = none;
  locale = some (text "de_DE");
  language = none;
  time_zone = none;
  manufacturer = none;
  model = none;
  os_version = none;
  network_connection_type = none;
  device_name = none;
  idfv = none;
  carrier_name = none;
  carrier_country = none;
  browser_name = none;
  browser_version = none;
  browser_ua = none;
  notification_types = none;
  orientation = none;
  ip_hashed_blake2 = none;
  country = none;
}

abbrev pub event_named : Text → ℕ → SdkEvent
event_named name timestamp = record {
  id = text "1";
  timestamp = timestamp;
  name = name;
  properties = field (text "a") (object (field (text "b") (string (text "c")) end)) end;
  session_id = none;
  external_user_id = none;
  reference_id = none;
}

abbrev pub batch_of : List SdkEvent → SdkEventBatch
batch_of events = record {
  environment = record {
    sdk_version = none;
    app_version = none;
    app_store_id = none;
    app_id = app_id;
    app_instance_id = none;
  };
  events = events;
  device = device;
  recipient_id = none;
}

abbrev pub opened : SdkEvent
opened = event_named (text "app_open") 20

abbrev pub closed : SdkEvent
closed = event_named (text "app_close") 10

abbrev pub registering : SdkEvent
registering = event_named (text "xorc_register") 5

abbrev pub plain_batch : SdkEventBatch
plain_batch = batch_of (opened ∷ closed ∷ [])

abbrev pub registering_batch : SdkEventBatch
registering_batch = batch_of (opened ∷ registering ∷ [])

abbrev pub application : Application
application = record {
  id = app_id;
  token = some (text "token");
  ios_secret = some (record { bytes = 1 ∷ [] });
  android_secret = none;
  web_secret = none;
}

abbrev pub registry : AppRegistry
registry = record {
  allow_empty_signature = false;
  apps = (app_id, application) ∷ [];
  has_pool = true;
}

abbrev pub config : Config
config = record {
  kafka = record { topic = text "events"; brokers = text "localhost:9092" };
  gateway = record {
    threads = 1;
    process_name_prefix = text "gateway-";
    default_token = text "default";
    allow_empty_signature = false;
  };
  cors = some (record { allowed_methods = text "POST"; allowed_headers = text "Content-Type" });
  origins = some (record { app_id = app_id; allowed = text "https://a.example" ∷ [] } ∷ []);
  test_apps = some (
      record {
        app_id = app_id;
        token = some (text "token");
        secret_ios = some (text "01");
        secret_android = some (text "bad");
        secret_web = none;
      }
      ∷ []);
  cassandra = record {
    keyspace = text "ks";
    contact_points = text "localhost:9042";
    username = none;
    password = none;
    manage_apps = false;
  };
}

abbrev pub cors : Cors
cors = record {
  allowed_methods = text "POST";
  allowed_headers = text "Content-Type";
  allowed_origins = (app_id, text "https://a.example" ∷ []) ∷ [];
}

abbrev pub crypto : Crypto
crypto = record { base64 = plain_base64; aead = plain_aead; secret = returned (replicate 32 7) }

abbrev pub translation : Translation
translation = record {
  base64 = plain_base64;
  network = plain_network;
  casts = plain_casts;
  sorter = insertion_sorter;
}

-- A body that is `bad` is no JSON; `register` is a batch that registers, any other is not.
abbrev pub env : Env
env = record {
  cluster = plain_cluster;
  crypto = crypto;
  http = plain_http;
  hmac = plain_hmac;
  uuids = plain_uuids;
  translation = translation;
  config = config;
  cors = some cors;
  producer = record { send = λ sent m. some stored };
  from_slice = λ body.
      if body == text "bad"
      then none
      else if body == text "register"
      then some registering_batch
      else some plain_batch;
  to_string = λ v. text "json";
  encode = λ p. p.header.source;
  gather = λ m. text "metrics";
  format_type = text "text/plain";
}

abbrev pub chance : Chance
chance = record { new_v4 = 5; nonce = replicate 12 9; now = pos 1000; blocking = true }

abbrev pub world : World plain_cluster
world = record { registry = registry; metrics = no_metrics; cluster = []; sent = [] }

-- The headers with a signature for the body and nothing else.
abbrev pub signed_headers : Text → HeaderMap
signed_headers body = record {
  get = λ name. if name == text "XORC-Signature" then some (1 ∷ body) else none;
}

abbrev pub request_for : Text → Request
request_for body = record {
  method = post;
  path = sdk_path;
  headers = signed_headers body;
  body = some body;
}

-- The context of that request.
abbrev pub context_for : Text → Context
context_for body = record {
  app_id = app_id;
  platform = ios;
  api_token = none;
  device_id = none;
  signature = some (1 ∷ body);
  ip = none;
  origin = none;
}
