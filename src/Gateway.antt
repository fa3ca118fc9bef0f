-- ===== src/Gateway.antt =====
-- src/gateway.rs: what a request needs, and the registration of a device.
pub mod Handlers
pub mod Registration
pub mod Delivery
pub mod Counters
pub mod Requests
pub mod Responses
pub mod Routes
pub mod Histories
pub mod Signatures
pub mod Devices
pub mod Returns
pub mod Newcomers
pub mod Races
pub mod Documents
pub mod Acceptance
pub mod Rejections
pub mod Answers
pub mod Cancellations
use xorc_gateway.Base.{
  ℕ, ◌+◌, Bool, true, false, Option, none, some, List, [], ◌∷◌, Text, text, if◌then◌else◌, ℤ,
  Outcome, returned, panicked, map, or_else, is_none,
}
use xorc_gateway.AppRegistry.{token_for}
use xorc_gateway.Bus.{Producer}
use xorc_gateway.Cluster.{Cluster}
use xorc_gateway.Config.{Config}
use xorc_gateway.Context.{Context, DeviceId, Crypto, encrypt_id, generate}
use xorc_gateway.Cors.{Cors}
use xorc_gateway.Crates.{Http, Hmac, Uuids}
use xorc_gateway.Error.{GatewayError, service_unavailable}
use xorc_gateway.Events.Batch.{SdkEventBatch, Translation, ProtoBatch}
use xorc_gateway.Events.Event.{SdkEvent, Value, is_register}
use xorc_gateway.Events.Response.{EventResult, success, new_result, register_result}
use xorc_gateway.IfaMatching.{get_id_for_ifa, put_id_for_ifa}
use xorc_gateway.Metrics.{Metrics}
use xorc_gateway.Results.{Result, ok, err}
use xorc_gateway.World.{World, Run}

-- The crates and the statics that do not change: the cluster, the keys, the configuration, `CORS`,
-- `serde_json::from_slice` and `to_string`, `encode` of `prost`, and the encoder of `prometheus`.
pub record Env : Type 1 where
  pub cluster : Cluster
  pub crypto : Crypto
  pub http : Http
  pub hmac : Hmac
  pub uuids : Uuids
  pub translation : Translation
  pub config : Config
  pub cors : Option Cors
  pub producer : Producer
  pub from_slice : Text → Option SdkEventBatch
  pub to_string : Value → Text
  pub encode : ProtoBatch → Text
  pub gather : Metrics → Text
  pub format_type : Text

-- What chance decides for a request: the UUID and the nonce that may be drawn, the time, and whether
-- the pool of threads takes the blocking call.
pub record Chance : Type 0 where
  pub new_v4 : ℕ
  pub nonce : List ℕ
  pub now : ℤ
  pub blocking : Bool

abbrev pub Registered : Type 0
Registered = List EventResult × Context × SdkEventBatch

-- The id of the first event that registers a device.
unfoldable pub find_register : List SdkEvent → Option Text
unfolding is_register
find_register [] = none
find_register (e ∷ es) = if is_register e then some e.id else find_register es

module _ (env : Env) (chance : Chance) where
  -- The id for a device: the one that the cluster knows, encrypted, or a new one.
  unfoldable pub id_for : Option Text → Outcome DeviceId
  unfolding encrypt_id generate
  id_for (some known) = encrypt_id env.crypto chance.nonce (record { value = known })
  id_for none = generate env.crypto env.uuids chance.new_v4 chance.nonce

  -- The closure that runs as a blocking call. The result of the write is dropped.
  unfoldable pub match_device : Context → SdkEventBatch → Run env.cluster DeviceId
  match_device c b w =
      let keyspace = env.config.cassandra.keyspace in
      let ifa = b.device.ifa in
      let tracking = b.device.ifa_tracking_enabled in
      let (found, w') = get_id_for_ifa env.cluster env.uuids keyspace c.app_id ifa tracking w in
      elim (id_for found) [
        | panicked ↦ (panicked, w')
        | returned id ↦
            let (stored, w'') =
              put_id_for_ifa env.cluster env.uuids keyspace c.app_id id.cleartext ifa tracking w' in
            (returned id, w'')
      ]

  -- `fetch_id`; `none` is the error of `blocking`.
  unfoldable pub fetch_id : Context → SdkEventBatch → Run env.cluster (Option DeviceId)
  fetch_id c b w = elim c.device_id [
    | some id ↦ (returned (some id), w)
    | none ↦
        if chance.blocking
        then (let (id, w') = match_device c b w in
            elim id [ panicked ↦ (panicked, w') | returned d ↦ (returned (some d), w') ])
        else (returned none, w)
  ]

  -- The context that `create_new_device` returns, with the id and a token for it.
  abbrev pub completed : Context → DeviceId → World env.cluster → Context
  completed c id w = record c {
    device_id = or_else c.device_id (some id);
    api_token = or_else c.api_token (token_for w.registry c.app_id);
  }

  -- `Gateway::create_new_device`
  unfoldable pub create_new_device :
      Context → SdkEventBatch → Text → Run env.cluster (Result GatewayError Registered)
  create_new_device c b event_id w =
      let (fetched, w') = fetch_id c b w in
      elim fetched [
        | panicked ↦ (panicked, w')
        | returned none ↦
            (returned (err (service_unavailable (text "Aerospike is acting slow today"))), w')
        | returned (some id) ↦
            let c' = completed c id w' in
            let result = register_result event_id success c'.api_token id.ciphertext in
            (returned (ok (result ∷ [], c', b)), w')
      ]

  -- `Gateway::generate_event_results`
  unfoldable pub generate_event_results :
      Context → SdkEventBatch → Run env.cluster (Result GatewayError Registered)
  generate_event_results c b w = elim (find_register b.events) [
    | some event_id ↦ create_new_device c b event_id w
    | none ↦ (returned (ok (map (λ e. new_result e.id success) b.events, c, b)), w)
  ]
