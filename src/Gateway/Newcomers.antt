-- ===== src/Gateway/Newcomers.antt =====
-- New devices, and devices that register again, are answered by src/gateway.rs.
use xorc_gateway.Base.{
  ◌≡◌, ◌∙◌, refl, ap, some, none, true, Option-cases, inl, inr, List, [], ◌∷◌, ◌++◌, Text, text,
  arith, or_else, returned,
}
use xorc_gateway.AppRegistry.{token_for}
use xorc_gateway.Context.{Context, DeviceId}
use xorc_gateway.Cors.{Builder}
use xorc_gateway.Events.Batch.{SdkEventBatch}
use xorc_gateway.Events.Event.{SdkEvent, is_register}
use xorc_gateway.Events.Response.{success, register_result, response_from, response_json}
use xorc_gateway.Gateway.{
  Env, Chance, completed, find_register, fetch_id, match_device, id_for, generate_event_results,
}
use xorc_gateway.Gateway.Acceptance.{IsServable, handle_sdk_generated}
use xorc_gateway.Gateway.Answers.{IsPlain, IsFirstRegister, register_lem}
use xorc_gateway.Gateway.Devices.{IsLawful, IsChance, match_device_lem, id_for-hyphenated}
use xorc_gateway.Gateway.Handlers.{Request, handle_sdk, sdk_builder}
use xorc_gateway.Gateway.Registration.{answer_for, fetch_id_kept, fetch_id-IsQuiet}
use xorc_gateway.IfaMatching.{get_id_for_ifa}
use xorc_gateway.IfaMatching.Answers.{get_id_for_ifa-some}
use xorc_gateway.Events.Batch.Order.{IsSorter}
use xorc_gateway.Results.{ok}
use xorc_gateway.World.{World}

find_register-append :
    (before : List SdkEvent) (event : SdkEvent) (after : List SdkEvent)
    → IsPlain before
    → is_register event ≡ true
    → find_register (before ++ event ∷ after) ≡ some event.id
unfolding find_register
find_register-append [] event after plain registers = ground arith
find_register-append (e ∷ es) event after (p, plain) registers =
    ground (arith, find_register-append es event after plain registers)

module _ (env : Env) (lawful : IsLawful env) (chance : Chance) (random : IsChance chance)
    (free : chance.blocking ≡ true) (c : Context) (b : SdkEventBatch) (w : World env.cluster) where
  fetch_id_matched :
      (id : DeviceId)
      → c.device_id ≡ none
      → (match_device env chance c b w).0 ≡ returned id
      → (fetch_id env chance c b w).0 ≡ returned (some id)
  unfolding fetch_id match_device id_for
  fetch_id_matched id missing matched = rw (fetch_id, missing, free, matched)

  -- A device always gets an id.
  fetched :
      (id : DeviceId) × ((fetch_id env chance c b w).0 ≡ returned (some id))
      × (or_else c.device_id (some id) ≡ some id)
  fetched = elim (Option-cases c.device_id) [
    | inr (d, sent) ↦ (d, ap (λ p. p.0) (fetch_id_kept env chance c b w d sent), ground arith)
    | inl missing ↦
        let keyspace = env.config.cassandra.keyspace in
        let ifa = b.device.ifa in
        let tracking = b.device.ifa_tracking_enabled in
        let (id, e, made, _, _) =
          id_for-hyphenated env lawful chance random
            (get_id_for_ifa env.cluster env.uuids keyspace c.app_id ifa tracking w).0
            (get_id_for_ifa-some env.cluster env.uuids keyspace lawful.holds c.app_id ifa tracking
              w) in
        (
          id,
          fetch_id_matched id missing
              (ap (λ p. p.0) (match_device_lem env lawful chance c b w id made)),
          rw missing,
        )
  ]

  token_kept :
      (id : DeviceId)
      → (completed env chance c id (fetch_id env chance c b w).1).api_token
        ≡ or_else c.api_token (token_for w.registry c.app_id)
  token_kept id =
      ap (λ r. or_else c.api_token (token_for r c.app_id))
        (fetch_id-IsQuiet env chance c b w).registry

  builder_kept :
      (id : DeviceId) (w' : World env.cluster)
      → sdk_builder env (completed env chance c id w') ≡ sdk_builder env c
  unfolding sdk_builder
  builder_kept id w' = refl

  registered :
      (event : SdkEvent) (id : DeviceId)
      → IsFirstRegister b.events event
      → (fetch_id env chance c b w).0 ≡ returned (some id)
      → let done = completed env chance c id (fetch_id env chance c b w).1 in
        (generate_event_results env chance c b w).0
        ≡ returned
            (ok (register_result event.id success done.api_token id.ciphertext ∷ [], done, b))
  registered event id first made =
      let found : find_register b.events ≡ some event.id =
        rw first.split
          (find_register-append first.before event first.after first.plain first.registers) in
      ap (λ p. p.0) (register_lem env chance c b w event.id found)
      ∙ answer_for env chance c b w event.id id made

  -- Under the laws of the crates, of the cluster and of the sorter, and where the pool of threads
  -- takes the blocking call, a request that can be served and holds an event that registers a device
  -- is answered with status 200 and one result, for the first such event: with the ciphertext of an
  -- id, which is the one that the request brought, if any, and with the token of the request, or
  -- else of the application, if there is one.
  pub handle_sdk_registered :
      (req : Request) (body : Text) (builder : Builder) (event : SdkEvent)
      → IsSorter env.translation.sorter
      → IsServable env req w body b c builder
      → IsFirstRegister b.events event
      → (id : DeviceId) × (or_else c.device_id (some id) ≡ some id)
        × ((handle_sdk env chance req w).0
            ≡ returned (record {
              status = 200;
              headers = builder.headers ++ (text "content-type", text "application/json") ∷ [];
              body = env.to_string (
                  response_json (
                    response_from (
                      register_result event.id success
                        (or_else c.api_token (token_for w.registry c.app_id))
                        id.ciphertext
                      ∷ [])));
            }))
  handle_sdk_registered req body builder event sorts s first =
      let (id, made, kept) = fetched in
      let done = completed env chance c id (fetch_id env chance c b w).1 in
      let generated = registered event id first made in
      let answered =
        handle_sdk_generated env chance req w body b c done builder _ sorts s generated
          (builder_kept id (fetch_id env chance c b w).1 ∙ s.headers) in
      (id, kept, rw (← token_kept id) answered)
