-- ===== src/Gateway/Registration.antt =====
-- The registration of a device, src/gateway.rs.
use xorc_gateway.Base.{
  some, List, [], ◌∷◌, ◌≡◌, ap, Text, arith, returned, or_else, Outcome-cases, Option-cases, inl,
  inr,
}
use xorc_gateway.Context.{Context, DeviceId}
use xorc_gateway.Events.Batch.{SdkEventBatch}
use xorc_gateway.Events.Response.{EventResult, success, register_result}
use xorc_gateway.Gateway.{
  Env, Chance, Registered, id_for, match_device, fetch_id, create_new_device, find_register,
  generate_event_results, completed,
}
use xorc_gateway.IfaMatching.{get_id_for_ifa}
use xorc_gateway.IfaMatching.Frames.{
  IsQuiet, IsQuiet-refl, IsQuiet-trans, get_id_for_ifa-IsQuiet, put_id_for_ifa-IsQuiet,
}
use xorc_gateway.Results.{ok}
use xorc_gateway.World.{World}

module _ (env : Env) (chance : Chance) (c : Context) (b : SdkEventBatch)
    (w : World env.cluster) where
  match_device-IsQuiet : IsQuiet env.cluster w (match_device env chance c b w).1
  unfolding match_device
  match_device-IsQuiet =
      let keyspace = env.config.cassandra.keyspace in
      let ifa = b.device.ifa in
      let tracking = b.device.ifa_tracking_enabled in
      let got = get_id_for_ifa env.cluster env.uuids keyspace c.app_id ifa tracking w in
      let quiet = get_id_for_ifa-IsQuiet env.cluster env.uuids keyspace c.app_id ifa tracking w in
      elim (Outcome-cases (id_for env chance got.0)) [
        | inl stops ↦ rw (match_device, stops) quiet
        | inr (id, made) ↦
            rw (match_device, made)
              (IsQuiet-trans env.cluster quiet (
                put_id_for_ifa-IsQuiet env.cluster env.uuids keyspace c.app_id id.cleartext ifa
                  tracking got.1))
      ]

  pub fetch_id-IsQuiet : IsQuiet env.cluster w (fetch_id env chance c b w).1
  unfolding fetch_id
  fetch_id-IsQuiet = ground (arith, match_device-IsQuiet, IsQuiet-refl env.cluster w)

  create_new_device-IsQuiet :
      (event_id : Text) → IsQuiet env.cluster w (create_new_device env chance c b event_id w).1
  unfolding create_new_device
  create_new_device-IsQuiet event_id = elim (Outcome-cases (fetch_id env chance c b w).0) [
    | inl stops ↦ rw (create_new_device, stops) fetch_id-IsQuiet
    | inr (fetched, made) ↦ elim (Option-cases fetched) [
      | inl failed ↦ rw (create_new_device, made, failed) fetch_id-IsQuiet
      | inr (id, found) ↦ rw (create_new_device, made, found) fetch_id-IsQuiet
    ]
  ]

  pub generate_event_results-IsQuiet :
      IsQuiet env.cluster w (generate_event_results env chance c b w).1
  unfolding generate_event_results
  generate_event_results-IsQuiet = elim (Option-cases (find_register b.events)) [
    | inl absent ↦ rw (generate_event_results, absent) (IsQuiet-refl env.cluster w)
    | inr (event_id, found) ↦
        rw (generate_event_results, found) (create_new_device-IsQuiet event_id)
  ]

-- What `create_new_device` returns where an id was fetched.
pub answer_for :
    (env : Env) (chance : Chance) (c : Context) (b : SdkEventBatch) (w : World env.cluster)
    (event_id : Text) (id : DeviceId)
    → (fetch_id env chance c b w).0 ≡ returned (some id)
    → let done = completed env chance c id (fetch_id env chance c b w).1 in
      (create_new_device env chance c b event_id w).0
      ≡ returned (ok (register_result event_id success done.api_token id.ciphertext ∷ [], done, b))
unfolding create_new_device
answer_for env chance c b w event_id id made = rw (create_new_device, made)

fetched_of_ok :
    (env : Env) (chance : Chance) (c : Context) (b : SdkEventBatch) (w : World env.cluster)
    (event_id : Text) (r : Registered)
    → (create_new_device env chance c b event_id w).0 ≡ returned (ok r)
    → (id : DeviceId) × ((fetch_id env chance c b w).0 ≡ returned (some id))
unfolding create_new_device
fetched_of_ok env chance c b w event_id r e = elim (Outcome-cases (fetch_id env chance c b w).0) [
  | inl stops ↦ ground arith
  | inr (fetched, made) ↦ elim (Option-cases fetched) [
    | inl failed ↦ ground arith
    | inr (id, found) ↦ (id, rw (← found) made)
  ]
]

pub fetch_id_kept :
    (env : Env) (chance : Chance) (c : Context) (b : SdkEventBatch) (w : World env.cluster)
    (d : DeviceId)
    → c.device_id ≡ some d
    → fetch_id env chance c b w ≡ (returned (some d), w)
unfolding fetch_id
fetch_id_kept env chance c b w d sent = rw (fetch_id, sent)

-- A registration that succeeds answers with one result, for the event that asked for it, with a
-- token if there is one, and with the encrypted id that the context holds from then on; an id that
-- the request brought is kept.
pub create_new_device-ok :
    (env : Env) (chance : Chance) (c : Context) (b : SdkEventBatch) (w : World env.cluster)
    (event_id : Text) (results : List EventResult) (c' : Context) (b' : SdkEventBatch)
    → (create_new_device env chance c b event_id w).0 ≡ returned (ok (results, c', b'))
    → (id : DeviceId) × (results ≡ register_result event_id success c'.api_token id.ciphertext ∷ [])
      × (c'.device_id ≡ some id)
      × (or_else c.device_id (some id) ≡ some id)
      × (b' ≡ b)
create_new_device-ok env chance c b w event_id results c' b' e =
    let (id, made) = fetched_of_ok env chance c b w event_id (results, c', b') e in
    let answer = answer_for env chance c b w event_id id made in
    elim (Option-cases c.device_id) [
      | inl missing ↦ (id, ground arith, ground arith, ground arith, ground arith)
      | inr (d, sent) ↦
          let same : d ≡ id =
            ground (arith, ap (λ p. p.0) (fetch_id_kept env chance c b w d sent)) in
          (id, ground arith, ground arith, ground arith, ground arith)
    ]
