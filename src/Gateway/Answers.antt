-- ===== src/Gateway/Answers.antt =====
-- Which results src/gateway.rs answers for the events of a batch.
use xorc_gateway.Base.{
  true, false, none, some, List, [], ◌∷◌, ◌++◌, ◌≡◌, ◌⊎◌, refl, ap, Text, arith, All, returned, map,
  or_else, Bool-cases, inl, inr,
}
use xorc_gateway.Context.{Context, DeviceId}
use xorc_gateway.Events.Batch.{SdkEventBatch}
use xorc_gateway.Events.Event.{SdkEvent, is_register}
use xorc_gateway.Events.Response.{EventResult, success, new_result, register_result}
use xorc_gateway.Gateway.{Env, Chance, create_new_device, find_register, generate_event_results}
use xorc_gateway.Gateway.Registration.{create_new_device-ok}
use xorc_gateway.Results.{ok}
use xorc_gateway.World.{World}

-- No event of the list registers a device.
abbrev pub IsPlain : List SdkEvent → Type 0
IsPlain = All (λ e. is_register e ≡ false)

-- The event is the first of the list that registers a device.
pub record IsFirstRegister (events : List SdkEvent) (event : SdkEvent) : Type 0 where
  pub before : List SdkEvent
  pub after : List SdkEvent
  pub split : events ≡ before ++ event ∷ after
  pub plain : IsPlain before
  pub registers : is_register event ≡ true

find_register-cases :
    (events : List SdkEvent)
    → ((find_register events ≡ none) × IsPlain events)
      ⊎ ((event : SdkEvent) × (find_register events ≡ some event.id) × IsFirstRegister events event)
unfolding find_register
find_register-cases [] = inl (refl, tt)
find_register-cases (e ∷ es) = elim (Bool-cases (is_register e)) [
  | inl registers ↦ inr (
    e,
    ground arith,
    record { before = []; after = es; split = refl; plain = tt; registers = registers },
  )
  | inr plain ↦ elim (find_register-cases es) [
    | inl (absent, all) ↦ inl (ground arith, (plain, all))
    | inr (event, found, first) ↦ inr (
      event,
      ground arith,
      record {
        before = e ∷ first.before;
        after = first.after;
        split = ap (λ l. e ∷ l) first.split;
        plain = (plain, first.plain);
        registers = first.registers;
      },
    )
  ]
]

pub find_register_plain : (events : List SdkEvent) → IsPlain events → find_register events ≡ none
unfolding find_register
find_register_plain [] plain = refl
find_register_plain (e ∷ es) (plain, all) = ground (arith, find_register_plain es all)

module _ (env : Env) (chance : Chance) (c : Context) (b : SdkEventBatch)
    (w : World env.cluster) where
  pub plain_lem :
      find_register b.events ≡ none
      → generate_event_results env chance c b w
        ≡ (returned (ok (map (λ e. new_result e.id success) b.events, c, b)), w)
  unfolding generate_event_results
  plain_lem absent = rw (generate_event_results, absent)

  pub register_lem :
      (event_id : Text)
      → find_register b.events ≡ some event_id
      → generate_event_results env chance c b w ≡ create_new_device env chance c b event_id w
  unfolding generate_event_results
  register_lem event_id found = rw (generate_event_results, found)

  -- Results that are generated are either one successful result per event, in their order, for a
  -- batch in which no event registers a device, with the context as it was; or the one result for
  -- the first event that registers, with the encrypted id that the context holds from then on,
  -- which is the one that the request brought, if any, and with the context's token. The batch is
  -- kept.
  pub generate_event_results-ok :
      (results : List EventResult) (c' : Context) (b' : SdkEventBatch)
      → (generate_event_results env chance c b w).0 ≡ returned (ok (results, c', b'))
      → (IsPlain b.events
          × (results ≡ map (λ e. new_result e.id success) b.events)
          × (c' ≡ c)
          × (b' ≡ b))
        ⊎ ((event : SdkEvent) × (id : DeviceId) × IsFirstRegister b.events event
            × (results ≡ register_result event.id success c'.api_token id.ciphertext ∷ [])
            × (c'.device_id ≡ some id)
            × (or_else c.device_id (some id) ≡ some id)
            × (b' ≡ b))
  generate_event_results-ok results c' b' e = elim (find_register-cases b.events) [
    | inl (absent, plain) ↦ inl (
      plain,
      ground (arith, plain_lem absent),
      ground (arith, plain_lem absent),
      ground (arith, plain_lem absent),
    )
    | inr (event, found, first) ↦
        let (id, answer, has, kept, same) =
          create_new_device-ok env chance c b w event.id results c' b'
            (rw (← register_lem event.id found) e) in
        inr (event, id, first, answer, has, kept, same)
  ]
