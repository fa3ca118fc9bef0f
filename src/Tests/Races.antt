-- ===== src/Tests/Races.antt =====
-- Registrations of src/gateway.rs at the same time, and the log of src/context.rs, on small inputs.
use xorc_gateway.Base.{
  ℕ, ◌≡◌, ◌≢◌, ◌^◌, ◌%◌, ◌+◌, length, ltb, replicate, refl, ◌∷◌, ◌++◌, [], some, none, text,
  returned, true, text_eq, Text-discrete, ℕ_eq, ℕ_discrete, arith,
}
use xorc_gateway.Context.{Context, DeviceId, encrypt_id, generate}
use xorc_gateway.Context.Logging.{
  Serializer, Writes, pairs, serialize, emit_str, emit_some, serialize-Writes,
}
use xorc_gateway.Crates.Samples.{plain_uuids}
use xorc_gateway.Encryption.{encrypt}
use xorc_gateway.Events.Device.{platform_text}
use xorc_gateway.Gateway.{match_device, id_for}
use xorc_gateway.Gateway.Devices.{IsChance}
use xorc_gateway.Gateway.Races.{Job, holding, Calls, look, looks, init, Reach, here, later}
use xorc_gateway.Gateway.Races.Ids.{IsSound, GoesOn, Reach-GoesOn}
use xorc_gateway.Gateway.Races.Schedules.{Reach-match_device, Reach-differ}
use xorc_gateway.IfaMatching.{
  parse_ifa, get_id_for_ifa, put_id_for_ifa, run_query, read_answer, written,
}
use xorc_gateway.Results.{err}
use xorc_gateway.Samples.Laws.{lawful, random}
use xorc_gateway.Samples.Requests.{env, chance, world, context_for, registering_batch, app_id, ifa}

-- Calls that draw the UUIDs 5, 6, 7 and so on.
abbrev job : ℕ → Job
job i = record {
  chance = record chance { new_v4 = (5 + i) % 2 ^ 128 };
  context = context_for (text "register");
  batch = registering_batch;
}

all_random : (i : ℕ) → IsChance (job i).chance
all_random i = record { twelve = random.twelve; bytes = random.bytes; uuid = omega arith }

-- The first call has looked its device up.
abbrev one_looked : (s : Calls env) × Reach env job (init env job world) s
one_looked = (_, later here (looks 0 refl))

Reach-GoesOn_example :
    IsSound env (one_looked.0.phase 0) × GoesOn env job one_looked.0 0 (one_looked.0.phase 0)
Reach-GoesOn_example = Reach-GoesOn env lawful job all_random world one_looked.0 0 one_looked.1

abbrev new_id : DeviceId
new_id = record {
  ciphertext = record { value = replicate 12 9 ++ (5 ∷ replicate 51 0) };
  cleartext = record { value = 5 ∷ replicate 35 0 };
}

matches : (match_device env (job 0).chance (job 0).context (job 0).batch world).0 ≡ returned new_id
unfolding text_eq Text-discrete ℕ_eq ℕ_discrete encrypt_id generate encrypt match_device id_for
    parse_ifa get_id_for_ifa put_id_for_ifa run_query read_answer written
matches = refl

Reach-match_device_sample :
    (s : Calls env) × Reach env job (init env job world) s
    × (s.phase 0 ≡ holding new_id)
    × (s.world ≡ (match_device env (job 0).chance (job 0).context (job 0).batch world).1)
Reach-match_device_sample = Reach-match_device env job world 0 new_id matches

abbrev app_uuid : ℕ
app_uuid = elim (plain_uuids.parse_str app_id) [ none ↦ 0 | some a ↦ a ]

abbrev ifa_uuid : ℕ
ifa_uuid = elim (plain_uuids.parse_str ifa) [ none ↦ 0 | some i ↦ i ]

app_read : plain_uuids.parse_str app_id ≡ some app_uuid
unfolding ℕ_discrete
app_read = refl

ifa_read : parse_ifa plain_uuids (some ifa) true ≡ some ifa_uuid
unfolding parse_ifa ℕ_discrete ℕ_eq
ifa_read = refl

first_unknown : (look env job 0 world).0 ≡ none
unfolding look parse_ifa get_id_for_ifa run_query read_answer ℕ_discrete ℕ_eq
first_unknown = refl

second_unknown : (look env job 1 (look env job 0 world).1).0 ≡ none
unfolding look parse_ifa get_id_for_ifa run_query read_answer ℕ_discrete ℕ_eq
second_unknown = refl

draw_differ : (job 0).chance.new_v4 ≢ (job 1).chance.new_v4
draw_differ e = omega arith

Reach-differ_example :
    (s : Calls env) × (id id' : DeviceId) × Reach env job (init env job world) s
    × (s.phase 0 ≡ holding id)
    × (s.phase 1 ≡ holding id')
    × (id.cleartext ≢ id'.cleartext)
    × ((look env job 1 s.world).0 ≡ some id'.cleartext.value)
Reach-differ_example =
    Reach-differ env lawful job all_random world first_unknown second_unknown draw_differ app_uuid
      ifa_uuid app_read ifa_read

-- A serializer that takes two pairs.
abbrev short_log : Serializer
short_log = record { emits = λ log pair. ltb (length log) 2 }

abbrev with_token : Context
with_token = record (context_for (text "plain")) { api_token = some (text "token") }

serialize-Writes_sample : Writes [] (pairs with_token) (serialize short_log with_token)
serialize-Writes_sample = serialize-Writes short_log with_token

stops_early :
    serialize short_log with_token
    ≡ err ((text "app_id", app_id) ∷ (text "platform", text "ios") ∷ [])
unfolding serialize emit_str emit_some platform_text
stops_early = refl
