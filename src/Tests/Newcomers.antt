-- ===== src/Tests/Newcomers.antt =====
-- A request that registers a device, src/gateway.rs.
use xorc_gateway.Base.{
  ◌≡◌, ◌++◌, refl, ◌∷◌, [], or_else, Text, text, returned, some, none, text_eq, Text-discrete,
}
use xorc_gateway.Bus.{stored}
use xorc_gateway.Base.Dict.{lookup}
use xorc_gateway.AppRegistry.{validate, platform_key, token_for}
use xorc_gateway.Context.{DeviceId, new_context, get_value, read_device_id}
use xorc_gateway.Cors.{new_builder, response_builder_origin, valid_origin}
use xorc_gateway.Events.Device.{platform, platform_of}
use xorc_gateway.Events.Event.{is_register}
use xorc_gateway.Events.Event.Numbers.{HasNumbers, AllNumbers}
use xorc_gateway.Events.Response.{success, register_result, response_from, response_json}
use xorc_gateway.Gateway.Acceptance.{IsServable}
use xorc_gateway.Gateway.Answers.{IsFirstRegister}
use xorc_gateway.Gateway.Handlers.{handle_sdk, origin_refused, sdk_builder}
use xorc_gateway.Gateway.Newcomers.{handle_sdk_registered}
use xorc_gateway.Gateway.Rejections.{IsRead}
use xorc_gateway.Gateway.Requests.{verdict}
use xorc_gateway.Results.{ok}
use xorc_gateway.Samples.Laws.{lawful, random}
use xorc_gateway.Samples.Requests.{
  env, chance, world, request_for, context_for, registering_batch, registering, opened, app_id,
}
use xorc_gateway.Samples.Sorting.{insertion_sorter-IsSorter}

abbrev register : Text
register = text "register"

reads : IsRead env (request_for register) world register registering_batch (context_for register)
unfolding new_context get_value read_device_id platform platform_of text_eq Text-discrete
reads = record { given = refl; parsed = refl; read = refl }

valid : verdict env world register registering_batch (context_for register) ≡ ok tt
unfolding validate lookup platform_key platform platform_of text_eq Text-discrete
valid = refl

servable :
    IsServable env
      (request_for register)
      world
      register
      registering_batch
      (context_for register)
      new_builder
unfolding origin_refused sdk_builder response_builder_origin valid_origin HasNumbers AllNumbers
    text_eq Text-discrete
servable = record {
  read = reads;
  allowed = refl;
  validated = valid;
  numbers = (((tt, tt), tt), (((tt, tt), tt), tt));
  reports = λ m. (stored, refl);
  headers = refl;
}

first : IsFirstRegister registering_batch.events registering
unfolding is_register text_eq Text-discrete
first = record {
  before = opened ∷ [];
  after = [];
  split = refl;
  plain = (refl, tt);
  registers = refl;
}

handle_sdk_registered_example :
    (id : DeviceId) × (or_else none (some id) ≡ some id)
    × ((handle_sdk env chance (request_for register) world).0
        ≡ returned (record {
          status = 200;
          headers = [] ++ (text "content-type", text "application/json") ∷ [];
          body = env.to_string (
              response_json (
                response_from (
                  register_result
                    (text "1")
                    success
                    (or_else none (token_for world.registry app_id))
                    id.ciphertext
                  ∷ [])));
        }))
handle_sdk_registered_example =
    handle_sdk_registered env lawful chance random refl (context_for register) registering_batch
      world (request_for register) register new_builder registering insertion_sorter-IsSorter
      servable first
