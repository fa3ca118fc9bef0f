-- ===== src/Tests/Process.antt =====
-- How src/main.rs starts: what it finds around it, its registry, and the requests it answers then.
use xorc_gateway.Base.{
  List, Option, map_option, ◌≡◌, ◌≢◌, ◌↔◌, refl, ◌∷◌, [], All, Text, text, returned, some, none,
  true, false, text_eq, Text-discrete, ℕ_eq, ℕ_discrete, ◌==◌, if◌then◌else◌,
}
use xorc_gateway.Base.Dict.{lookup, insert}
use xorc_gateway.AppRegistry.{
  validate, platform_key, create_app, load_test_apps, secret_key, create_key,
}
use xorc_gateway.AppRegistry.Loads.{app_of, last_with}
use xorc_gateway.AppRegistry.Updates.{new_registry}
use xorc_gateway.Bus.{publish}
use xorc_gateway.Config.{parse, TestAppConfig}
use xorc_gateway.Context.{Context, new_context, get_value, read_device_id}
use xorc_gateway.Crates.{HeaderMap}
use xorc_gateway.Crates.Samples.{plain_hex}
use xorc_gateway.Events.Batch.{events_into, into_proto}
use xorc_gateway.Events.Device.{platform, platform_of}
use xorc_gateway.Events.Event.{event_into, properties, flatten_properties, is_register}
use xorc_gateway.Gateway.{generate_event_results, find_register}
use xorc_gateway.Gateway.Handlers.{
  handle_body, handle_event, handle_in_context, process, send_batch, origin_refused,
}
use xorc_gateway.Metrics.{no_metrics}
use xorc_gateway.Process.Connections.{
  new_kafka, new_gateway, new_pool, Driver, comma, split_commas, join_commas,
  join_commas-split_commas,
}
use xorc_gateway.Process.Production.{IsAuthentic, Run-IsAuthentic}
use xorc_gateway.Process.Opening.{serves, IsOpen, new_pool-eq-returned_iff, Connected}
use xorc_gateway.Process.Registry.{start_registry}
use xorc_gateway.Process.Start.{Surroundings, rust_env, load_config, opens}
use xorc_gateway.Process.Threads.{Process, Step, Run, here, step, init, serving}
use xorc_gateway.Results.{ok}
use xorc_gateway.Samples.Requests.{env, chance, world, config, app_id, application, context_for}
use xorc_gateway.World.{World}

abbrev contact_points : Text
contact_points = text "a:9042,b:9042"

join_commas-split_commas_example :
    (join_commas (split_commas contact_points) ≡ contact_points)
    × All (All (λ b. b ≢ comma)) (split_commas contact_points)
join_commas-split_commas_example = join_commas-split_commas contact_points

splits : split_commas contact_points ≡ text "a:9042" ∷ text "b:9042" ∷ []
unfolding split_commas ℕ_eq ℕ_discrete
splits = refl

-- A driver to which every address is a transport, and any pool can be built.
abbrev driver : Driver
driver = record { Transport = Text; connect = λ addr. some addr; build = λ size cluster. true }

abbrev surroundings : Surroundings
surroundings = record {
  var = λ name. if name == text "RUST_ENV" then some (text "production") else none;
  read_file = λ path. some (text "toml");
  from_toml = λ s. some config;
  open_reader = λ path. none;
  to_socket_addrs = λ address. some (address ∷ []);
  builds = λ name threads. true;
  binds = λ address. true;
}

production : rust_env surroundings ≢ text "development"
unfolding rust_env text_eq Text-discrete
production e = cc

loads : load_config surroundings ≡ returned config
unfolding load_config parse rust_env text_eq Text-discrete
loads = refl

-- What the configuration makes of its application.
abbrev start : World env.cluster
start = record world {
  registry = record {
    allow_empty_signature = false;
    apps = (app_id, record application { ios_secret = some (record { bytes = text "01" }) }) ∷ [];
    has_pool = false;
  };
  metrics = record no_metrics { app_updates = 1 };
}

starts : start_registry env.cluster driver plain_hex env.uuids config world ≡ returned start
unfolding start_registry new_registry load_test_apps create_app secret_key create_key insert text_eq
    Text-discrete
starts = refl

abbrev test_apps : List TestAppConfig
test_apps = elim config.test_apps [ none ↦ [] | some apps ↦ apps ]

-- A producer that is made of whatever settings.
abbrev create : List (Text × Text) → Option (Unit {0})
create settings = some tt

abbrev at_hand : IsOpen surroundings config
unfolding text_eq Text-discrete
at_hand = record {
  address = text "0.0.0.0:1337";
  others = [];
  resolved = refl;
  built = refl;
  binds = refl;
}

serves_example :
    (first : World env.cluster) × (start_registry env.cluster driver plain_hex env.uuids config
        world
      ≡ returned first)
    × ((k : Text)
        → lookup k first.registry.apps
          ≡ map_option (app_of plain_hex) (last_with (λ t. t.app_id) k test_apps))
    × ((p : Process env) × Run env plain_hex
          (opens surroundings config (new_gateway create config))
          (init env plain_hex (opens surroundings config (new_gateway create config)) first)
          1
          p
        × (p.server ≡ serving)
        × (p.world ≡ first))
unfolding new_kafka
serves_example =
    serves surroundings env plain_hex driver create tt test_apps world refl refl refl at_hand

abbrev signed : HeaderMap
signed = record {
  get = λ name. if name == text "XORC-Signature" then some (text "01plain") else none;
}

abbrev signed_context : Context
signed_context = record (context_for (text "plain")) { signature = some (text "01plain") }

handles :
    (handle_body env chance (some (text "plain")) signed start).0
    ≡ returned (ok (text "json", signed_context))
unfolding handle_body handle_event handle_in_context process send_batch origin_refused text_eq
    Text-discrete ℕ_eq ℕ_discrete lookup validate platform_key publish new_context get_value
    read_device_id events_into into_proto platform platform_of event_into properties
    flatten_properties is_register generate_event_results find_register
handles = refl

-- The updater has begun to reload.
abbrev updating : (p : Process env) × Run env plain_hex true (init env plain_hex true start) 2 p
updating = (_, step (step here (Step.enter refl refl refl)) (Step.bound refl refl refl))

Run-IsAuthentic_example : IsAuthentic env start signed (text "plain")
Run-IsAuthentic_example =
    Run-IsAuthentic surroundings driver env plain_hex true production loads world start starts 2
      updating.0 updating.1 chance signed (text "plain") (text "json") signed_context handles

-- A pool for two contact points.
pooled :
    (new_pool driver 15 contact_points ≡ returned tt)
    ↔ ((ts : List Text) × Connected driver (split_commas contact_points) ts × (true ≡ true))
pooled = new_pool-eq-returned_iff driver 15 contact_points
