-- ===== src/Process/Opening.antt =====
-- Where the process of src/main.rs comes to serve requests.
use xorc_gateway.Base.{
  ℕ, true, false, ◌≡◌, ◌↔◌, ◌∙◌, refl, some, Option-cases, Option, List, [], ◌∷◌, ◌++◌, Text, text,
  Outcome, returned, arith, inl, inr, text_eq, Outcome-cases, map_option,
}
use xorc_gateway.Base.Dict.{lookup}
use xorc_gateway.AppRegistry.Loads.{app_of, last_with, lookup-new_registry}
use xorc_gateway.AppRegistry.Updates.{new_registry}
use xorc_gateway.Config.{Config, TestAppConfig}
use xorc_gateway.Crates.{Hex}
use xorc_gateway.Gateway.{Env}
use xorc_gateway.Process.Connections.{
  new_gateway, Driver, connect_all, split_commas, new_pool, new_kafka,
}
use xorc_gateway.Process.Registry.{start_registry, unmanaged_lem}
use xorc_gateway.Process.Start.{Surroundings, unwrap_or, listen_address, listen, opens}
use xorc_gateway.Process.Threads.{Process, Step, Run, here, step, serving, init}
use xorc_gateway.World.{World}

-- The addresses are connected to these transports.
abbrev pub Connected : (driver : Driver) → List Text → List (Driver.Transport driver) → Type 0
Connected driver [] [] = Unit
Connected driver (addr ∷ addrs) (t ∷ ts) =
    (Driver.connect driver addr ≡ some t) × Connected driver addrs ts
Connected driver _ _ = ⊥

module _ (driver : Driver) where
  connect_all-Connected :
      (addrs : List Text) (ts : List (Driver.Transport driver))
      → (connect_all driver addrs ≡ returned ts) ↔ Connected driver addrs ts
  unfolding connect_all
  connect_all-Connected [] [] = (λ e. tt, λ h. refl)
  connect_all-Connected [] (t ∷ ts) = (λ e. ground arith, λ h. absurd h)
  connect_all-Connected (addr ∷ addrs) [] = (λ e. ground arith, λ h. absurd h)
  connect_all-Connected (addr ∷ addrs) (t ∷ ts) = elim (Option-cases (Driver.connect driver addr)) [
    | inl refused ↦ (λ e. ground arith, λ (h, rest). ground arith)
    | inr (t', connects) ↦ elim (Outcome-cases (connect_all driver addrs)) [
      | inl stops ↦
          (λ e. ground arith, λ (h, rest). ground (arith, (connect_all-Connected addrs ts).1 rest))
      | inr (ts', connected) ↦ (
        λ e. (ground arith, (connect_all-Connected addrs ts).0 (ground arith)),
        λ (h, rest). ground (arith, (connect_all-Connected addrs ts).1 rest),
      )
    ]
  ]

  -- A pool is made exactly if every contact point, of those between the commas, is connected to, and
  -- the pool of its size can be built for them.
  pub new_pool-eq-returned_iff :
      (max_size : ℕ) (contact_points : Text)
      → (new_pool driver max_size contact_points ≡ returned tt) ↔ (
          (ts : List (Driver.Transport driver)) × Connected driver (split_commas contact_points) ts
          × (Driver.build driver max_size ts ≡ true))
  unfolding new_pool
  new_pool-eq-returned_iff max_size contact_points =
      elim (Outcome-cases (connect_all driver (split_commas contact_points))) [
        | inl stops ↦ (
          λ e. ground arith,
          λ (ts, connected, builds). ground (arith, (connect_all-Connected _ ts).1 connected),
        )
        | inr (ts, connects) ↦ (
          λ e. (ts, (connect_all-Connected _ ts).0 connects, ground arith),
          λ (ts', connected, builds). ground (arith, (connect_all-Connected _ ts').1 connected),
        )
      ]

module _ (s : Surroundings) where
  -- The address for the port of the environment, or else for 1337, can be used.
  pub record IsOpen (config : Config) : Type 0 where
    pub address : Text
    pub others : List Text
    pub resolved :
        s.to_socket_addrs (text "0.0.0.0:" ++ unwrap_or (s.var (text "PORT")) (text "1337"))
        ≡ some (address ∷ others)
    pub built : s.builds config.gateway.process_name_prefix config.gateway.threads ≡ true
    pub binds : s.binds address ≡ true

  listens :
      {A : Type 0} (config : Config) (gateway : A)
      → (o : IsOpen config) → listen s config (returned gateway) ≡ returned (o.address, gateway)
  unfolding listen listen_address
  listens config gateway o = rw (listen, listen_address, o.resolved, o.built, o.binds) refl

  opens_lem :
      {A : Type 0} (config : Config) (made : Outcome A) (gateway : A)
      → made ≡ returned gateway
      → IsOpen config
      → opens s config made ≡ true
  unfolding opens
  opens_lem config made gateway is_made o = rw (is_made, opens, listens config gateway o) refl

new_gateway_made :
    {P : Type 0} (create : List (Text × Text) → Option P) (config : Config) (producer : P)
    → new_kafka create config ≡ returned producer
    → new_gateway create config ≡ returned (record { kafka = producer })
unfolding new_gateway
new_gateway_made create config producer made = rw (new_gateway, made) refl

module _ (s : Surroundings) (env : Env) (hex : Hex) (driver : Driver) where
  -- Without `manage_apps`, and with a port, a runtime and a producer of the message bus to be had,
  -- the process starts from whatever state, its registry holds for every id the application of the
  -- last entry of `[[test_apps]]` with that id and no other, and after one step of the thread of the
  -- server it accepts requests.
  pub serves :
      {P : Type 0} (create : List (Text × Text) → Option P) (producer : P) (ts : List TestAppConfig)
      (before : World env.cluster)
      → env.config.cassandra.manage_apps ≡ false
      → env.config.test_apps ≡ some ts
      → new_kafka create env.config ≡ returned producer
      → IsOpen s env.config
      → (start : World env.cluster) × (start_registry env.cluster driver hex env.uuids env.config
            before
          ≡ returned start)
        × ((k : Text)
            → lookup k start.registry.apps
              ≡ map_option (app_of hex) (last_with (λ t. t.app_id) k ts))
        × ((p : Process env) × Run env hex
              (opens s env.config (new_gateway create env.config))
              (init env hex (opens s env.config (new_gateway create env.config)) start)
              1
              p
            × (p.server ≡ serving)
            × (p.world ≡ start))
  serves create producer ts before unmanaged given made o =
      let (r, loaded, apps, allows, counted) =
        lookup-new_registry hex env.config ts before.metrics given in
      (
        record before { registry = r; metrics = (new_registry hex env.config before.metrics).1 },
        unmanaged_lem env.cluster driver hex env.uuids env.config before unmanaged
            ∙ rw (loaded) refl,
        apps,
        (
          _,
          step here (
              Step.bound refl refl (
                opens_lem s env.config (new_gateway create env.config) (record { kafka = producer })
                  (new_gateway_made create env.config producer made) o)),
          refl,
          refl,
        ),
      )
