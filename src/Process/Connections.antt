-- ===== src/Process/Connections.antt =====
-- The connections that are built at the start: the pools of src/ifa_matching.rs and of
-- src/app_registry.rs, and the producer of src/bus/kafka.rs.
use xorc_gateway.Base.{
  ℕ, Bool, ◌≡◌, ◌≢◌, refl, Option, List, [], ◌∷◌, ◌++◌, All, Text, text, ◌==◌, ℕ_eq, ℕ_discrete,
  if◌then◌else◌, Outcome, returned, panicked, and_then, unwrap, arith,
}
use xorc_gateway.Config.{Config}

-- `cdrs` and `r2d2`: `TransportTcp::new`, and whether a pool of a size can be built for a cluster.
pub record Driver : Type 1 where
  pub Transport : Type 0
  pub connect : Text → Option Transport
  pub build : ℕ → List Transport → Bool

-- The character `,`.
abbrev pub comma : ℕ
comma = 44

-- The first part of a text is continued with a byte.
abbrev pub extend : ℕ → List Text → List Text
extend b [] = (b ∷ []) ∷ []
extend b (part ∷ parts) = (b ∷ part) ∷ parts

-- `split(',')`
unfoldable pub split_commas : Text → List Text
split_commas [] = [] ∷ []
split_commas (b ∷ bytes) =
    let parts = split_commas bytes in if b == comma then [] ∷ parts else extend b parts

module _ (driver : Driver) where
  -- `map(|addr| TransportTcp::new(addr).unwrap()).collect()`
  unfoldable pub connect_all : List Text → Outcome (List (Driver.Transport driver))
  connect_all [] = returned []
  connect_all (addr ∷ addrs) =
      and_then (unwrap (Driver.connect driver addr))
        λ transport. and_then (connect_all addrs) λ transports. returned (transport ∷ transports)

  -- A pool of at most `max_size` connections to the contact points.
  unfoldable pub new_pool : ℕ → Text → Outcome (Unit {0})
  unfolding connect_all split_commas
  new_pool max_size contact_points =
      and_then (connect_all (split_commas contact_points))
        λ cluster. if Driver.build driver max_size cluster then returned tt else panicked

  -- `IfaMatching::new`
  unfoldable pub new_ifa_matching : Config → Outcome (Unit {0})
  unfolding new_pool
  new_ifa_matching config = new_pool 15 config.cassandra.contact_points

-- `Kafka::new`, for what `create` makes of the settings.
unfoldable pub new_kafka {ℓ} : {P : Type ℓ} → (List (Text × Text) → Option P) → Config → Outcome P
new_kafka create config = unwrap (
    create (
      (text "bootstrap.servers", config.kafka.brokers)
      ∷ (text "produce.offset.report", text "true")
      ∷ (text "request.required.acks", text "0")
      ∷ []))

-- `BusConnections`, which is all that a `Gateway` holds.
pub record BusConnections {ℓ} (P : Type ℓ) : Type ℓ where
  pub kafka : P

-- `Gateway::new`
unfoldable pub new_gateway {ℓ} :
    {P : Type ℓ} → (List (Text × Text) → Option P) → Config → Outcome (BusConnections P)
unfolding new_kafka
new_gateway create config =
    and_then (new_kafka create config) λ kafka. returned (record { kafka = kafka })

-- The parts with commas between them.
unfoldable pub join_commas : List Text → Text
join_commas [] = []
join_commas (part ∷ []) = part
join_commas (part ∷ q ∷ parts) = part ++ comma ∷ join_commas (q ∷ parts)

abbrev IsFree : Text → Type 0
IsFree = All (λ b. b ≢ comma)

join_commas-extend :
    (b : ℕ) (parts : List Text) → join_commas (extend b parts) ≡ b ∷ join_commas parts
unfolding join_commas
join_commas-extend b [] = refl
join_commas-extend b (part ∷ []) = refl
join_commas-extend b (part ∷ q ∷ parts) = refl

extend-All :
    (b : ℕ) (parts : List Text) → b ≢ comma → All IsFree parts → All IsFree (extend b parts)
extend-All b [] ne h = ((ne, tt), tt)
extend-All b (part ∷ parts) ne (free, h) = ((ne, free), h)

join_commas-nil :
    (parts : List Text) → parts ≢ [] → join_commas ([] ∷ parts) ≡ comma ∷ join_commas parts
unfolding join_commas
join_commas-nil [] ne = absurd (ne refl)
join_commas-nil (part ∷ parts) ne = refl

extend-ne : (b : ℕ) (parts : List Text) → extend b parts ≢ []
extend-ne b [] e = cc
extend-ne b (part ∷ parts) e = cc

split_commas-ne : (s : Text) → split_commas s ≢ []
unfolding split_commas
split_commas-ne [] e = cc
split_commas-ne (b ∷ s) e = ground (arith, extend-ne b (split_commas s))

-- The contact points are the parts of their text between the commas: none of them holds a comma,
-- and with commas between them they are the text again.
pub join_commas-split_commas :
    (s : Text) → (join_commas (split_commas s) ≡ s) × All IsFree (split_commas s)
unfolding split_commas join_commas
join_commas-split_commas [] = (refl, (tt, tt))
join_commas-split_commas (b ∷ s) =
    let (joined, free) = join_commas-split_commas s in
    elim (ℕ_discrete b comma) [
      | yes same ↦
          (ground (arith, join_commas-nil (split_commas s) (split_commas-ne s)), ground arith)
      | no differ ↦ (
        ground (arith, join_commas-extend b (split_commas s)),
        ground (arith, extend-All b (split_commas s) differ free),
      )
    ]
