-- ===== src/Cors/Origins.antt =====
-- The origins that src/cors.rs lets through, against the configuration.
use mathlib.Core.List.{Mem, mem-cons, mem-cons_self, not-mem-nil, mem-cons_of_mem}
use mathlib.Core.Logic.Or
use mathlib.Core.Bool.{Bool-set}
use xorc_gateway.Base.{
  true, ◌≡◌, ◌↔◌, refl, ap, some, none, Option, List, [], ◌∷◌, Text, arith, text_eq, ◌==◌,
  if◌then◌else◌, or_else, or_else-none, Option-cases, inl, inr, ◌∙◌, Text-discrete,
}
use xorc_gateway.Base.Dict.{Dict, lookup, insert, lookup-insert}
use xorc_gateway.Config.{Config, OriginConfig}
use xorc_gateway.Cors.{Cors, collect_origins, new_cors, contains, valid_origin}

-- The origins of the last entry for an application.
pub last_allowed : Text → List OriginConfig → Option (List Text)
last_allowed app_id [] = none
last_allowed app_id (o ∷ os) =
    or_else (last_allowed app_id os) (if app_id == o.app_id then some o.allowed else none)

lookup-collect_origins :
    (app_id : Text) (os : List OriginConfig) (acc : Dict Text (List Text))
    → lookup app_id (collect_origins os acc) ≡ or_else (last_allowed app_id os) (lookup app_id acc)
unfolding collect_origins last_allowed
lookup-collect_origins app_id [] acc = refl
lookup-collect_origins app_id (o ∷ os) acc =
    lookup-collect_origins app_id os (insert o.app_id o.allowed acc)
    ∙ ground (arith, lookup-insert app_id o.app_id o.allowed acc)

contains_iff : (ts : List Text) (s : Text) → (contains ts s ≡ true) ↔ Mem s ts
unfolding contains
contains_iff [] s = (λ e. cc, λ m. absurd (not-mem-nil m))
contains_iff (t ∷ ts) s = (
  λ e. elim (Text-discrete s t) [
    | yes same ↦ rw same mem-cons_self
    | no differ ↦ mem-cons_of_mem t ((contains_iff ts s).0 (ground arith))
  ],
  λ m.
      Or.elim (Bool-set _ _) (mem-cons.0 m) (λ same. rw same (ground arith))
        (λ later. rw ((contains_iff ts s).1 later) (ground arith)),
)

allowed_origins-new_cors :
    (config : Config) (cors : Cors) (os : List OriginConfig)
    → new_cors config ≡ some cors
    → config.origins ≡ some os
    → cors.allowed_origins ≡ collect_origins os []
unfolding new_cors
allowed_origins-new_cors config cors os made given = ground arith

-- Under a configuration with `[cors]`, an application's origin is valid exactly if it is one of those
-- that the last entry of `[[origins]]` for the application allows.
pub valid_origin-new_cors_iff :
    (config : Config) (cors : Cors) (os : List OriginConfig) (app_id origin : Text)
    → new_cors config ≡ some cors
    → config.origins ≡ some os
    → (valid_origin cors app_id (some origin) ≡ true)
      ↔ ((allowed : List Text) × (last_allowed app_id os ≡ some allowed) × Mem origin allowed)
unfolding valid_origin
valid_origin-new_cors_iff config cors os app_id origin made given =
    let found : lookup app_id cors.allowed_origins ≡ last_allowed app_id os =
      ap (lookup app_id) (allowed_origins-new_cors config cors os made given)
      ∙ lookup-collect_origins app_id os []
      ∙ unfold lookup in or_else-none (last_allowed app_id os) in
    elim (Option-cases (last_allowed app_id os)) [
      | inl missing ↦ (λ e. ground arith, λ (allowed, e, m). cc)
      | inr (allowed, listed) ↦ (
        λ e. (allowed, listed, (contains_iff allowed origin).0 (ground arith)),
        λ (allowed', listed', m). ground (arith, (contains_iff allowed' origin).1 m),
      )
    ]
