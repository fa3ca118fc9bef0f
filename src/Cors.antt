-- ===== src/Cors.antt =====
-- src/cors.rs: the origins that an application allows, and the headers that say so.
pub mod Origins
pub mod Headers
use xorc_gateway.Base.{
  ℕ, Bool, false, Option, none, some, List, [], ◌∷◌, ◌++◌, Text, text, ◌==◌, text_eq, if◌then◌else◌,
  ◌&&◌, ◌||◌, Outcome, returned, panicked, and_then, map_option,
}
use xorc_gateway.Base.Dict.{Dict, lookup, insert}
use xorc_gateway.Config.{Config, CorsConfig, OriginConfig}
use xorc_gateway.Crates.{Http}
use xorc_gateway.Events.Device.{Platform, is_web}

-- `http::Response` and its `Builder`, which starts at status 200.
pub record Builder : Type 0 where
  pub status : ℕ
  pub headers : Dict Text Text

pub record Response : Type 0 where
  pub status : ℕ
  pub headers : Dict Text Text
  pub body : Text

abbrev pub new_builder : Builder
new_builder = record { status = 200; headers = [] }

abbrev pub header : Text → Text → Builder → Builder
header name value b = record b { headers = b.headers ++ (name, value) ∷ [] }

abbrev pub finish : Builder → ℕ → Text → Response
finish b status body = record { status = status; headers = b.headers; body = body }

-- `Cors`; a set of texts is a list of them, in which only membership counts.
pub record Cors : Type 0 where
  pub allowed_methods : Text
  pub allowed_headers : Text
  pub allowed_origins : Dict Text (List Text)

-- The `fold` over the configured origins.
collect_origins : List OriginConfig → Dict Text (List Text) → Dict Text (List Text)
unfolding insert
collect_origins [] acc = acc
collect_origins (origin ∷ origins) acc =
    collect_origins origins (insert origin.app_id origin.allowed acc)

origins_of : Option (List OriginConfig) → Dict Text (List Text)
unfolding collect_origins
origins_of none = []
origins_of (some origins) = collect_origins origins []

-- `Cors::new`
unfoldable pub new_cors : Config → Option Cors
unfolding origins_of
new_cors config =
    map_option
      (λ (c : CorsConfig).
        let cors : Cors = record {
          allowed_methods = c.allowed_methods;
          allowed_headers = c.allowed_headers;
          allowed_origins = origins_of config.origins;
        } in
        cors)
      config.cors

-- `HashSet::contains`
unfoldable pub contains : List Text → Text → Bool
contains [] s = false
contains (t ∷ ts) s = s == t || contains ts s

-- `Cors::valid_origin`
unfoldable pub valid_origin : Cors → Text → Option Text → Bool
unfolding contains lookup
valid_origin cors app_id none = false
valid_origin cors app_id (some origin) = elim (lookup app_id cors.allowed_origins) [
  | none ↦ false
  | some app_origins ↦ contains app_origins origin
]

-- `HeaderValue::from_str(value).unwrap()`, set under the name.
unfoldable pub set_header : Http → Text → Text → Builder → Outcome Builder
set_header http name value b = elim (http.from_str value) [
  | none ↦ panicked
  | some v ↦ returned (header name v b)
]

abbrev pub allow_origin : Text
allow_origin = text "access-control-allow-origin"

abbrev pub allow_methods : Text
allow_methods = text "access-control-allow-methods"

abbrev pub allow_headers : Text
allow_headers = text "access-control-allow-headers"

module _ (http : Http) (cors : Cors) where
  unfoldable pub allowed_lists : Builder → Outcome Builder
  unfolding set_header
  allowed_lists b =
      and_then (set_header http allow_methods cors.allowed_methods b)
        (set_header http allow_headers cors.allowed_headers)

  -- `origin.unwrap()` and the headers for that origin.
  unfoldable pub origin_headers : Option Text → Outcome Builder
  unfolding set_header allowed_lists
  origin_headers none = panicked
  origin_headers (some origin) =
      and_then (set_header http allow_origin origin new_builder) allowed_lists

  -- `Cors::response_builder_origin`
  unfoldable pub response_builder_origin : Text → Option Text → Platform → Outcome Builder
  unfolding valid_origin origin_headers
  response_builder_origin app_id origin platform =
      if valid_origin cors app_id origin && is_web platform
      then origin_headers origin
      else returned new_builder

  -- `Cors::response_builder_wildcard`
  unfoldable pub response_builder_wildcard : Outcome Builder
  unfolding allowed_lists
  response_builder_wildcard = allowed_lists (header allow_origin (text "*") new_builder)
