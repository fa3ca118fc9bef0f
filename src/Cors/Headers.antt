-- ===== src/Cors/Headers.antt =====
-- The headers that src/cors.rs sets.
use mathlib.Core.Option.{some-injective}
use xorc_gateway.Base.{
  true, ◌≡◌, ◌↔◌, refl, ap, sym, some, none, Option, [], ◌∷◌, Text, text_eq, Text-discrete, arith,
  ◌&&◌, returned, Option-cases, Bool-cases, inl, inr, ◌∙◌,
}
use xorc_gateway.Base.Dict.{lookup}
use xorc_gateway.Cors.{
  Cors, Builder, new_builder, header, allow_origin, allow_methods, allow_headers, allowed_lists,
  set_header, valid_origin, origin_headers, response_builder_origin,
}
use xorc_gateway.Crates.{Http}
use xorc_gateway.Events.Device.{Platform, is_web}

module _ (http : Http) (cors : Cors) where
  allowed_lists-headers :
      (name value : Text) (b : Builder)
      → allowed_lists http cors (header name value new_builder) ≡ returned b
      → (m : Text) × (h : Text) × (b.headers
          ≡ (name, value) ∷ (allow_methods, m) ∷ (allow_headers, h) ∷ [])
  unfolding allowed_lists set_header
  allowed_lists-headers name value b e = elim (Option-cases (http.from_str cors.allowed_methods)) [
    | inl bad ↦ ground arith
    | inr (m, methods) ↦ elim (Option-cases (http.from_str cors.allowed_headers)) [
      | inl bad ↦ ground arith
      | inr (h, headers) ↦ (m, h, ground arith)
    ]
  ]

  lookup-none : lookup allow_origin new_builder.headers ≡ none
  unfolding lookup
  lookup-none = refl

  -- The first header of a builder.
  lookup_first :
      (v : Text) (b : Builder) (m h : Text)
      → b.headers ≡ (allow_origin, v) ∷ (allow_methods, m) ∷ (allow_headers, h) ∷ []
      → lookup allow_origin b.headers ≡ some v
  unfolding lookup text_eq Text-discrete
  lookup_first v b m h e = rw e refl

  origin_headers-lookup :
      (origin : Option Text) (b : Builder)
      → origin_headers http cors origin ≡ returned b
      → (o : Text) × (v : Text) × (origin ≡ some o)
        × (http.from_str o ≡ some v)
        × (lookup allow_origin b.headers ≡ some v)
  unfolding origin_headers set_header
  origin_headers-lookup none b e = cc
  origin_headers-lookup (some o) b e = elim (Option-cases (http.from_str o)) [
    | inl bad ↦ ground arith
    | inr (v, good) ↦
        let (m, h, all) = allowed_lists-headers allow_origin v b (ground arith) in
        (o, v, refl, good, lookup_first v b m h all)
  ]

  -- A response builder for an origin has a value as its `access-control-allow-origin` exactly if
  -- the platform is the web, the origin is valid for the application, and the value is that
  -- origin's.
  pub response_builder_origin-allow_origin_iff :
      (app_id : Text) (origin : Option Text) (platform : Platform) (b : Builder)
      → response_builder_origin http cors app_id origin platform ≡ returned b
      → (v : Text)
      → (lookup allow_origin b.headers ≡ some v) ↔ (
          (o : Text) × (origin ≡ some o)
          × (http.from_str o ≡ some v)
          × (valid_origin cors app_id origin ≡ true)
          × (is_web platform ≡ true))
  unfolding response_builder_origin
  response_builder_origin-allow_origin_iff app_id origin platform b e v =
      elim (Bool-cases (valid_origin cors app_id origin && is_web platform)) [
        | inr no_cors ↦
            let plain : new_builder ≡ b = ground arith in
            let unset : lookup allow_origin b.headers ≡ none = rw (← plain) lookup-none in
            (λ h. cc, λ (o, given, good, valid, web). ground arith)
        | inl with_cors ↦
            let made : origin_headers http cors origin ≡ returned b = ground arith in
            let (o, v', given, good, set) = origin_headers-lookup origin b made in
            (
              λ h. (o, given, ground arith, ground arith, ground arith),
              λ (o', given', good', valid, web).
                  let same : o' ≡ o = some-injective o' o (sym given' ∙ given) in
                  set ∙ (sym good ∙ (ap http.from_str (sym same) ∙ good')),
            )
      ]
