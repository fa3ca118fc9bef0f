-- ===== src/Context/Logging.antt =====
-- What src/context.rs writes of a request to the log.
use mathlib.Core.List.{append_assoc, append-nil}
use mathlib.Core.Path.{subst}
use xorc_gateway.Base.{
  Bool, ◌≡◌, ◌≢◌, ◌∙◌, refl, ap, sym, Option, none, some, List, [], ◌∷◌, ◌++◌, Text, text,
  if◌then◌else◌, Bool-cases, inl, inr,
}
use xorc_gateway.Context.{Context, DeviceId}
use xorc_gateway.Events.Device.{platform_text}
use xorc_gateway.Results.{Result, ok, err, ◌>>=◌}

abbrev pub Pair : Type 0
Pair = Text × Text

-- `slog::Serializer`: whether `emit_str` succeeds after what was written so far.
pub record Serializer : Type 0 where
  pub emits : List Pair → Pair → Bool

module _ (serializer : Serializer) where
  -- `emit_str`; both results hold what is written then.
  unfoldable pub emit_str : Text → Text → List Pair → Result (List Pair) (List Pair)
  emit_str key value log =
      if serializer.emits log (key, value) then ok (log ++ (key, value) ∷ []) else err log

  unfoldable pub emit_some : Text → Option Text → List Pair → Result (List Pair) (List Pair)
  unfolding emit_str
  emit_some key none log = ok log
  emit_some key (some value) log = emit_str key value log

  unfoldable pub emit_device : Option DeviceId → List Pair → Result (List Pair) (List Pair)
  unfolding emit_str
  emit_device none log = ok log
  emit_device (some id) log = do
    log' ← emit_str (text "device_id") id.cleartext.value log
    emit_str (text "encrypted_device_id") id.ciphertext.value log'

  -- `serialize` of `KV for Context`
  unfoldable pub serialize : Context → Result (List Pair) (List Pair)
  unfolding emit_str emit_some emit_device platform_text
  serialize c = do
    log1 ← emit_str (text "app_id") c.app_id []
    log2 ← emit_str (text "platform") (platform_text c.platform) log1
    log3 ← emit_some (text "api_token") c.api_token log2
    log4 ← emit_device c.device_id log3
    log5 ← emit_some (text "signature") c.signature log4
    emit_some (text "origin") c.origin log5

abbrev pub pair_of : Text → Option Text → List Pair
pair_of key none = []
pair_of key (some value) = (key, value) ∷ []

abbrev pub device_pairs : Option DeviceId → List Pair
device_pairs none = []
device_pairs (some id) =
    (text "device_id", id.cleartext.value) ∷ (text "encrypted_device_id", id.ciphertext.value) ∷ []

-- What there is to write of a context.
abbrev pub pairs : Context → List Pair
pairs c =
    (text "app_id", c.app_id)
    ∷ (text "platform", platform_text c.platform)
    ∷ (pair_of (text "api_token") c.api_token
        ++ (device_pairs c.device_id
            ++ (pair_of (text "signature") c.signature ++ pair_of (text "origin") c.origin)))

-- `more` is written after `log`: as a whole where there is no error, and up to the pair that fails
-- where there is one.
abbrev pub Writes : List Pair → List Pair → Result (List Pair) (List Pair) → Type 0
Writes log more (ok out) = out ≡ log ++ more
Writes log more (err out) =
    (done rest : List Pair) × (out ≡ log ++ done) × (more ≡ done ++ rest) × (rest ≢ [])

Writes-nil : (log : List Pair) → Writes log [] (ok log)
Writes-nil log = sym (append-nil log)

Writes-shift :
    (log xs ys : List Pair) (r : Result (List Pair) (List Pair))
    → Writes (log ++ xs) ys r
    → Writes log (xs ++ ys) r
Writes-shift log xs ys (ok out) h = h ∙ append_assoc log xs ys
Writes-shift log xs ys (err out) (done, rest, out', ys', more) = (
  xs ++ done,
  rest,
  out' ∙ append_assoc log xs done,
  ap (λ l. xs ++ l) ys' ∙ sym (append_assoc xs done rest),
  more,
)

append-ne : (xs ys : List Pair) → xs ≢ [] → xs ++ ys ≢ []
append-ne [] ys ne e = absurd (ne refl)
append-ne (x ∷ xs) ys ne e = cc

Writes-append :
    (log xs ys : List Pair) (r : Result (List Pair) (List Pair))
    (f : List Pair → Result (List Pair) (List Pair))
    → Writes log xs r
    → ((log' : List Pair) → Writes log' ys (f log'))
    → Writes log (xs ++ ys) (r >>= f)
Writes-append log xs ys (ok log') f first each =
    Writes-shift log xs ys (f log') (subst (λ l. Writes l ys (f log')) first (each log'))
Writes-append log xs ys (err out) f (done, rest, out', xs', more) each = (
  done,
  rest ++ ys,
  out',
  ap (λ l. l ++ ys) xs' ∙ append_assoc done rest ys,
  append-ne rest ys more,
)

module _ (serializer : Serializer) where
  emit_str-Writes :
      (key value : Text) (log : List Pair)
      → Writes log ((key, value) ∷ []) (emit_str serializer key value log)
  unfolding emit_str
  emit_str-Writes key value log = elim (Bool-cases (serializer.emits log (key, value))) [
    | inl fine ↦ rw (emit_str, fine) refl
    | inr fails ↦ rw (emit_str, fails) ([], (key, value) ∷ [], sym (append-nil log), refl, λ e. cc)
  ]

  emit_some-Writes :
      (key : Text) (value : Option Text) (log : List Pair)
      → Writes log (pair_of key value) (emit_some serializer key value log)
  unfolding emit_some
  emit_some-Writes key none log = Writes-nil log
  emit_some-Writes key (some value) log = emit_str-Writes key value log

  emit_device-Writes :
      (id : Option DeviceId) (log : List Pair)
      → Writes log (device_pairs id) (emit_device serializer id log)
  unfolding emit_device
  emit_device-Writes none log = Writes-nil log
  emit_device-Writes (some id) log =
      Writes-append log ((text "device_id", id.cleartext.value) ∷ [])
        ((text "encrypted_device_id", id.ciphertext.value) ∷ []) _ _
        (emit_str-Writes (text "device_id") id.cleartext.value log)
        (emit_str-Writes (text "encrypted_device_id") id.ciphertext.value)

  -- The log of a request gets, in this order: the application and the platform, and where there are
  -- any, the token, the id of the device in the clear and encrypted, the signature, and the origin;
  -- the address is not written. Where the serializer fails, what was written before is kept, and it
  -- is only a part.
  pub serialize-Writes : (c : Context) → Writes [] (pairs c) (serialize serializer c)
  unfolding serialize
  serialize-Writes c =
      Writes-append [] ((text "app_id", c.app_id) ∷ []) _ _ _
        (emit_str-Writes (text "app_id") c.app_id [])
        λ log1.
          Writes-append log1 ((text "platform", platform_text c.platform) ∷ []) _ _ _
            (emit_str-Writes (text "platform") (platform_text c.platform) log1)
            λ log2.
              Writes-append log2 (pair_of (text "api_token") c.api_token) _ _ _
                (emit_some-Writes (text "api_token") c.api_token log2)
                λ log3.
                  Writes-append log3 (device_pairs c.device_id) _ _ _
                    (emit_device-Writes c.device_id log3)
                    λ log4.
                      Writes-append log4 (pair_of (text "signature") c.signature) _ _ _
                        (emit_some-Writes (text "signature") c.signature log4)
                        (emit_some-Writes (text "origin") c.origin)
