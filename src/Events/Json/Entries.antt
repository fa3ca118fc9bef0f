-- ===== src/Events/Json/Entries.antt =====
-- Which entries of a JSON object src/events/input reads a batch from.
use mathlib.Core.Option.{some-injective}
use mathlib.Core.Path.{subst}
use xorc_gateway.Base.{
  ℕ, ◌↔◌, Bool, true, false, ◌≡◌, refl, ap, ◌∙◌, sym, Option, none, some, List, [], ◌∷◌, Text, text,
  text_eq, ◌==◌, if◌then◌else◌, arith,
}
use xorc_gateway.Events.Batch.{SdkEventBatch}
use xorc_gateway.Events.Event.{
  Value, null, boolean, number, string, array, object, Fields, end, field,
}
use xorc_gateway.Events.Json.{
  ◌>>=◌, Slot, present, absent, slot, field_slot, has_key, check_length, required, optional,
  read_text, short,
}
use xorc_gateway.Events.Json.Steps.{goes_on, bound}
use xorc_gateway.Events.Json.Structs.{decode_batch, decode_environment, decode_device, read_events}

-- The values that an object has under a name, in their order.
unfoldable pub values_of : Text → Fields → List Value
values_of name end = []
values_of name (field key v rest) =
    let later = values_of name rest in if key == name then v ∷ later else later

unfoldable slot_of : List Value → Option Slot
slot_of [] = some absent
slot_of (v ∷ []) = some (present v)
slot_of (v ∷ w ∷ vs) = none

abbrev is_empty : List Value → Bool
is_empty [] = true
is_empty (v ∷ vs) = false

has_key-values_of :
    (name : Text) (fs : Fields)
    → has_key name fs ≡ (if is_empty (values_of name fs) then false else true)
unfolding has_key values_of
has_key-values_of name end = refl
has_key-values_of name (field key v rest) = ground (arith, has_key-values_of name rest)

slot_of-cons :
    (v : Value) (vs : List Value)
    → slot_of (v ∷ vs) ≡ (if is_empty vs then some (present v) else none)
unfolding slot_of
slot_of-cons v [] = refl
slot_of-cons v (w ∷ vs) = refl

field_slot-values_of :
    (name : Text) (fs : Fields) → field_slot name fs ≡ slot_of (values_of name fs)
unfolding field_slot values_of
field_slot-values_of name end = unfold slot_of in refl
field_slot-values_of name (field key v rest) = ground (
  arith,
  field_slot-values_of name rest,
  has_key-values_of name rest,
  slot_of-cons v (values_of name rest),
)

slot_of-object :
    (name : Text) (fs gs : Fields) (i : ℕ)
    → values_of name fs ≡ values_of name gs
    → slot (object fs) name i ≡ slot (object gs) name i
unfolding slot
slot_of-object name fs gs i same =
    field_slot-values_of name fs ∙ (ap slot_of same ∙ sym (field_slot-values_of name gs))

-- What is read from an object depends only on the values that it has under the names of the four
-- fields of a batch: other entries are passed over, and the order of the fields is free.
pub decode_batch-values_of :
    (fs gs : Fields)
    → values_of (text "environment") fs ≡ values_of (text "environment") gs
    → values_of (text "events") fs ≡ values_of (text "events") gs
    → values_of (text "device") fs ≡ values_of (text "device") gs
    → values_of (text "recipient_id") fs ≡ values_of (text "recipient_id") gs
    → decode_batch (object fs) ≡ decode_batch (object gs)
unfolding decode_batch check_length
decode_batch-values_of fs gs e v d r =
    rw
      (
        slot_of-object (text "environment") fs gs 0 e,
        slot_of-object (text "events") fs gs 1 v,
        slot_of-object (text "device") fs gs 2 d,
        slot_of-object (text "recipient_id") fs gs 3 r,
      )
      refl

slot_of-present : (vs : List Value) (v : Value) → slot_of vs ≡ some (present v) → vs ≡ v ∷ []
unfolding slot_of
slot_of-present [] v e = ground arith
slot_of-present (w ∷ []) v e = ground arith
slot_of-present (w ∷ x ∷ vs) v e = ground arith

required_of :
    {A : Type 0} (read : Value → Option A) (s : Slot) (a : A)
    → required read s ≡ some a
    → (v : Value) × (s ≡ present v) × (read v ≡ some a)
unfolding required
required_of read (present v) a e = (v, refl, e)
required_of read absent a e = ground arith
required_of read short a e = ground arith

-- The field is there once, and its value is read.
abbrev pub Once : {A : Type 0} → (Value → Option A) → Text → Fields → A → Type 0
Once read name fs a = (v : Value) × (values_of name fs ≡ v ∷ []) × (read v ≡ some a)

required-Once :
    {A : Type 0} (read : Value → Option A) (name : Text) (i : ℕ) (fs : Fields) (a : A)
    → (slot (object fs) name i >>= required read) ≡ some a
    → Once read name fs a
unfolding slot
required-Once read name i fs a e =
    let (s, found, is_read) = bound e in
    let (v, same, reads) = required_of read s a is_read in
    (v, slot_of-present _ v (sym (field_slot-values_of name fs) ∙ (found ∙ ap some same)), reads)

Once-required :
    {A : Type 0} (read : Value → Option A) (name : Text) (i : ℕ) (fs : Fields) (a : A)
    → Once read name fs a
    → (slot (object fs) name i >>= required read) ≡ some a
unfolding slot slot_of required ◌>>=◌
Once-required read name i fs a (v, once, reads) = rw (field_slot-values_of name fs, once) reads

abbrev IsRecipient : Value → Option Text → Type 0
IsRecipient null r = r ≡ none
IsRecipient (string t) r = r ≡ some t
IsRecipient _ r = ⊥

-- The recipient, by the values under its name: a text, or null, or nothing.
abbrev pub Recipient : List Value → Option Text → Type 0
Recipient [] r = r ≡ none
Recipient (v ∷ []) r = IsRecipient v r
Recipient (v ∷ w ∷ vs) r = ⊥

optional-IsRecipient :
    (v : Value) (r : Option Text) → (optional read_text (present v) ≡ some r) ↔ IsRecipient v r
unfolding optional
optional-IsRecipient null r = (λ e. ground arith, λ e. ground arith)
optional-IsRecipient (string t) r = (λ e. ground arith, λ e. ground arith)
optional-IsRecipient (boolean b) r = (λ e. ground arith, λ e. absurd e)
optional-IsRecipient (number n) r = (λ e. ground arith, λ e. absurd e)
optional-IsRecipient (array items) r = (λ e. ground arith, λ e. absurd e)
optional-IsRecipient (object fs) r = (λ e. ground arith, λ e. absurd e)

slot_of-Recipient :
    (vs : List Value) (r : Option Text)
    → ((slot_of vs >>= optional read_text) ≡ some r) ↔ Recipient vs r
unfolding slot_of ◌>>=◌
slot_of-Recipient [] r = unfold optional in (λ e. ground arith, λ e. ground arith)
slot_of-Recipient (v ∷ []) r = optional-IsRecipient v r
slot_of-Recipient (v ∷ w ∷ vs) r = (λ e. ground arith, λ e. absurd e)

slot-Recipient :
    (fs : Fields) (r : Option Text)
    → ((slot (object fs) (text "recipient_id") 3 >>= optional read_text) ≡ some r)
      ↔ Recipient (values_of (text "recipient_id") fs) r
unfolding slot
slot-Recipient fs r =
    rw (field_slot-values_of (text "recipient_id") fs)
      (slot_of-Recipient (values_of (text "recipient_id") fs) r)

-- An object is read as a batch exactly if it has an environment, events and a device, each once and
-- each readable, which are then those of the batch, and for the recipient at most one entry.
pub decode_batch-eq-some_iff :
    (fs : Fields) (b : SdkEventBatch)
    → (decode_batch (object fs) ≡ some b) ↔ (
        Once decode_environment (text "environment") fs b.environment
        × Once read_events (text "events") fs b.events
        × Once decode_device (text "device") fs b.device
        × Recipient (values_of (text "recipient_id") fs) b.recipient_id)
unfolding decode_batch check_length
decode_batch-eq-some_iff fs b = (
  λ made.
      let (fits, _, more) = bound made in
      let (e, is_e, more') = bound more in
      let (v, is_v, more'') = bound more' in
      let (d, is_d, more3) = bound more'' in
      let (r, is_r, same) = bound more3 in
      let equal = some-injective _ b same in
      (
        subst (Once decode_environment (text "environment") fs) (ap (λ b. b.environment) equal)
            (required-Once decode_environment (text "environment") 0 fs e is_e),
        subst (Once read_events (text "events") fs) (ap (λ b. b.events) equal)
            (required-Once read_events (text "events") 1 fs v is_v),
        subst (Once decode_device (text "device") fs) (ap (λ b. b.device) equal)
            (required-Once decode_device (text "device") 2 fs d is_d),
        subst (Recipient (values_of (text "recipient_id") fs)) (ap (λ b. b.recipient_id) equal)
            ((slot-Recipient fs r).0 is_r),
      ),
  λ (e, v, d, r). goes_on _ refl (
      goes_on _ (Once-required decode_environment (text "environment") 0 fs b.environment e) (
        goes_on _ (Once-required read_events (text "events") 1 fs b.events v) (
          goes_on _ (Once-required decode_device (text "device") 2 fs b.device d)
            (goes_on _ ((slot-Recipient fs b.recipient_id).1 r) refl)))),
)
