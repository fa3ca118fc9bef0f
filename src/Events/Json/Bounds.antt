-- ===== src/Events/Json/Bounds.antt =====
-- What a batch that was read from JSON holds.
use mathlib.Core.Option.{some-injective}
use mathlib.Core.Path.{subst}
use xorc_gateway.Base.{ℕ, ◌^◌, ◌<◌, true, ◌≡◌, refl, Option, none, some, All, text_eq, ℤ, arith}
use xorc_gateway.Events.Batch.{SdkEventBatch}
use xorc_gateway.Events.Device.{SdkDevice}
use xorc_gateway.Events.Event.{
  SdkEvent, Value, array, object, null, boolean, number, string, Items, nil, cons,
}
use xorc_gateway.Events.Event.Times.{from_str-lt}
use xorc_gateway.Events.Json.{
  ◌>>=◌, Slot, present, absent, short, required, optional, read_i32, is_i32,
}
use xorc_gateway.Events.Json.Structs.{
  read_timestamp, decode_event, decode_device, read_items, read_events, decode_batch,
}

-- The value meets `P`, if there is one.
record If {A : Type 0} (P : A → Type 0) (o : Option A) : Type 0 where
  holds : (a : A) → o ≡ some a → P a

If-bind :
    {A B : Type 0} {P : B → Type 0} {o : Option A} {f : A → Option B}
    → ((a : A) → o ≡ some a → If P (f a))
    → If P (o >>= f)
unfolding ◌>>=◌
If-bind {o = none} each = record { holds = λ b e. ground arith }
If-bind {o = some a} each = each a refl

-- The number fits an `i32`, where there is one.
abbrev pub IsI32 : Option ℤ → Type 0
IsI32 none = Unit
IsI32 (some i) = is_i32 i ≡ true

read_i32-IsI32 : (v : Value) (i : ℤ) → read_i32 v ≡ some i → is_i32 i ≡ true
unfolding read_i32
read_i32-IsI32 v i e = ground arith

optional-IsI32 : (s : Slot) (i : Option ℤ) → optional read_i32 s ≡ some i → IsI32 i
unfolding optional
optional-IsI32 s i e = grind (arith, read_i32-IsI32)

read_timestamp-lt : (s : Slot) (n : ℕ) → required read_timestamp s ≡ some n → n < 2 ^ 64
unfolding required read_timestamp ◌>>=◌
read_timestamp-lt s n e = grind (arith, from_str-lt)

-- The timestamp is a `u64`.
abbrev pub IsTimed : SdkEvent → Type 0
IsTimed e = e.timestamp < 2 ^ 64

-- The numbers are `i32`s.
abbrev pub IsSized : SdkDevice → Type 0
IsSized d = IsI32 d.h × IsI32 d.w × IsI32 d.notification_types

slot-IsI32 : (o : Option Slot) (i : Option ℤ) → (o >>= optional read_i32) ≡ some i → IsI32 i
unfolding ◌>>=◌
slot-IsI32 none i e = ground arith
slot-IsI32 (some s) i e = optional-IsI32 s i e

slot-lt : (o : Option Slot) (n : ℕ) → (o >>= required read_timestamp) ≡ some n → n < 2 ^ 64
unfolding ◌>>=◌
slot-lt none n e = ground arith
slot-lt (some s) n e = read_timestamp-lt s n e

decode_event-IsTimed : (v : Value) → If IsTimed (decode_event v)
unfolding decode_event
decode_event-IsTimed v = If-bind λ fits _. If-bind λ id _. If-bind λ timestamp has_timestamp.
    If-bind λ name _. If-bind λ properties _. If-bind λ session_id _. If-bind λ external_user_id _.
      If-bind λ reference_id _. record {
        holds =
            λ e same. subst IsTimed (some-injective _ e same) (slot-lt _ timestamp has_timestamp);
      }

decode_device-IsSized : (v : Value) → If IsSized (decode_device v)
unfolding decode_device
decode_device-IsSized v = If-bind λ fits _. If-bind λ ifa_tracking_enabled _.
    If-bind λ notification_registered _. If-bind λ h has_h. If-bind λ w has_w. If-bind λ locale _.
      If-bind λ language _. If-bind λ time_zone _. If-bind λ manufacturer _. If-bind λ model _.
        If-bind λ os_version _. If-bind λ os_name _. If-bind λ network_connection_type _.
          If-bind λ device_name _. If-bind λ ifa _. If-bind λ idfv _. If-bind λ carrier_name _.
            If-bind λ carrier_country _. If-bind λ browser_name _. If-bind λ browser_version _.
              If-bind λ browser_ua _. If-bind λ notification_types has_notification_types.
                If-bind λ orientation _. If-bind λ platform _. If-bind λ ip_hashed_blake2 _.
                  If-bind λ country _. record {
                    holds = λ d same. subst IsSized (some-injective _ d same) (
                      slot-IsI32 _ h has_h,
                      slot-IsI32 _ w has_w,
                      slot-IsI32 _ notification_types has_notification_types,
                    );
                  }

read_items-IsTimed : (items : Items) → If (All IsTimed) (read_items items)
unfolding read_items
read_items-IsTimed nil = record {
  holds = λ es same. subst (All IsTimed) (some-injective _ es same) tt;
}
read_items-IsTimed (cons v items) = If-bind λ e is_event. If-bind λ es are_events. record {
  holds = λ all same.
      subst (All IsTimed) (some-injective _ all same)
        ((decode_event-IsTimed v).holds e is_event, (read_items-IsTimed items).holds es are_events);
}

read_events-IsTimed : (v : Value) → If (All IsTimed) (read_events v)
unfolding read_events
read_events-IsTimed (array items) = read_items-IsTimed items
read_events-IsTimed (object fs) = record { holds = λ es e. ground arith }
read_events-IsTimed null = record { holds = λ es e. ground arith }
read_events-IsTimed (boolean b) = record { holds = λ es e. ground arith }
read_events-IsTimed (number n) = record { holds = λ es e. ground arith }
read_events-IsTimed (string s) = record { holds = λ es e. ground arith }

slot-required :
    {A : Type 0} (P : A → Type 0) (read : Value → Option A) (o : Option Slot)
    → ((v : Value) → If P (read v))
    → If P (o >>= required read)
unfolding ◌>>=◌ required
slot-required P read none each = record { holds = λ a e. ground arith }
slot-required P read (some (present v)) each = each v
slot-required P read (some absent) each = record { holds = λ a e. ground arith }
slot-required P read (some short) each = record { holds = λ a e. ground arith }

-- Every timestamp of the batch is a `u64`, and every number of its device an `i32`.
abbrev pub IsBounded : SdkEventBatch → Type 0
IsBounded b = All IsTimed b.events × IsSized b.device

decode_batch-If : (v : Value) → If IsBounded (decode_batch v)
unfolding decode_batch
decode_batch-If v = If-bind λ fits _. If-bind λ environment _. If-bind λ events has_events.
    If-bind λ device has_device. If-bind λ recipient_id _. record {
      holds = λ b same. subst IsBounded (some-injective _ b same) (
        (slot-required (All IsTimed) read_events _ read_events-IsTimed).holds events has_events,
        (slot-required IsSized decode_device _ decode_device-IsSized).holds device has_device,
      );
    }

-- Whatever the document, a batch that is read from it has timestamps below 2 ^ 64 and, in its
-- device, numbers from -(2 ^ 31) to 2 ^ 31 - 1.
pub decode_batch-IsBounded : (v : Value) (b : SdkEventBatch) → decode_batch v ≡ some b → IsBounded b
decode_batch-IsBounded v b made = (decode_batch-If v).holds b made
