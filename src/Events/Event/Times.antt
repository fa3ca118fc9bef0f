-- ===== src/Events/Event/Times.antt =====
-- The timestamp of an event, src/events/input/sdk_event.rs, as it is read and as it is written.
use xorc_gateway.Base.{ℕ, ◌<◌, ◌^◌, ◌≡◌, some, Text, arith, returned, Outcome-cases, inl, inr}
use xorc_gateway.Crates.{Casts}
use xorc_gateway.Events.Event.{SdkEvent, SdkEventData, from_str, properties, event_into}
use xorc_gateway.Events.Timestamp.{u64_to_text}
use xorc_gateway.Events.Timestamp.RoundTrip.{u64_from_str-u64_to_text, u64_from_str-lt}

timestamp-event_into :
    (casts : Casts) (e : SdkEvent) (d : SdkEventData)
    → event_into casts e ≡ returned d
    → d.timestamp ≡ some (u64_to_text e.timestamp)
unfolding event_into
timestamp-event_into casts e d h = elim (Outcome-cases (properties casts e)) [
  | inl stops ↦ ground arith
  | inr (ps, made) ↦ ground arith
]

-- The timestamp of a message's event is a text that the reader of timestamps reads as the event's,
-- where that fits `u64`.
pub from_str-event_into :
    (casts : Casts) (e : SdkEvent) (d : SdkEventData)
    → e.timestamp < 2 ^ 64
    → event_into casts e ≡ returned d
    → (s : Text) × (d.timestamp ≡ some s) × (from_str s ≡ some e.timestamp)
unfolding from_str
from_str-event_into casts e d small h = (
  u64_to_text e.timestamp,
  timestamp-event_into casts e d h,
  u64_from_str-u64_to_text e.timestamp small,
)

-- What is read as a timestamp fits `u64`.
pub from_str-lt : (s : Text) (n : ℕ) → from_str s ≡ some n → n < 2 ^ 64
unfolding from_str
from_str-lt s n h = u64_from_str-lt s n h
