-- ===== src/Events/Batch.antt =====
-- src/events/input/sdk_event_batch.rs: a batch of events, and its protobuf message.
pub mod Order
pub mod Totality
use xorc_gateway.Base.{
  Ordering, compare, Option, none, some, List, [], ◌∷◌, Text, text, ℤ, Outcome, returned, and_then,
}
use xorc_gateway.Context.{Context}
use xorc_gateway.Crates.{Base64, Network, Casts}
use xorc_gateway.Events.Device.{SdkDevice, Device, set_location, device_into}
use xorc_gateway.Events.Environment.{SdkEnvironment, Environment, environment_into}
use xorc_gateway.Events.Event.{SdkEvent, SdkEventData, event_into}

-- `SDKEventBatch`
pub record SdkEventBatch : Type 0 where
  pub environment : SdkEnvironment
  pub events : List SdkEvent
  pub device : SdkDevice
  pub recipient_id : Option Text

-- `output::common::Header`
pub record Header : Type 0 where
  pub created_at : ℤ
  pub source : Text
  pub type_ : Option Text
  pub feed : Option Text
  pub recipient_id : Option Text

-- `output::events::SdkEventBatch`
pub record ProtoBatch : Type 0 where
  pub header : Header
  pub environment : Option Environment
  pub device : Option Device
  pub event : List SdkEventData

-- `sort_unstable_by` with a comparison, which leaves the order of what compares as equal open.
pub record Sorter : Type 0 where
  pub sort_unstable_by : (SdkEvent → SdkEvent → Ordering) → List SdkEvent → List SdkEvent

-- `|e1, e2| e1.timestamp.cmp(&e2.timestamp)`
unfoldable pub by_timestamp : SdkEvent → SdkEvent → Ordering
by_timestamp e1 e2 = compare e1.timestamp e2.timestamp

-- What the message conversion takes from outside.
pub record Translation : Type 0 where
  pub base64 : Base64
  pub network : Network
  pub casts : Casts
  pub sorter : Sorter

-- The device id of the context replaces the recipient.
abbrev pub recipient_of : Context → Option Text → Option Text
recipient_of c recipient_id = elim c.device_id [
  | none ↦ recipient_id
  | some id ↦ some id.cleartext.value
]

-- The location of the context's address is written to the device.
abbrev pub located : Translation → Context → SdkDevice → SdkDevice
located t c d = elim c.ip [ none ↦ d | some ip ↦ set_location t.base64 t.network ip d ]

-- `self.events.into_iter().map(|ev| ev.into()).collect()`
unfoldable pub events_into : Casts → List SdkEvent → Outcome (List SdkEventData)
unfolding event_into
events_into casts [] = returned []
events_into casts (e ∷ es) =
    and_then (event_into casts e)
      λ data'. and_then (events_into casts es) λ rest. returned (data' ∷ rest)

-- `SDKEventBatch::into_proto`, at the time that `Utc::now()` gives.
unfoldable pub into_proto : Translation → ℤ → SdkEventBatch → Context → Outcome ProtoBatch
unfolding events_into device_into environment_into by_timestamp
into_proto t now b c =
    and_then (events_into t.casts (t.sorter.sort_unstable_by by_timestamp b.events)) λ event.
      returned (record {
        header = record {
          created_at = now;
          source = b.environment.app_id;
          type_ = some (text "events.SDKEventBatch");
          feed = some (text "xorc");
          recipient_id = recipient_of c b.recipient_id;
        };
        environment = some (environment_into b.environment);
        device = some (device_into (located t c b.device));
        event = event;
      })
