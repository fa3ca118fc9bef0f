-- ===== src/Events.antt =====
-- src/events/input: what a client sends, and its translation to the protobuf messages of
-- src/events/output.
pub mod Device
pub mod Environment
pub mod Timestamp
pub mod Event
pub mod Response
pub mod Batch
pub mod Json
