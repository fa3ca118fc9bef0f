-- ===== src/Process.antt =====
-- src/main.rs: the process, its threads and what they are started with.
pub mod Start
pub mod Connections
pub mod Registry
pub mod Threads
pub mod Stages
pub mod Invariant
pub mod Bounds
pub mod Progress
pub mod Worlds
pub mod Production
pub mod Opening
pub mod Endings
