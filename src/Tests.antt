-- ===== src/Tests.antt =====
-- Runs on small inputs, and the theorems at such inputs.
mod Encryption
mod AppRegistry
mod Stores
mod Gateway
mod Processing
mod Events
mod Newcomers
mod Process
mod Shutdown
mod Cancellations
mod Json
mod Races
mod Documents
