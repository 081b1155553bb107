-- ===== src/Examples.antt =====
-- The theorems at concrete inputs, and tests of the definitions.
pub mod Worlds
pub mod Replays
pub mod Recalls
pub mod Replication
pub mod Schedules
pub mod Tapes
pub mod Devices
pub mod Streams
pub mod Faults
pub mod Shrinks
pub mod Histories
pub mod Protocols
pub mod Searches
