-- ===== src/Pegasus.antt =====
-- apps/pegasus/: live race data, a strategy for each process, and the bets that it decides on.
pub mod Core
pub mod Strategy
pub mod Venues
pub mod Scope
pub mod Settings
pub mod Packet
pub mod Samples
pub mod Dispatch
pub mod Process
pub mod Tpd
pub mod TripleS
pub mod App
