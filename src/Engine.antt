-- ===== src/Engine.antt =====
-- engine/: what a bet is, what it costs and the sessions it goes out on.
pub mod Side
pub mod Ticks
pub mod Sessions
pub mod Stake
pub mod Place
