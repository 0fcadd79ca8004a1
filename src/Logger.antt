-- ===== src/Logger.antt =====
-- logger/: the records that the program logs, and the outputs that they go to.
pub mod Ring
pub mod Line
pub mod Emit
pub mod Telegram
