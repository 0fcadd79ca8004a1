-- ===== src/Davo.antt =====
-- apps/_davo/: the application that bets on tips posted to Telegram. The Go tool skips its directory,
-- whose name starts with an underscore; the parts modelled are pure.
pub mod Names
pub mod Gate
