-- ===== src/Pegasus/Strategy.antt =====
-- apps/pegasus/strategy/: the strategies that turn a feed's updates into bets.
pub mod Field
pub mod Once
pub mod ForwardProgress
pub mod TpdLeader
use pegasus_suite.Prelude.{Bool, true, ◌||◌}
use pegasus_suite.Betting.{RacingCode, is_thoroughbred, is_harness}
use pegasus_suite.Pegasus.Core.{Provider, provider_triple_s, provider_tpd}

-- `Covers`
unfoldable pub covers : Provider → RacingCode → Bool
covers provider_triple_s code = is_thoroughbred code || is_harness code
covers provider_tpd code = true
