-- ===== src/Pegasus/Packet.antt =====
-- apps/pegasus/tpd/types.go: the progress packet, as far as the tracker and the strategy read it.
use pegasus_suite.Prelude.{ℕ, String, List}
use pegasus_suite.Prelude.Float.{Float64}

pub record Progress (fl : Float64) : Type 0 where
  pub timestamp : String
  pub id : String
  pub running_time : fl.F
  pub progress : fl.F
  pub order : List String
  -- a uint32
  pub warnings : ℕ
