-- ===== src/Pegasus/Core.antt =====
-- apps/pegasus/core/: vectors, the reference to a race, a bet and a decision.
use pegasus_suite.Prelude.{String, Bool, List, if◌then◌else◌}
use pegasus_suite.Prelude.Int.{ℤ}
use pegasus_suite.Prelude.Float.{Float64}
use pegasus_suite.Betting.{RacingCode}
use pegasus_suite.Engine.Side.{Side}

pub data Provider : Type 0 where
  provider_triple_s provider_tpd : Provider

pub data RaceStatus : Type 0 where
  status_unknown status_pre_off status_running status_finished : RaceStatus

module _ (fl : Float64) where
  pub record Vector : Type 0 where
    pub latitude : fl.F
    pub longitude : fl.F

  pub record RaceRef : Type 0 where
    pub provider : Provider
    pub key : String
    pub scope : String
    pub venue : String
    pub venue_name : String
    pub country : String
    pub race_number : ℤ
    pub code : RacingCode
    pub distance : fl.F
    pub status : RaceStatus

  pub record Bet : Type 0 where
    pub ref : RaceRef
    pub side : Side
    pub runner : ℤ
    pub unit : fl.F

  pub record Decision : Type 0 where
    pub bets : List Bet
    pub tracking : Bool

module _ {fl : Float64} where
  unfoldable pub add_vector : Vector fl → Vector fl → Vector fl
  add_vector v o = record {
    latitude = fl.add v.latitude o.latitude;
    longitude = fl.add v.longitude o.longitude;
  }

  unfoldable pub sub_vector : Vector fl → Vector fl → Vector fl
  sub_vector v o = record {
    latitude = fl.sub v.latitude o.latitude;
    longitude = fl.sub v.longitude o.longitude;
  }

  unfoldable pub div_vector : Vector fl → fl.F → Vector fl
  div_vector v s = record { latitude = fl.div v.latitude s; longitude = fl.div v.longitude s }

  unfoldable pub magnitude : Vector fl → fl.F
  magnitude v = fl.sqrt (fl.add (fl.mul v.longitude v.longitude) (fl.mul v.latitude v.latitude))

  unfoldable pub normalise : Vector fl → Vector fl
  unfolding magnitude
  normalise v =
      let mag = magnitude v in
      if fl.eq mag (fl.lit 0 0)
      then record { latitude = fl.lit 0 0; longitude = fl.lit 0 0 }
      else record { latitude = fl.div v.latitude mag; longitude = fl.div v.longitude mag }

  unfoldable pub dot : Vector fl → Vector fl → fl.F
  dot v o = fl.add (fl.mul v.longitude o.longitude) (fl.mul v.latitude o.latitude)
