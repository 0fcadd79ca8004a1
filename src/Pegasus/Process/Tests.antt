-- ===== src/Pegasus/Process/Tests.antt =====
-- apps/pegasus/process/process.go: a process that starts, is offered a packet and handles it.
use pegasus_suite.Prelude.{◌≡◌, ◌≤◌, refl, true, List, [], ◌∷◌, inl, All}
use pegasus_suite.Prelude.Assoc.{lookup}
use pegasus_suite.Prelude.Toy.{toy_float, toy_time}
use pegasus_suite.Engine.Side.{betfair_back}
use pegasus_suite.Engine.Stake.{active, bets_betmatic, bets_betfair}
use pegasus_suite.Pegasus.Samples.{us_message, us_settings, read_number, no_prices}
use pegasus_suite.Pegasus.Strategy.TpdLeader.Once.{cap}
use pegasus_suite.Pegasus.Process.{Process, staked_scope, new, start, wants, offer_tpd, handle_tpd}
use pegasus_suite.Pegasus.Process.Invariant.{IsSound, IsInScope, history-IsSound}
use pegasus_suite.Pegasus.Process.Once.{goes_on, triple_s_sent, tpd_sent, history_at_most_once}
use pegasus_suite.Pegasus.Process.Steps.{
  HasLoop, Handled, of_tpd, Reach, starts, offers_tpd, handles_tpd, here, next,
}

abbrev fresh : Process toy_float toy_time
fresh = new us_settings true

abbrev offered : Process toy_float toy_time
offered = (offer_tpd us_message (start fresh)).0

abbrev handled : List (Handled toy_float toy_time)
handled = of_tpd us_message (handle_tpd read_number us_message (record offered { tpd = [] })).1 ∷ []

abbrev after : Process toy_float toy_time
after = (handle_tpd read_number us_message (record offered { tpd = [] })).0

offered-HasLoop : HasLoop offered
unfolding HasLoop offer_tpd start wants new staked_scope lookup active bets_betmatic bets_betfair
offered-HasLoop = inl refl

queued : offered.tpd ≡ us_message ∷ []
unfolding offer_tpd start wants new staked_scope lookup active bets_betfair bets_betmatic
queued = refl

handles : Reach no_prices read_number fresh handled after
handles =
    next starts
      (next (offers_tpd us_message) (next (handles_tpd us_message [] offered-HasLoop queued) here))

runs_on : goes_on "98202401011200" handled ≡ true
unfolding goes_on
runs_on = refl

history-IsSound_example : IsSound us_settings after × All (IsInScope us_settings) handled
history-IsSound_example =
    history-IsSound no_prices read_number us_settings true handled after handles

history_at_most_once_example :
    (triple_s_sent betfair_back "98202401011200" handled ≤ 1)
    × (tpd_sent betfair_back "98202401011200" handled ≤ cap betfair_back)
history_at_most_once_example =
    history_at_most_once no_prices read_number us_settings true betfair_back "98202401011200"
      handled after handles runs_on
