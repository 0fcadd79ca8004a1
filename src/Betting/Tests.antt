-- ===== src/Betting/Tests.antt =====
-- betting/betfair/races.go: a loop that is stopped and started again, and one event.
use pegasus_suite.Prelude.{◌≡◌, refl, String, true, false, [], ◌∷◌}
use pegasus_suite.Prelude.Int.{pos}
use pegasus_suite.Prelude.Assoc.{lookup, insert, erase}
use pegasus_suite.Prelude.Toy.{toy_float}
use pegasus_suite.Betting.{betfair_trot}
use pegasus_suite.Betting.Polling.{
  Loop, Polling, no_polling, cancel, remove, call, has, start, stop, exit, Reach, starts, stops,
  calls, exits, here, next,
}
use pegasus_suite.Betting.Polling.Once.{IsRegistered, history-IsRegistered}
use pegasus_suite.Betting.Races.{Event, int_eq}

abbrev old_loop : Loop
old_loop = record { context = 0; key = "r"; cancelled = true }

abbrev restarted : Polling
restarted = start true "r" (call 0 (stop "r" (start true "r" no_polling)))

abbrev after_exit : Polling
after_exit = call 1 (exit old_loop restarted)

taken_first : has 0 (stop "r" (start true "r" no_polling)).taken ≡ true
unfolding has start stop lookup erase insert
taken_first = refl

taken_second : has 1 (exit old_loop restarted).taken ≡ true
unfolding has exit start stop call cancel remove lookup erase insert
taken_second = refl

restarts : Reach no_polling after_exit
restarts = next (starts true "r") (
    next (stops "r") (
      next (calls 0 taken_first)
        (next (starts true "r") (next (exits old_loop) (next (calls 1 taken_second) here)))))

history-IsRegistered_example : IsRegistered after_exit
history-IsRegistered_example = history-IsRegistered after_exit restarts

-- The loop of the second start polls, until the loop of the first returns.
polls_before :
    restarted.loops ≡ record { context = 1; key = "r"; cancelled = false } ∷ old_loop ∷ []
unfolding start stop call cancel remove lookup erase insert
polls_before = refl

stops_after : after_exit.loops ≡ record { context = 1; key = "r"; cancelled = true } ∷ []
unfolding exit start stop call cancel remove lookup erase insert
stops_after = refl

abbrev same : String → String
same s = s

abbrev trot_event : Event toy_float
trot_event = record {
  country = "AU";
  track_name = "menangle";
  code = betfair_trot;
  races =
      (pos 1, record { number = pos 1; id = "1.1"; name = "R1"; distance = pos 1600; runners = [] })
      ∷ [];
}
