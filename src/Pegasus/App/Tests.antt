-- ===== src/Pegasus/App/Tests.antt =====
-- apps/pegasus/app.go: an application that starts, fails to, adds a process and gets a packet.
use pegasus_suite.Prelude.{◌≡◌, refl, ℕ, String, true, false, none, some, []}
use pegasus_suite.Prelude.Int.{ℤ, pos}
use pegasus_suite.Prelude.Assoc.{lookup}
use pegasus_suite.Prelude.Toy.{toy_float, toy_time}
use pegasus_suite.Betting.{thoroughbred}
use pegasus_suite.Clients.{ProcessKey, Result, ok}
use pegasus_suite.Engine.Place.{Account}
use pegasus_suite.Engine.Sessions.{Credentials}
use pegasus_suite.Pegasus.Core.{RaceRef, status_running}
use pegasus_suite.Pegasus.Samples.{us_message, us_settings, no_prices}
use pegasus_suite.Pegasus.Settings.{ProcessSettings, Json}
use pegasus_suite.Pegasus.TripleS.{FeedMessage, status_of}
use pegasus_suite.Pegasus.TripleS
use pegasus_suite.Pegasus.App.{
  Clients, Documents, App, feed_tpd, client_failed, new, start, on_feed_fatal,
}
use pegasus_suite.Pegasus.App.FanOut.{canonical, on_tpd}
use pegasus_suite.Pegasus.App.FanOut.Delivery.{queued, Delivers, on_tpd-Delivers}
use pegasus_suite.Pegasus.App.Processes.{new_process}
use pegasus_suite.Pegasus.App.Processes.Coverage.{IsAdded, new_process-IsAdded}
use pegasus_suite.Pegasus.App.Status.{IsShown, moves-IsShown, starts, fails, here}

-- clients that count what they are told to do
abbrev clients : Clients toy_float ℕ
clients = record {
  Betfair = ℕ;
  TripleSClient = ℕ;
  TpdClient = ℕ;
  new_betfair = λ creds w. (w, ok 1);
  start_refresh = λ b w. w;
  close_betfair = λ b w. w;
  new_triple_s = λ s w. (w, ok 2);
  disconnect = λ t w. w;
  new_tpd = λ port licence w. (w, ok 3);
  close_tpd = λ t w. w;
  get_race = λ b code country track number w. none;
  start_runner_updates = λ b code country track number w. w;
  stop_runner_updates = λ b code country track number w. w;
}

abbrev documents : Documents
documents = record {
  document = λ name. ok "{}";
  json_triple_s = record { unmarshal = λ doc t. ok t };
  json_tpd = record { unmarshal = λ doc t. ok (record t { enabled = true; licence_key = "k" }) };
  json_betfair = record {
    unmarshal = λ doc c. ok (record { username = "a"; password = "b"; app_key = "c"; cert = "d" });
  };
  atoi = λ s. some (pos 4629);
}

abbrev empty : App toy_time clients
empty = new toy_time clients

abbrev started : App toy_time clients
started = (start clients documents empty 0).0.0

abbrev failed : App toy_time clients
failed = (on_feed_fatal clients 1 feed_tpd (client_failed "udp") started 0).0

moves-IsShown_example : IsShown clients failed
moves-IsShown_example =
    moves-IsShown clients failed
      (starts documents 0 (fails 1 feed_tpd (client_failed "udp") 0 here))

abbrev process_key : ProcessKey
process_key = record { app = "pegasus"; user_id = "u"; process_id = "p" }

abbrev read_settings : Json (ProcessSettings toy_float)
read_settings = record { unmarshal = λ doc s. ok us_settings }

abbrev open_account : ProcessKey → Credentials → ℕ → ℕ × Result String Account
open_account key c w =
    (w, ok (record { bot_id = ""; bookmakers = []; has_betmatic = false; has_betfair = true }))

new_process-IsAdded_example :
    IsAdded clients process_key started
      (new_process clients read_settings open_account no_prices process_key "{}" started 0)
new_process-IsAdded_example =
    new_process-IsAdded clients read_settings open_account no_prices process_key "{}" started 0

abbrev with_process : App toy_time clients
with_process =
    (new_process clients read_settings open_account no_prices process_key "{}" started 0).0.0

abbrev track : String → String
track s = s

on_tpd-Delivers_example :
    let ref = canonical track us_message.ref in
    Delivers clients ref
      (λ p. record p { tpd = queued (record us_message { ref = ref }) p.tpd })
      with_process
      (on_tpd clients track us_message with_process)
on_tpd-Delivers_example = on_tpd-Delivers clients track us_message with_process refl

abbrev digits : ℤ → String
digits n = "3"

abbrev message : FeedMessage toy_float
message = record {
  country_race_code = "AUS/RVIC";
  venue_name = "Flemington";
  event_date = "2024-01-01";
  race_number = pos 3;
  race_state = pos 4;
  message = record { timestamp = "0s"; live_data_sets = [] };
}

abbrev flemington : RaceRef toy_float
flemington = TripleS.ref_with digits message thoroughbred status_running

resolves : TripleS.ref digits message ≡ some flemington
unfolding TripleS.ref lookup status_of
resolves = refl
