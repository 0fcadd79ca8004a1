-- ===== src/Pegasus/App.antt =====
-- apps/pegasus/app.go: the application. The clients of the feeds and of the exchange, the decoding of
-- settings documents and the engine's sessions are parameters; a method runs under the application's
-- lock, so it is one step, and the world stands for what the clients do outside.
pub mod Processes
pub mod FanOut
mod Status
mod Tests
use pegasus_suite.Prelude.{
  ℕ, ◌+◌, ◌==◌, String, Bool, true, false, not, ◌&&◌, Option, none, some, List, [], ◌∷◌, is_some,
  str_eq, if◌then◌else◌,
}
use pegasus_suite.Prelude.Int.{ℤ}
use pegasus_suite.Prelude.Assoc.{Assoc}
use pegasus_suite.Prelude.Float.{Float64}
use pegasus_suite.Prelude.Time.{GoTime}
use pegasus_suite.Betting.{BetfairRace, BetfairCode}
use pegasus_suite.Clients.{ProcessKey, RawMessage, Result, ok, err, result_case}
use pegasus_suite.Engine.Place.{Account}
use pegasus_suite.Engine.Sessions.{BetfairCredentials, Credentials}
use pegasus_suite.Pegasus.Core.{Provider, provider_triple_s, provider_tpd, RaceRef}
use pegasus_suite.Pegasus.Dispatch.{Dispatcher}
use pegasus_suite.Pegasus.Process.{Process}
use pegasus_suite.Pegasus.Settings.{
  SettingsError, ProcessSettings, Json, TripleS, Tpd, parse_triple_s, parse_tpd,
  parse_admin_betfair, validate_triple_s, validate_tpd,
}

-- the feeds, by the name of their settings documents
pub data Feed : Type 0 where
  feed_triple_s feed_tpd : Feed

abbrev pub same_feed : Feed → Feed → Bool
same_feed feed_triple_s feed_triple_s = true
same_feed feed_triple_s feed_tpd = false
same_feed feed_tpd feed_triple_s = false
same_feed feed_tpd feed_tpd = true

-- the errors, by the message that the code formats
pub data AppError : Type 0 where
  settings_unreadable : String → AppError
  bad_settings : SettingsError → AppError
  client_failed : String → AppError
  unknown_scope no_feed : String → AppError
  feed_disabled no_strategy : String → Provider → AppError

-- an error's text is all that Status shows
pub record FeedStatus : Type 0 where
  pub key : Feed
  pub enabled : Bool
  pub running : Bool
  pub error : Option AppError

-- the clients, and what they do to the world `W`
pub record Clients (fl : Float64) (W : Type 0) : Type 1 where
  pub Betfair : Type 0
  pub TripleSClient : Type 0
  pub TpdClient : Type 0
  pub new_betfair : BetfairCredentials → W → W × Result String Betfair
  -- `StartTokenRefresh` and `StartTrackRefresh`
  pub start_refresh : Betfair → W → W
  pub close_betfair : Betfair → W → W
  pub new_triple_s : TripleS → W → W × Result String TripleSClient
  pub disconnect : TripleSClient → W → W
  pub new_tpd : String → String → W → W × Result String TpdClient
  pub close_tpd : TpdClient → W → W
  pub get_race : Betfair → BetfairCode → String → String → ℤ → W → Option (BetfairRace fl)
  pub start_runner_updates : Betfair → BetfairCode → String → String → ℤ → W → W
  pub stop_runner_updates : Betfair → BetfairCode → String → String → ℤ → W → W

-- a settings document of the kernel, the decoders, and `strconv.Atoi`
pub record Documents : Type 0 where
  pub document : String → Result String RawMessage
  pub json_triple_s : Json TripleS
  pub json_tpd : Json Tpd
  pub json_betfair : Json BetfairCredentials
  pub atoi : String → Option ℤ

-- a process, with the dispatcher that its bets go through
pub record Member (fl : Float64) (tm : GoTime) : Type 0 where
  pub process : Process fl tm
  pub dispatcher : Dispatcher fl

module _ {fl : Float64} (tm : GoTime) {W : Type 0} (c : Clients fl W) where
  pub record App : Type 0 where
    pub gen : ℕ
    pub betfair : Option c.Betfair
    pub triple_s : Option c.TripleSClient
    pub tpd : Option c.TpdClient
    pub enabled : Provider → Bool
    pub feeds : Option (List FeedStatus)
    pub procs : Assoc ProcessKey (Member fl tm)
    pub unmatched : Assoc {0, 0} String Unit
    pub betfair_missing : Assoc {0, 0} String Unit

  -- `New`
  unfoldable pub new : App
  new = record {
    gen = 0;
    betfair = none;
    triple_s = none;
    tpd = none;
    enabled = λ p. false;
    feeds = none;
    procs = [];
    unmatched = [];
    betfair_missing = [];
  }

abbrev pub enabled_by : Bool → Bool → Provider → Bool
enabled_by triple_s tpd provider_triple_s = triple_s
enabled_by triple_s tpd provider_tpd = tpd

-- the two documents that `Start` reads first
unfoldable pub feed_settings : Documents → Result AppError (TripleS × Tpd)
feed_settings docs = elim (docs.document "triples") [
  | err m ↦ err (settings_unreadable m)
  | ok doc ↦ elim (parse_triple_s docs.json_triple_s doc) [
    | err e ↦ err (bad_settings e)
    | ok t ↦ elim (docs.document "tpd") [
      | err m ↦ err (settings_unreadable m)
      | ok doc' ↦ elim (parse_tpd docs.json_tpd doc') [
        | err e ↦ err (bad_settings e)
        | ok p ↦ ok (t, p)
      ]
    ]
  ]
]

abbrev pub when_some : {A W : Type 0} → (A → W → W) → Option A → W → W
when_some f none w = w
when_some f (some x) w = f x w

abbrev pub mark_down : Feed → AppError → List FeedStatus → List FeedStatus
mark_down feed e [] = []
mark_down feed e (s ∷ rest) =
    (if same_feed s.key feed then record s { running = false; error = some e } else s)
    ∷ mark_down feed e rest

abbrev pub mark_feeds : Feed → AppError → Option (List FeedStatus) → Option (List FeedStatus)
mark_feeds feed e none = none
mark_feeds feed e (some feeds) = some (mark_down feed e feeds)

module _ {fl : Float64} {W : Type 0} (c : Clients fl W) where
  -- `setupTriples` and `setupTPD`, and the part of `Start` that reads what they return: the client, if
  -- there is one, and the error
  unfoldable pub setup_triple_s : TripleS → W → W × (Option c.TripleSClient × Option AppError)
  setup_triple_s s w = elim (validate_triple_s s) [
    | some e ↦ (w, (none, some (bad_settings e)))
    | none ↦
        (let (w', r) = c.new_triple_s s w in
          elim r [
            | err m ↦ (w', (none, some (client_failed m)))
            | ok client ↦ (w', (some client, none))
          ])
  ]

module _ {fl : Float64} {W : Type 0} (c : Clients fl W) (docs : Documents) where
  -- `setupBetfair`
  unfoldable pub setup_betfair : W → W × Result AppError c.Betfair
  setup_betfair w = elim (docs.document "betfair") [
    | err m ↦ (w, err (settings_unreadable m))
    | ok doc ↦ elim (parse_admin_betfair docs.json_betfair doc) [
      | err e ↦ (w, err (bad_settings e))
      | ok creds ↦
          (let (w', r) = c.new_betfair creds w in
            elim r [
              | err m ↦ (w', err (client_failed m))
              | ok client ↦ (c.start_refresh client w', ok client)
            ])
    ]
  ]

  unfoldable pub setup_tpd : Tpd → W → W × (Option c.TpdClient × Option AppError)
  setup_tpd s w = elim (validate_tpd docs.atoi s) [
    | some e ↦ (w, (none, some (bad_settings e)))
    | none ↦
        (let (w', r) = c.new_tpd s.udp_port s.licence_key w in
          elim r [
            | err m ↦ (w', (none, some (client_failed m)))
            | ok client ↦ (w', (some client, none))
          ])
  ]

module _ {fl : Float64} {tm : GoTime} {W : Type 0} (c : Clients fl W) (docs : Documents) where
  -- `Start` from the assignment of the exchange client on
  unfoldable pub start_feeds : TripleS → Tpd → c.Betfair → App tm c → W → App tm c × W
  unfolding setup_triple_s setup_tpd
  start_feeds t p bf a w =
      let (w1, (triple_s, triple_s_error)) =
        if t.enabled then setup_triple_s c t w else (w, (a.triple_s, none)) in
      let (w2, (tpd, tpd_error)) =
        if p.enabled then setup_tpd c docs p w1 else (w1, (a.tpd, none)) in
      (
        record a {
          betfair = some bf;
          enabled = enabled_by t.enabled p.enabled;
          triple_s = triple_s;
          tpd = tpd;
          feeds = some (
              record {
                key = feed_triple_s;
                enabled = t.enabled;
                running = is_some triple_s;
                error = triple_s_error;
              }
              ∷ record {
                key = feed_tpd;
                enabled = p.enabled;
                running = is_some tpd;
                error = tpd_error;
              }
              ∷ []);
        },
        w2,
      )

  -- `Start`
  unfoldable pub start : App tm c → W → (App tm c × W) × Option AppError
  unfolding feed_settings setup_betfair start_feeds
  start a w =
      let a' = record a { gen = a.gen + 1 } in
      elim (feed_settings docs) [
        | err e ↦ ((a', w), some e)
        | ok (t, p) ↦
            (let (w', r) = setup_betfair c docs w in
              elim r [ err e ↦ ((a', w'), some e) | ok bf ↦ (start_feeds t p bf a' w', none) ])
      ]

module _ {fl : Float64} {tm : GoTime} {W : Type 0} (c : Clients fl W) where
  -- `Stop`
  unfoldable pub stop : App tm c → W → App tm c × W
  stop a w = (
    record a { triple_s = none; tpd = none; betfair = none; feeds = none; procs = [] },
    when_some c.close_betfair a.betfair
        (when_some c.close_tpd a.tpd (when_some c.disconnect a.triple_s w)),
  )

  abbrev pub drop_client : Feed → App tm c → W → App tm c × W
  drop_client feed_triple_s a w =
      (record a { triple_s = none }, when_some c.disconnect a.triple_s w)
  drop_client feed_tpd a w = (record a { tpd = none }, when_some c.close_tpd a.tpd w)

  -- `onFeedFatal`
  unfoldable pub on_feed_fatal : ℕ → Feed → AppError → App tm c → W → App tm c × W
  on_feed_fatal gen feed e a w =
      let (a', w') = drop_client feed a w in
      if not (gen == a.gen) then (a, w) else (record a' { feeds = mark_feeds feed e a'.feeds }, w')
