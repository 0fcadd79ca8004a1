-- ===== src/Engine/Sessions.antt =====
-- engine/account.go and engine/engine.go: the bookmaker sessions that processes share. A call runs
-- under the engine's lock, so it is one step; the world stands for what the clients do outside.
pub mod Holders
pub mod Accounts
mod Tests
use pegasus_suite.Prelude.{
  String, Bool, true, false, Option, none, some, List, [], ◌∷◌, if◌then◌else◌, str_eq, ◌||◌,
}
use pegasus_suite.Prelude.Assoc.{Assoc, string_eq, lookup, insert, erase}
use pegasus_suite.Clients.{ProcessKey, key_eq, Result, ok, err}

pub record BetmaticCredentials : Type 0 where
  pub username : String
  pub password : String
  pub bot_id : String
  pub bookmakers : List String

pub record BetfairCredentials : Type 0 where
  pub username : String
  pub password : String
  pub app_key : String
  pub cert : String

-- the two `Validate` methods: whether they accept
unfoldable pub betmatic_valid : BetmaticCredentials → Bool
betmatic_valid c = if str_eq c.username "" || str_eq c.password "" then false else true

unfoldable pub betfair_valid : BetfairCredentials → Bool
betfair_valid c =
    if str_eq c.username "" || str_eq c.password "" || str_eq c.app_key "" || str_eq c.cert ""
    then false
    else true

pub record Credentials : Type 0 where
  pub betmatic : Option BetmaticCredentials
  pub betfair : Option BetfairCredentials

-- a bookmaker's client, and `strings.ToLower`, `strings.TrimSpace`
pub record Bookmaker (W : Type 0) (E : Type 0) (Login : Type 0) : Type 1 where
  pub Client : Type 0
  pub dial : Login → W → W × Result E Client
  pub start_token_refresh : Client → W → W
  pub close : Client → W → W

pub record Strings : Type 0 where
  pub to_lower : String → String
  pub trim_space : String → String

pub record Session (C : Type 0) : Type 0 where
  pub client : C
  pub holders : Assoc {0, 0} ProcessKey Unit

unfoldable pub normalise : Strings → String → String
normalise str username = str.to_lower (str.trim_space username)

abbrev pub Sessions : Type 0 → Type 0
Sessions C = Assoc String (Session C)

module _ {W E Login : Type 0} (str : Strings) (b : Bookmaker W E Login) where
  -- `claim`
  unfoldable pub claim :
      ProcessKey
      → String
      → Login
      → Sessions b.Client
      → W
      → (Sessions b.Client × W) × Result E b.Client
  claim key username login m w =
      let alias = normalise str username in
      elim (lookup alias m) [
        | some s ↦
            ((insert alias (record s { holders = insert key tt s.holders }) m, w), ok s.client)
        | none ↦
            (let (w', r) = b.dial login w in
              elim r [
                | err x ↦ ((m, w'), err x)
                | ok client ↦ (
                  (
                    insert alias (record { client = client; holders = insert key tt [] }) m,
                    b.start_token_refresh client w',
                  ),
                  ok client,
                )
              ])
      ]

module _ {W E Login : Type 0} (b : Bookmaker W E Login) where
  -- `release` from `len(s.holders)` on: `left` are the session's holders, `next` the rest of the range
  unfoldable pub drop_idle :
      String
      → Session b.Client
      → Assoc {0, 0} ProcessKey Unit
      → (W → Sessions b.Client × W)
      → W
      → Sessions b.Client × W
  drop_idle alias s [] next w = next (b.close s.client w)
  drop_idle alias s (h ∷ rest) next w =
      let (m', w') = next w in ((alias, record s { holders = h ∷ rest }) ∷ m', w')

  -- `release`: the range over the map
  unfoldable pub release : ProcessKey → Sessions b.Client → W → Sessions b.Client × W
  release key [] w = ([], w)
  release key ((alias, s) ∷ m) w = elim (lookup key s.holders) [
    | none ↦ (let (m', w') = release key m w in ((alias, s) ∷ m', w'))
    | some u ↦ drop_idle alias s (erase key s.holders) (release key m) w
  ]

  -- one loop of `Close`
  unfoldable pub close_all : Sessions b.Client → W → Sessions b.Client × W
  close_all [] w = ([], w)
  close_all ((alias, s) ∷ m) w = close_all m (b.close s.client w)

module _ {W E : Type 0} (str : Strings) (bm : Bookmaker W E BetmaticCredentials)
    (bf : Bookmaker W E BetfairCredentials) where
  pub record Engine : Type 0 where
    pub betmatic : Sessions bm.Client
    pub betfair : Sessions bf.Client

  pub record Account : Type 0 where
    pub app : String
    pub user_id : String
    pub process_id : String
    pub bot_id : String
    pub bookmakers : List String
    pub betmatic : Option bm.Client
    pub betfair : Option bf.Client

  -- `New`
  unfoldable pub new : Engine
  new = record { betmatic = []; betfair = [] }

  -- `Account` from the Betfair claim on, with the account so far
  unfoldable pub account_betfair :
      ProcessKey
      → Option BetfairCredentials
      → Account
      → Engine
      → W
      → (Engine × W) × Result E Account
  account_betfair key none a e w = ((e, w), ok a)
  account_betfair key (some c) a e w =
      let ((m, w'), r) = claim str bf key c.username c e.betfair w in
      elim r [
        | ok client ↦ ((record e { betfair = m }, w'), ok (record a { betfair = some client }))
        | err x ↦
            (let (betmatic, w'') = release bm key e.betmatic w' in
              ((record { betmatic = betmatic; betfair = m }, w''), err x))
      ]

  abbrev pub bare_account : ProcessKey → Account
  bare_account key = record {
    app = key.app;
    user_id = key.user_id;
    process_id = key.process_id;
    bot_id = "";
    bookmakers = [];
    betmatic = none;
    betfair = none;
  }

  -- `Account`
  unfoldable pub account_betmatic :
      ProcessKey
      → Option BetmaticCredentials
      → Option BetfairCredentials
      → Engine
      → W
      → (Engine × W) × Result E Account
  account_betmatic key none bf_c e w = account_betfair key bf_c (bare_account key) e w
  account_betmatic key (some c) bf_c e w =
      let ((m, w'), r) = claim str bm key c.username c e.betmatic w in
      elim r [
        | err x ↦ ((record e { betmatic = m }, w'), err x)
        | ok client ↦
            account_betfair key bf_c
              (record (bare_account key) {
                betmatic = some client;
                bot_id = c.bot_id;
                bookmakers = c.bookmakers;
              })
              (record e { betmatic = m }) w'
      ]

  unfoldable pub account : ProcessKey → Credentials → Engine → W → (Engine × W) × Result E Account
  account key c e w = account_betmatic key c.betmatic c.betfair e w

  -- `Release`
  unfoldable pub release_both : ProcessKey → Engine → W → Engine × W
  release_both key e w =
      let (betmatic, w') = release bm key e.betmatic w in
      let (betfair, w'') = release bf key e.betfair w' in
      (record { betmatic = betmatic; betfair = betfair }, w'')

  -- `Close`
  unfoldable pub close : Engine → W → Engine × W
  close e w =
      let (betmatic, w') = close_all bm e.betmatic w in
      let (betfair, w'') = close_all bf e.betfair w' in
      (record { betmatic = betmatic; betfair = betfair }, w'')
