-- ===== src/Engine/Sessions/Tests.antt =====
-- engine/engine.go on two processes that share a Betmatic account; the Betfair login fails.
use pegasus_suite.Prelude.{
  ◌≡◌, refl, ℕ, String, true, false, ◌&&◌, ◌||◌, not, some, [], ◌∷◌, ◌+◌, ◌-◌,
}
use pegasus_suite.Prelude.Assoc.{lookup}
use pegasus_suite.Clients.{ProcessKey, key_eq, ok, err}
use pegasus_suite.Engine.Sessions.{
  Bookmaker, BetmaticCredentials, BetfairCredentials, Credentials, Strings, Engine, account,
  release_both,
}
use pegasus_suite.Engine.Sessions.Holders.{holds, none_idle}
use pegasus_suite.Engine.Sessions.Accounts.{is_ok, account_claims, release_both_lem}

abbrev strings : Strings
strings = record { to_lower = λ s. s; trim_space = λ s. s }

-- the world counts the sessions opened and not closed
abbrev betmatic_client : Bookmaker ℕ String BetmaticCredentials
betmatic_client = record {
  Client = String;
  dial = λ c w. (w + 1, ok c.username);
  start_token_refresh = λ c w. w;
  close = λ c w. w - 1;
}

abbrev betfair_client : Bookmaker ℕ String BetfairCredentials
betfair_client = record {
  Client = String;
  dial = λ c w. (w, err "refused");
  start_token_refresh = λ c w. w;
  close = λ c w. w - 1;
}

abbrev process_a : ProcessKey
process_a = record { app = "pegasus"; user_id = "u"; process_id = "a" }

abbrev process_b : ProcessKey
process_b = record { app = "pegasus"; user_id = "u"; process_id = "b" }

abbrev both_accounts : Credentials
both_accounts = record {
  betmatic = some (record { username = "joe"; password = "p"; bot_id = "1"; bookmakers = [] });
  betfair = some (record { username = "joe"; password = "p"; app_key = "k"; cert = "c" });
}

abbrev shared : Engine strings betmatic_client betfair_client
shared = record {
  betmatic = ("joe", record { client = "joe"; holders = (process_a, tt) ∷ [] }) ∷ [];
  betfair = [];
}

b_holds_none : holds process_b shared.betmatic ≡ false
unfolding holds lookup
b_holds_none = refl

shared_in_use : none_idle shared.betmatic ≡ true
unfolding none_idle
shared_in_use = refl

none_in_use : none_idle shared.betfair ≡ true
unfolding none_idle
none_in_use = refl

account_claims_example :
    let ((e', w'), r) =
      account strings betmatic_client betfair_client process_b both_accounts shared 1 in
    (holds process_a e'.betmatic
      ≡ (holds process_a shared.betmatic || is_ok r && true && key_eq.beq process_b process_a))
    × (holds process_a e'.betfair
        ≡ (holds process_a shared.betfair || is_ok r && true && key_eq.beq process_b process_a))
account_claims_example =
    account_claims strings betmatic_client betfair_client process_b process_a both_accounts shared 1
      b_holds_none

release_both_lem_example :
    let (e', w') = release_both strings betmatic_client betfair_client process_a shared 1 in
    (holds process_b e'.betmatic
      ≡ (holds process_b shared.betmatic && not (key_eq.beq process_a process_b)))
    × (holds process_b e'.betfair
        ≡ (holds process_b shared.betfair && not (key_eq.beq process_a process_b)))
    × (none_idle e'.betmatic ≡ true)
    × (none_idle e'.betfair ≡ true)
release_both_lem_example =
    release_both_lem strings betmatic_client betfair_client process_a process_b shared 1
      shared_in_use none_in_use
