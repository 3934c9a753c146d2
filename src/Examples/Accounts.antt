-- ===== src/Examples/Accounts.antt =====
-- The theorems on logins, logouts and the seeded accounts at examples.
use home_compass.Prelude.{
  String, ◌≡◌, ◌⊎◌, Bool, ◌==◌, none, some, List, [], ◌∷◌, map, if◌then◌else◌,
}
use home_compass.Store.Models.{DateTime, Db, at_utc, User, rule_manager}
use home_compass.Store.Action.{ok, err, store_error}
use home_compass.Auth.Login.{login_endpoint, logout_endpoint}
use home_compass.Auth.Login.Opens.{IsLogin, login_endpoint-IsLogin}
use home_compass.Auth.Login.Closes.{IsLogout, logout_endpoint-IsLogout}
use home_compass.Auth.Seeds.{
  SeedAccountResult, Startup, seed_user, kept_result, created_result, seed_accounts,
  ensure_seed_accounts,
}
use home_compass.Auth.Seeds.Idempotent.{Extends, ensure_seed_accounts-Seeds}
use home_compass.Examples.{tables, noon, morning, sessions, outside, request_of}

abbrev known : User
known = record {
  id = "user:1";
  username = "manager";
  role = rule_manager;
  password_hash = "secret";
  created_at = morning;
}

abbrev peopled : Db
peopled = record tables { users = known ∷ [] }

abbrev plain : String → String → Bool
plain stored raw = stored == raw

login_endpoint-IsLogin_example :
    let r =
      login_endpoint outside.uuid plain " manager " "secret" "cookie:3" "token:3" noon sessions
        peopled in
    IsLogin outside.uuid plain " manager " "secret" "cookie:3" "token:3" noon sessions peopled r.0
      r.1 r.2
login_endpoint-IsLogin_example =
    login_endpoint-IsLogin outside.uuid plain " manager " "secret" "cookie:3" "token:3" noon
      sessions peopled

logout_endpoint-IsLogout_example :
    let r = logout_endpoint outside.uuid (request_of "cookie") noon 28_800 86_400 sessions tables in
    IsLogout outside.uuid "cookie" (some "token") noon 28_800 86_400 sessions tables r.0 r.1 r.2
logout_endpoint-IsLogout_example =
    logout_endpoint-IsLogout outside.uuid "cookie" (some "token") noon 28_800 86_400 sessions tables

abbrev startup : Startup
startup = record {
  environ = λ name. if name == "HOME_COMPASS_SEED_COUNSELOR_PASSWORD" then some "chosen" else none;
  hash_password = λ raw. raw;
  drawn = λ name. "drawn";
}

ensure_seed_accounts-Seeds_example :
    (ensure_seed_accounts startup (at_utc 7) (record peopled { users = [] }) ≡ (
      ok (map (created_result startup) seed_accounts),
      record peopled { users = map (seed_user startup (at_utc 7)) seed_accounts },
    ))
    × (((rs : List SeedAccountResult) × (db' : Db) × (ensure_seed_accounts startup noon peopled
            ≡ (ok rs, db'))
          × Extends peopled db'
          × ((later : Startup) (then' : DateTime)
              → ensure_seed_accounts later then' db'
                ≡ (ok (map (kept_result later) seed_accounts), db')))
        ⊎ ((db' : Db) × (ensure_seed_accounts startup noon peopled ≡ (err store_error, db'))))
ensure_seed_accounts-Seeds_example = ensure_seed_accounts-Seeds startup 7 noon peopled
