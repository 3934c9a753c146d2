-- ===== src/Auth/Seeds.antt =====
-- The two accounts of the service (`ensure_seed_accounts` of backend/src/home_compass/auth.py). The hash of a
-- password is a parameter (argon2), as are the environment and the password that `secrets` draws
-- for an account. What is printed is a function of the results.
pub mod Idempotent
use Prim.Native.String.{◌++◌ as str_append}
use home_compass.Prelude.{
  String, Bool, true, false, not, Option, none, some, List, [], ◌∷◌, ◌==◌, if◌then◌else◌,
  filter_where,
}
use home_compass.Store.Models.{DateTime, Db, User, Role, counselor, rule_manager}
use home_compass.Store.Action.{Action, pure, gets, ◌>>=◌}
use home_compass.Store.Approvals.{get_by_username, add_user}
use home_compass.Store.Validation.{strip}

pub record SeedAccount : Type 0 where
  pub username : String
  pub role : Role
  pub env_var : String

abbrev pub seed_accounts : List SeedAccount
seed_accounts =
    record {
      username = "counselor";
      role = counselor;
      env_var = "HOME_COMPASS_SEED_COUNSELOR_PASSWORD";
    }
    ∷ record {
      username = "rulemanager";
      role = rule_manager;
      env_var = "HOME_COMPASS_SEED_RULE_MANAGER_PASSWORD";
    }
    ∷ []

pub record SeedAccountResult : Type 0 where
  pub username : String
  pub role : Role
  pub created : Bool
  pub generated_password : Option String
  pub injected_password_ignored : Bool

-- what the process has: its environment, the hash, and a drawn password for each account
pub record Startup : Type 0 where
  pub environ : String → Option String
  pub hash_password : String → String
  pub drawn : String → String

-- (env.get(account.env_var) or "").strip()
abbrev pub trimmed : Option String → String
trimmed none = ""
trimmed (some s) = strip s

abbrev pub injected : Startup → SeedAccount → String
injected startup account = trimmed (startup.environ account.env_var)

abbrev pub generated : Startup → SeedAccount → Option String
generated startup account =
    if injected startup account == "" then some (startup.drawn account.username) else none

-- injected or generated
abbrev pub password_of : Startup → SeedAccount → String
password_of startup account =
    if injected startup account == ""
    then startup.drawn account.username
    else injected startup account

abbrev pub seed_user : Startup → DateTime → SeedAccount → User
seed_user startup now account = record {
  id = str_append "user:" account.username;
  username = account.username;
  role = account.role;
  password_hash = startup.hash_password (password_of startup account);
  created_at = now;
}

abbrev pub kept_result : Startup → SeedAccount → SeedAccountResult
kept_result startup account = record {
  username = account.username;
  role = account.role;
  created = false;
  generated_password = none;
  injected_password_ignored = not (injected startup account == "");
}

abbrev pub created_result : Startup → SeedAccount → SeedAccountResult
created_result startup account = record {
  username = account.username;
  role = account.role;
  created = true;
  generated_password = generated startup account;
  injected_password_ignored = false;
}

abbrev pub seed_found : Startup → DateTime → SeedAccount → Option User → Action SeedAccountResult
seed_found startup now account (some user) = pure (kept_result startup account)
seed_found startup now account none = do
  _ ← add_user (seed_user startup now account)
  pure (created_result startup account)

unfoldable pub seed_account : Startup → DateTime → SeedAccount → Action SeedAccountResult
seed_account startup now account = do
  found ← gets (get_by_username account.username)
  seed_found startup now account found

-- the loop over the accounts
unfoldable pub seed_all : Startup → DateTime → List SeedAccount → Action (List SeedAccountResult)
seed_all startup now [] = pure []
seed_all startup now (account ∷ accounts) = do
  r ← seed_account startup now account
  rs ← seed_all startup now accounts
  pure (r ∷ rs)

-- `ensure_seed_accounts`
unfoldable pub ensure_seed_accounts : Startup → DateTime → Action (List SeedAccountResult)
ensure_seed_accounts startup now = seed_all startup now seed_accounts

-- the accounts that the two announcements name
abbrev pub is_ignored : SeedAccountResult → Bool
is_ignored r = r.injected_password_ignored

abbrev pub ignored : List SeedAccountResult → List SeedAccountResult
ignored rs = filter_where is_ignored rs
