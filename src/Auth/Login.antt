-- ===== src/Auth/Login.antt =====
-- The login and the logout of backend/src/home_compass/main.py (`login_endpoint`, `logout_endpoint`,
-- `optional_session`). `verify_password` is a parameter, since argon2 decides there; the id and the
-- token of a session are what `secrets` draws.
pub mod Opens
pub mod Closes
use home_compass.Prelude.{ℕ, String, Bool, true, Option, none, some, ◌==◌, if◌then◌else◌}
use home_compass.Store.Models.{DateTime, Db, AuditEvent, User, Role}
use home_compass.Store.Json.{end, field, str}
use home_compass.Store.Action.{Result, ok, err}
use home_compass.Store.Approvals.{get_by_username}
use home_compass.Store.Validation.{strip}
use home_compass.Auth.Sessions.{Session, Sessions, Lookup, failed, create, resolve, delete}
use home_compass.Auth.Gate.{Denial, Request, Gate, pass, stop, crash, record_event, authorize}

-- what `login_endpoint` answers; `broken` is an error of the store that the framework answers
pub data LoginAnswer : Type 0 where
  signed_in : Session → LoginAnswer
  invalid_credentials login_broken : LoginAnswer

pub data LogoutAnswer : Type 0 where
  signed_out logout_broken : LogoutAnswer
  refused : Denial → LogoutAnswer

-- `username or ANONYMOUS_ACTOR`
abbrev pub actor_of : String → String
actor_of name = if name == "" then "anonymous" else name

-- `store.users.get_by_username(username) if username else None`
abbrev pub account_of : String → Db → Option User
account_of name db = if name == "" then none else get_by_username name db

abbrev pub after_login : Session → Result AuditEvent → LoginAnswer
after_login s (ok _) = signed_in s
after_login s (err _) = login_broken

abbrev pub after_failure : Result AuditEvent → LoginAnswer
after_failure (ok _) = invalid_credentials
after_failure (err _) = login_broken

abbrev pub after_logout : Result AuditEvent → LogoutAnswer
after_logout (ok _) = signed_out
after_logout (err _) = logout_broken

-- the text of a role in the event of a login
abbrev pub role_name : Role → String
role_name Role.citizen = "citizen"
role_name Role.counselor = "counselor"
role_name Role.rule_manager = "rule_manager"
role_name (Role.other name) = name

module _ (uuid : ℕ → String) where
  -- the branch of a login that did not verify
  abbrev pub refuse_login : String → DateTime → Sessions → Db → LoginAnswer × Sessions × Db
  refuse_login name now ss db =
      let (r, db') =
        record_event uuid (actor_of name) now "auth.login" (actor_of name) "failure"
          (some (field "reason" (str "invalid_credentials") end)) db in
      (after_failure r, ss, db')

  abbrev pub sign_in :
      User → String → String → DateTime → Sessions → Db → LoginAnswer × Sessions × Db
  sign_in user id token now ss db =
      let (s, ss') = create id token user now ss in
      let (r, db') =
        record_event uuid user.username now "auth.login" user.username "success"
          (some (field "role" (str (role_name user.role)) end)) db in
      (after_login s r, ss', db')

  abbrev pub sign_out : Gate → DateTime → Sessions → Db → LogoutAnswer × Sessions × Db
  sign_out (stop code) now ss db = (refused code, ss, db)
  sign_out crash now ss db = (logout_broken, ss, db)
  sign_out (pass s) now ss db =
      let ss' = (delete (some s.id) ss).1 in
      let (r, db') = record_event uuid s.username now "auth.logout" s.username "success" none db in
      (after_logout r, ss', db')

  -- `logout_endpoint`
  unfoldable pub logout_endpoint :
      Request → DateTime → ℕ → ℕ → Sessions → Db → LogoutAnswer × Sessions × Db
  logout_endpoint request now idle absolute ss db =
      let (gate, ss', db') = authorize uuid request "session.end" now idle absolute true ss db in
      sign_out gate now ss' db'

  module _ (verify_password : String → String → Bool) where
    abbrev pub login_as :
        Option User
        → String
        → String
        → String
        → String
        → DateTime
        → Sessions
        → Db
        → LoginAnswer × Sessions × Db
    login_as none name password id token now ss db = refuse_login name now ss db
    login_as (some user) name password id token now ss db =
        if verify_password user.password_hash password
        then sign_in user id token now ss db
        else refuse_login name now ss db

    -- `login_endpoint`
    unfoldable pub login_endpoint :
        String → String → String → String → DateTime → Sessions → Db → LoginAnswer × Sessions × Db
    login_endpoint username password id token now ss db =
        let name = strip username in login_as (account_of name db) name password id token now ss db

-- `optional_session`, which `session_endpoint` shows: a session, or an anonymous request
abbrev pub session_of : Lookup → Option Session
session_of (failed why) = none
session_of (Lookup.ok s) = some s

unfoldable pub optional_session : Request → DateTime → ℕ → ℕ → Sessions → Option Session × Sessions
optional_session request now idle absolute ss =
    let (found, ss') = resolve request.cookie now idle absolute ss in (session_of found, ss')
