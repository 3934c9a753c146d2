-- ===== src/Auth/Gate.antt =====
-- `authorize` of backend/src/home_compass/main.py, with the denials that it puts into the audit log.
pub mod Admits
use Prim.Native.String.{◌++◌ as str_append}
use home_compass.Prelude.{ℕ, ◌+◌, String, Bool, not, ◌&&◌, Option, some, if◌then◌else◌}
use home_compass.Store.Models.{DateTime, Db, AuditEvent}
use home_compass.Store.Json.{Fields, end, field, str}
use home_compass.Store.Action.{Result, ok, err}
use home_compass.Store.Audit.{append_event}
use home_compass.Auth.Sessions.{
  Session, Sessions, Lookup, failed, Reason, absent, idle_expired, absolute_expired, resolve,
}
use home_compass.Auth.Permissions.{allows, csrf_matches}

-- `AuthError`: the code that the client reads
pub data Denial : Type 0 where
  unauthenticated session_expired forbidden csrf_failed : Denial

abbrev pub http_status : Denial → ℕ
http_status unauthenticated = 401
http_status session_expired = 401
http_status forbidden = 403
http_status csrf_failed = 403

abbrev pub code_of : Denial → String
code_of unauthenticated = "unauthenticated"
code_of session_expired = "session_expired"
code_of forbidden = "forbidden"
code_of csrf_failed = "csrf_failed"

-- `unauthenticated_error`
abbrev pub denial_of : Reason → Denial
denial_of absent = unauthenticated
denial_of idle_expired = session_expired
denial_of absolute_expired = session_expired

-- What a request carries: the session cookie and the CSRF header.
pub record Request : Type 0 where
  pub cookie : Option String
  pub csrf_header : Option String

-- The verdict of `authorize`, before anything is written: who is let in, or the denial and the actor
-- that the log names.
pub data Admission : Type 0 where
  admitted : Session → Admission
  denied : String → Denial → Admission

abbrev admit : Request → String → Bool → Session → Admission
admit request action require_csrf s =
    if not (allows action (some s.role))
    then denied s.username forbidden
    else if require_csrf && not (csrf_matches s request.csrf_header)
    then denied s.username csrf_failed
    else admitted s

admit_lookup : Request → String → Bool → Lookup → Admission
admit_lookup request action require_csrf (failed why) = denied "anonymous" (denial_of why)
admit_lookup request action require_csrf (Lookup.ok s) = admit request action require_csrf s

-- What the caller of `authorize` meets: a session, a denial, or an error of the store.
pub data Gate : Type 0 where
  pass : Session → Gate
  stop : Denial → Gate
  crash : Gate

module _ (uuid : ℕ → String) where
  -- `record` of auth.py: one event, with a fresh id
  unfoldable pub record_event :
      String → DateTime → String → String → String → Option Fields → Db → Result AuditEvent × Db
  record_event actor now action target outcome after db =
      append_event
        (record {
          id = str_append action (str_append ":" (uuid db.draws));
          actor = actor;
          at = now;
          action = action;
          target = target;
          outcome = outcome;
          after = after;
        })
        (record db { draws = db.draws + 1 })

  -- `_record_denial`
  unfoldable pub record_denial : String → DateTime → String → Denial → Db → Result AuditEvent × Db
  record_denial actor now action code =
      record_event actor now "authz.denied" action "denied"
        (some (field "reason" (str (code_of code)) end))

  after_record : Denial → Result AuditEvent × Db → Gate × Db
  after_record code (ok _, db) = (stop code, db)
  after_record code (err _, db) = (crash, db)

  finish : DateTime → String → Admission → Db → Gate × Db
  finish now action (admitted s) db = (pass s, db)
  finish now action (denied actor code) db =
      after_record code (record_denial actor now action code db)

  -- `authorize`: authentication, then permission, then CSRF
  unfoldable pub authorize :
      Request → String → DateTime → ℕ → ℕ → Bool → Sessions → Db → Gate × Sessions × Db
  unfolding admit_lookup finish after_record
  authorize request action now idle absolute require_csrf ss db =
      let (found, ss') = resolve request.cookie now idle absolute ss in
      let (gate, db') = finish now action (admit_lookup request action require_csrf found) db in
      (gate, ss', db')
