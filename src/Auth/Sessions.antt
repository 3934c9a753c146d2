-- ===== src/Auth/Sessions.antt =====
-- `Session` and `SessionStore` of backend/src/home_compass/auth.py. The ledger is a dict keyed by
-- session ids; times are instants in microseconds. Random tokens are arguments.
pub mod Expiry
pub mod Life
use home_compass.Prelude.{
  ℕ, ◌+◌, ◌*◌, String, Bool, Option, none, some, List, [], ◌∷◌, ◌==◌, leb, if◌then◌else◌,
  find_where, filter_where, is_none, update_where, ◌++◌, not,
}
use home_compass.Store.Models.{DateTime, Role, User}

pub record Session : Type 0 where
  pub id : String
  pub user_id : String
  pub username : String
  pub role : Role
  pub csrf_token : String
  pub created_at : DateTime
  pub last_seen_at : DateTime

-- `SessionStore._sessions`
abbrev pub Sessions : Type 0
Sessions = List Session

abbrev pub has_session_id : String → Session → Bool
has_session_id id s = s.id == id

unfoldable pub get_session : String → Sessions → Option Session
get_session id ss = find_where (has_session_id id) ss

-- self._sessions[session.id] = session
unfoldable pub put_session : Session → Sessions → Sessions
put_session s [] = s ∷ []
put_session s (t ∷ ss) = if t.id == s.id then s ∷ ss else t ∷ put_session s ss

-- del self._sessions[session_id], pop(session_id, None)
unfoldable pub drop_session : String → Sessions → Sessions
drop_session id ss = filter_where (λ s. not (has_session_id id s)) ss

-- `SessionStore.create`, with the session id and the CSRF token that `secrets` has drawn
unfoldable pub create : String → String → User → DateTime → Sessions → Session × Sessions
create id token user now ss =
    let s : Session = record {
      id = id;
      user_id = user.id;
      username = user.username;
      role = user.role;
      csrf_token = token;
      created_at = now;
      last_seen_at = now;
    } in
    (s, put_session s ss)

pub data Reason : Type 0 where
  absent idle_expired absolute_expired : Reason

-- `SessionLookup`: a session, or the reason why there is none
pub data Lookup : Type 0 where
  ok : Session → Lookup
  failed : Reason → Lookup

abbrev pub microseconds : ℕ → ℕ
microseconds seconds = seconds * 1_000_000

-- `now - since >= timedelta(seconds=limit)`
abbrev pub expired : DateTime → DateTime → ℕ → Bool
expired since now limit = leb (since.instant + microseconds limit) now.instant

-- the part of `resolve` under the lock, on what the ledger holds
resolve_found : DateTime → ℕ → ℕ → Option Session → Sessions → Lookup × Sessions
resolve_found now idle absolute none ss = (failed absent, ss)
resolve_found now idle absolute (some s) ss =
    if expired s.created_at now absolute
    then (failed absolute_expired, drop_session s.id ss)
    else if expired s.last_seen_at now idle
    then (failed idle_expired, drop_session s.id ss)
    else (let refreshed = record s { last_seen_at = now } in
        (ok refreshed, put_session refreshed ss))

-- `SessionStore.resolve`: a cookie that is missing or empty finds nothing
unfoldable pub resolve : Option String → DateTime → ℕ → ℕ → Sessions → Lookup × Sessions
unfolding resolve_found
resolve none now idle absolute ss = (failed absent, ss)
resolve (some id) now idle absolute ss =
    if id == "" then (failed absent, ss) else resolve_found now idle absolute (get_session id ss) ss

-- `SessionStore.delete`
unfoldable pub delete : Option String → Sessions → Option Session × Sessions
delete none ss = (none, ss)
delete (some id) ss = if id == "" then (none, ss) else (get_session id ss, drop_session id ss)
