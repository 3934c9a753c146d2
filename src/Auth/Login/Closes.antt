-- ===== src/Auth/Login/Closes.antt =====
-- A logout closes the session of its cookie (`logout_endpoint` of backend/src/home_compass/main.py).
use mathlib.Core.Path.{subst}
use home_compass.Prelude.{ℕ, ◌+◌, String, ◌≡◌, ◌≢◌, refl, true, Option, none, some}
use home_compass.Store.Models.{DateTime, Db}
use home_compass.Auth.Sessions.{
  Session, Sessions, get_session, Lookup, failed, absent, resolve, delete,
}
use home_compass.Auth.Sessions.Life.{resolved_id, delete-absent, get-delete}
use home_compass.Auth.Permissions.{csrf_matches}
use home_compass.Auth.Gate.{Request, Gate, pass, stop, crash, authorize}
use home_compass.Auth.Gate.Admits.{Gated, authorize-Gated}
use home_compass.Auth.Login.{
  LogoutAnswer, signed_out, logout_broken, refused, after_logout, sign_out, logout_endpoint,
}
use home_compass.Auth.Login.Opens.{IsRecorded, record_event_ends}

module _ (uuid : ℕ → String) (id : String) (header : Option String) (now : DateTime)
    (idle absolute : ℕ) (ss : Sessions) (db : Db) where
  abbrev request : Request
  request = record { cookie = some id; csrf_header = header }

  abbrev looked_up : Lookup × Sessions
  looked_up = resolve (some id) now idle absolute ss

  abbrev pub IsLogout : LogoutAnswer → Sessions → Db → Type 0
  IsLogout signed_out ss' db' =
      (s : Session) × (looked_up.0 ≡ Lookup.ok s)
      × (csrf_matches s header ≡ true)
      × ((later : DateTime) (idle' absolute' : ℕ)
          → (resolve (some id) later idle' absolute' ss').0 ≡ failed absent)
      × ((j : String) → j ≢ id → get_session j ss' ≡ get_session j looked_up.1)
      × IsRecorded "auth.logout" "success" now db db'
  IsLogout logout_broken ss' db' = db' ≡ record db { draws = db.draws + 1 }
  IsLogout (refused code) ss' db' = ss' ≡ looked_up.1

  sign_out-IsLogout :
      (gate : Gate) (db' : Db)
      → Gated uuid request "session.end" now idle absolute true ss db gate db'
      → let (answer, left, db'') = sign_out uuid gate now looked_up.1 db' in
        IsLogout answer left db''
  sign_out-IsLogout (stop code) db' h = refl
  sign_out-IsLogout crash db' h = h
  sign_out-IsLogout (pass s) db' (found, may, checked, same) =
      let (named, held) = resolved_id id now idle absolute ss s found in
      let left = looked_up.1 in
      record_event_ends uuid s.username now "auth.logout" s.username "success" none db'
        (λ (r, db''). IsLogout (after_logout r) (delete (some s.id) left).1 db'')
        (λ e db'' recorded. (
          s,
          found,
          checked refl,
          rw held (delete-absent id named left),
          rw held (get-delete id named left),
          subst (λ d. IsRecorded "auth.logout" "success" now d db'') same recorded,
        ))
        (rw same refl)

  -- A logout that is answered with success had the cookie of a live session and its CSRF token: the
  -- cookie finds no session at any later time under any limits, no other session changes, and one
  -- event says so. A refused one leaves the sessions as the check of the cookie left them.
  pub logout_endpoint-IsLogout :
      let (answer, ss', db') = logout_endpoint uuid request now idle absolute ss db in
      IsLogout answer ss' db'
  unfolding logout_endpoint authorize
  logout_endpoint-IsLogout =
      sign_out-IsLogout _ _
        (authorize-Gated uuid request "session.end" now idle absolute true ss db)
