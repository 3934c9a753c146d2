-- ===== src/Auth/Login/Opens.antt =====
-- A login opens a session for whoever knows the password, a logout closes it
-- (backend/src/home_compass/main.py).
use Prim.Native.String.{◌++◌ as str_append}
use home_compass.Prelude.{
  ℕ, ◌+◌, String, ◌≡◌, ◌≢◌, refl, ◌∙◌, inl, inr, Bool, true, false, Option, none, some, [], ◌∷◌,
  ◌++◌, eq_refl, eq_iff, arith, Bool-cases,
}
use home_compass.Store.Models.{DateTime, Db, AuditEvent, User}
use home_compass.Store.Json.{Fields, end, field, str}
use home_compass.Store.Action.{Result, ok, err, store_error}
use home_compass.Store.Inserts.{append_event_cases}
use home_compass.Store.Validation.{strip}
use home_compass.Auth.Sessions.{Sessions, get_session, create}
use home_compass.Auth.Sessions.Expiry.{get-put}
use home_compass.Auth.Gate.{record_event}
use home_compass.Auth.Login.{
  LoginAnswer, signed_in, invalid_credentials, login_broken, account_of, actor_of, role_name,
  after_login, after_failure, refuse_login, sign_in, login_as, login_endpoint,
}

-- one event more in the log, and one text drawn
abbrev pub with_drawn : AuditEvent → Db → Db
with_drawn e db = record db { audit = db.audit ++ e ∷ []; draws = db.draws + 1 }

abbrev pub IsRecorded : String → String → DateTime → Db → Db → Type 0
IsRecorded action outcome now db db' =
    (e : AuditEvent) × (db' ≡ with_drawn e db)
    × (e.action ≡ action)
    × (e.outcome ≡ outcome)
    × (e.at ≡ now)

-- what holds of the two ends of `record` holds of it
pub record_event_ends :
    (uuid : ℕ → String) (actor : String) (now : DateTime) (action target outcome : String)
    (after : Option Fields) (db : Db) (P : Result AuditEvent × Db → Type 0)
    → ((e : AuditEvent) (db' : Db) → IsRecorded action outcome now db db' → P (ok e, db'))
    → P (err store_error, record db { draws = db.draws + 1 })
    → P (record_event uuid actor now action target outcome after db)
unfolding record_event
record_event_ends uuid actor now action target outcome after db P recorded refused =
    let event : AuditEvent = record {
      id = str_append action (str_append ":" (uuid db.draws));
      actor = actor;
      at = now;
      action = action;
      target = target;
      outcome = outcome;
      after = after;
    } in
    elim (append_event_cases event (record db { draws = db.draws + 1 })) [
      | inl e ↦ rw e (recorded event (with_drawn event db) (event, refl, refl, refl, refl))
      | inr e ↦ rw e refused
    ]

module _ (uuid : ℕ → String) (verify_password : String → String → Bool) where
  module _ (username password id token : String) (now : DateTime) (ss : Sessions) (db : Db) where
    abbrev name : String
    name = strip username

    abbrev pub IsLogin : LoginAnswer → Sessions → Db → Type 0
    IsLogin (signed_in s) ss' db' =
        (user : User) × (account_of name db ≡ some user)
        × (verify_password user.password_hash password ≡ true)
        × (s.username ≡ user.username)
        × (s.role ≡ user.role)
        × (get_session id ss' ≡ some s)
        × ((j : String) → j ≢ id → get_session j ss' ≡ get_session j ss)
        × IsRecorded "auth.login" "success" now db db'
    IsLogin invalid_credentials ss' db' =
        (ss' ≡ ss)
        × ((user : User)
            → account_of name db ≡ some user
            → verify_password user.password_hash password ≡ false)
        × IsRecorded "auth.login" "failure" now db db'
    IsLogin login_broken ss' db' = db' ≡ record db { draws = db.draws + 1 }

    refuse_login-IsLogin :
        ((user : User)
          → account_of name db ≡ some user
          → verify_password user.password_hash password ≡ false)
        → let (answer, ss', db') = refuse_login uuid name now ss db in IsLogin answer ss' db'
    refuse_login-IsLogin h =
        record_event_ends uuid (actor_of name) now "auth.login" (actor_of name) "failure"
          (some (field "reason" (str "invalid_credentials") end)) db
          (λ (r, db'). IsLogin (after_failure r) ss db') (λ e db' recorded. (refl, h, recorded))
          refl

    sign_in-IsLogin :
        (user : User)
        → account_of name db ≡ some user
        → verify_password user.password_hash password ≡ true
        → let (answer, ss', db') = sign_in uuid user id token now ss db in IsLogin answer ss' db'
    unfolding create
    sign_in-IsLogin user known good =
        let (s, ss') = create id token user now ss in
        record_event_ends uuid user.username now "auth.login" user.username "success"
          (some (field "role" (str (role_name user.role)) end)) db
          (λ (r, db'). IsLogin (after_login s r) ss' db')
          (λ e db' recorded. (
            user,
            known,
            good,
            refl,
            refl,
            get-put s id ss ∙ rw (eq_refl id) refl,
            λ j other. get-put s j ss ∙ ground (arith, eq_iff id j),
            recorded,
          ))
          refl

    login_as-IsLogin :
        (found : Option User)
        → account_of name db ≡ found
        → let (answer, ss', db') =
            login_as uuid verify_password found name password id token now ss db in
          IsLogin answer ss' db'
    login_as-IsLogin none e = refuse_login-IsLogin (λ user k. cc)
    login_as-IsLogin (some user) e =
        elim (Bool-cases (verify_password user.password_hash password)) [
          | inl good ↦ rw good (sign_in-IsLogin user e good)
          | inr bad ↦ rw bad (refuse_login-IsLogin (λ other k. cc))
        ]

    -- A login succeeds only for the account of that name whose stored hash verifies the password: the
    -- session then has the account's name and role and is held under its id, no other session
    -- changes, and one event says so. Where it is answered with invalid credentials there is no such
    -- account or the hash does not verify the password, no session changes and one event says
    -- so. Else the log did not take the event.
    pub login_endpoint-IsLogin :
        let (answer, ss', db') =
          login_endpoint uuid verify_password username password id token now ss db in
        IsLogin answer ss' db'
    unfolding login_endpoint
    login_endpoint-IsLogin = login_as-IsLogin (account_of name db) refl
