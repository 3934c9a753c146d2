-- ===== src/Auth/Seeds/Idempotent.antt =====
-- A second start changes no account (backend/src/home_compass/auth.py).
use home_compass.Prelude.{
  ℕ, String, ◌≡◌, refl, ◌∙◌, ◌⊎◌, inl, inr, Option, none, some, List, [], ◌∷◌, ◌++◌, map, ◌==◌,
  eq_refl, arith, All, find_where, find-append,
}
use home_compass.Store.Models.{DateTime, at_utc, Db, User}
use home_compass.Store.Action.{Action, ok, err, store_error, pure, ◌>>=◌, bind_ok, bind_err}
use home_compass.Store.Approvals.{get_by_username, add_user}
use home_compass.Auth.Seeds.{
  SeedAccount, SeedAccountResult, Startup, seed_user, kept_result, created_result, seed_found,
  seed_account, seed_all, seed_accounts, ensure_seed_accounts,
}

abbrev pub HasAccount : Db → SeedAccount → Type 0
HasAccount db account = (user : User) × (get_by_username account.username db ≡ some user)

-- an account that is there is left as it is
seed_account_kept :
    (startup : Startup) (now : DateTime) (account : SeedAccount) (db : Db)
    → HasAccount db account
    → seed_account startup now account db ≡ (ok (kept_result startup account), db)
unfolding seed_account
seed_account_kept startup now account db (user, e) = rw e refl

seed_all_kept :
    (startup : Startup) (now : DateTime) (accounts : List SeedAccount) (db : Db)
    → All (HasAccount db) accounts
    → seed_all startup now accounts db ≡ (ok (map (kept_result startup) accounts), db)
unfolding seed_all
seed_all_kept startup now [] db h = refl
seed_all_kept startup now (account ∷ accounts) db h =
    let kept = kept_result startup account in
    bind_ok (seed_account startup now account)
      (λ r. seed_all startup now accounts >>= λ rs. pure (r ∷ rs)) db db kept
      (seed_account_kept startup now account db h.0)
    ∙ bind_ok (seed_all startup now accounts) (λ rs. pure (kept ∷ rs)) db db
        (map (kept_result startup) accounts) (seed_all_kept startup now accounts db h.1)

abbrev with_user : User → Db → Db
with_user user db = record db { users = db.users ++ user ∷ [] }

add_user_cases :
    (user : User) (db : Db)
    → (add_user user db ≡ (ok user, with_user user db)) ⊎ (add_user user db ≡ (err store_error, db))
unfolding add_user
add_user_cases user db = ground arith

-- the accounts of the first are in the second
abbrev pub Extends : Db → Db → Type 0
Extends db db' =
    (name : String) (user : User)
    → get_by_username name db ≡ some user
    → get_by_username name db' ≡ some user

with_user-Extends : (user : User) (db : Db) → Extends db (with_user user db)
unfolding get_by_username
with_user-Extends user db name old e =
    find-append (λ (u : User). u.username == name) db.users (user ∷ []) ∙ rw e refl

with_user_found :
    (user : User) (db : Db)
    → get_by_username user.username db ≡ none
    → get_by_username user.username (with_user user db) ≡ some user
unfolding get_by_username find_where
with_user_found user db e =
    find-append (λ (u : User). u.username == user.username) db.users (user ∷ [])
    ∙ rw (e, eq_refl user.username) refl

-- what a start leaves: every account is there, and those that were there still are
abbrev pub Seeds : {A : Type 0} → List SeedAccount → Action A → Db → Type 0
Seeds {A} accounts m db =
    ((r : A) × (db' : Db) × (m db ≡ (ok r, db')) × All (HasAccount db') accounts × Extends db db')
    ⊎ ((db' : Db) × (m db ≡ (err store_error, db')))

seed_found-Seeds :
    (startup : Startup) (now : DateTime) (account : SeedAccount) (db : Db) (found : Option User)
    → get_by_username account.username db ≡ found
    → Seeds (account ∷ []) (seed_found startup now account found) db
seed_found-Seeds startup now account db (some user) e =
    inl (kept_result startup account, db, refl, ((user, e), tt), λ name u k. k)
seed_found-Seeds startup now account db none e =
    let user = seed_user startup now account in
    elim (add_user_cases user db) [
      | inl k ↦ inl (
        created_result startup account,
        with_user user db,
        bind_ok (add_user user) (λ _. pure (created_result startup account)) db (with_user user db)
            user k,
        ((user, with_user_found user db e), tt),
        with_user-Extends user db,
      )
      | inr k ↦ inr (
        db,
        bind_err (add_user user) (λ _. pure (created_result startup account)) db db store_error k,
      )
    ]

seed_account-Seeds :
    (startup : Startup) (now : DateTime) (account : SeedAccount) (db : Db)
    → Seeds (account ∷ []) (seed_account startup now account) db
unfolding seed_account
seed_account-Seeds startup now account db =
    seed_found-Seeds startup now account db (get_by_username account.username db) refl

seed_all-Seeds :
    (startup : Startup) (now : DateTime) (accounts : List SeedAccount) (db : Db)
    → Seeds accounts (seed_all startup now accounts) db
unfolding seed_all
seed_all-Seeds startup now [] db = inl ([], db, refl, tt, λ name u k. k)
seed_all-Seeds startup now (account ∷ accounts) db =
    let next : SeedAccountResult → Action (List SeedAccountResult) =
      λ r. seed_all startup now accounts >>= λ rs. pure (r ∷ rs) in
    elim (seed_account-Seeds startup now account db) [
      | inr (db', e) ↦
          inr (db', bind_err (seed_account startup now account) next db db' store_error e)
      | inl (r, db', e, there, ext) ↦
          let first = bind_ok (seed_account startup now account) next db db' r e in
          elim (seed_all-Seeds startup now accounts db') [
            | inr (db'', e') ↦ inr (
              db'',
              first
                  ∙ bind_err (seed_all startup now accounts) (λ rs. pure (r ∷ rs)) db' db''
                      store_error e',
            )
            | inl (rs, db'', e', rest, ext') ↦ inl (
              r ∷ rs,
              db'',
              first ∙ bind_ok (seed_all startup now accounts) (λ rs. pure (r ∷ rs)) db' db'' rs e',
              ((there.0.0, ext' account.username there.0.0 there.0.1), rest),
              λ name u k. ext' name u (ext name u k),
            )
          ]
    ]

seeded_fresh :
    (startup : Startup) (instant : ℕ) (db : Db)
    → ensure_seed_accounts startup (at_utc instant) (record db { users = [] }) ≡ (
      ok (map (created_result startup) seed_accounts),
      record db { users = map (seed_user startup (at_utc instant)) seed_accounts },
    )
unfolding ensure_seed_accounts seed_all seed_account add_user get_by_username find_where
seeded_fresh startup instant db = refl

-- On a store without users and at a time with a zone a start creates the two accounts, each with the
-- hash of the password of its environment variable or, without one, of a drawn one that the
-- result gives out. Whatever the store holds: a start that returns leaves every account that was
-- there, and any later start on its tables, with any environment, changes nothing and gives out
-- no password; a start that raises is refused by the store.
pub ensure_seed_accounts-Seeds :
    (startup : Startup) (instant : ℕ) (now : DateTime) (db : Db)
    → (ensure_seed_accounts startup (at_utc instant) (record db { users = [] }) ≡ (
      ok (map (created_result startup) seed_accounts),
      record db { users = map (seed_user startup (at_utc instant)) seed_accounts },
    ))
      × (((rs : List SeedAccountResult) × (db' : Db) × (ensure_seed_accounts startup now db
              ≡ (ok rs, db'))
            × Extends db db'
            × ((later : Startup) (then' : DateTime)
                → ensure_seed_accounts later then' db'
                  ≡ (ok (map (kept_result later) seed_accounts), db')))
          ⊎ ((db' : Db) × (ensure_seed_accounts startup now db ≡ (err store_error, db'))))
unfolding ensure_seed_accounts
ensure_seed_accounts-Seeds startup instant now db = (
  seeded_fresh startup instant db,
  elim (seed_all-Seeds startup now seed_accounts db) [
    | inl (rs, db', e, there, ext) ↦
        inl (rs, db', e, ext, λ later then'. seed_all_kept later then' seed_accounts db' there)
    | inr (db', e) ↦ inr (db', e)
  ],
)
