-- ===== src/Auth/Sessions/Life.antt =====
-- A session from its login to its logout (backend/src/home_compass/auth.py).
use home_compass.Prelude.{
  ℕ, ◌+◌, ◌<◌, String, ◌≡◌, ◌≢◌, refl, false, none, some, arith, ◌==◌, eq_refl, ◌⊎◌, inl, inr, true,
  Bool-cases, Option-cases,
}
use home_compass.Store.Models.{DateTime, User}
use home_compass.Auth.Sessions.{
  Session, Sessions, get_session, put_session, drop_session, failed, ok, absent, expired,
  microseconds, create, resolve, delete,
}
use home_compass.Auth.Sessions.Expiry.{get_id, get-put, get-drop_self, get-drop_ne, resolve_exact}

module _ (id : String) (named : (id == "") ≡ false) (ss : Sessions) where
  -- A session that was created is let in by its id until one of the limits has passed since then, with
  -- the role and the CSRF token of its creation.
  pub create_opens :
      (token : String) (user : User) (now later : DateTime) (idle absolute : ℕ)
      → later.instant < now.instant + microseconds idle
      → later.instant < now.instant + microseconds absolute
      → let (s, opened) = create id token user now ss in
        (resolve (some id) later idle absolute opened).0 ≡ ok (record s { last_seen_at = later })
  unfolding create resolve
  create_opens token user now later idle absolute used young =
      let s : Session = (create id token user now ss).0 in
      let there : get_session id (put_session s ss) ≡ some s =
        ground (arith, get-put s id ss, eq_refl id) in
      let old : expired now later absolute ≡ false = ground (arith, young) in
      let unused : expired now later idle ≡ false = ground (arith, used) in
      rw (named, there, old, unused) refl

  -- the cookie of a session that is gone finds nothing
  pub delete-absent :
      (later : DateTime) (idle absolute : ℕ)
      → (resolve (some id) later idle absolute (delete (some id) ss).1).0 ≡ failed absent
  unfolding delete resolve
  delete-absent later idle absolute =
      let gone : get_session id (drop_session id ss) ≡ none = get-drop_self id ss in
      rw (named, gone) refl

  pub get-delete : (j : String) → j ≢ id → get_session j (delete (some id) ss).1 ≡ get_session j ss
  unfolding delete
  get-delete j other = rw named (get-drop_ne id j ss other)

  -- A logout gives back the session that was held, its cookie finds no session at any later time
  -- under any limits, and no other session changes.
  delete_revokes :
      (later : DateTime) (idle absolute : ℕ) (j : String)
      → j ≢ id
      → let (held, left) = delete (some id) ss in
        (held ≡ get_session id ss)
        × ((resolve (some id) later idle absolute left).0 ≡ failed absent)
        × (get_session j left ≡ get_session j ss)
  unfolding delete resolve
  delete_revokes later idle absolute j other =
      let gone : get_session id (drop_session id ss) ≡ none = get-drop_self id ss in
      rw (named, gone) (refl, refl, get-drop_ne id j ss other)

-- a cookie without a session finds none
resolve-absent :
    (id : String) (now : DateTime) (idle absolute : ℕ) (ss : Sessions)
    → ((id == "") ≡ true) ⊎ (get_session id ss ≡ none)
    → (resolve (some id) now idle absolute ss).0 ≡ failed absent
unfolding resolve
resolve-absent id now idle absolute ss (inl e) = rw e refl
resolve-absent id now idle absolute ss (inr e) = elim (Bool-cases (id == "")) [
  | inl b ↦ rw b refl
  | inr b ↦ rw (b, e) refl
]

-- a session that is let in has the cookie's id
pub resolved_id :
    (id : String) (now : DateTime) (idle absolute : ℕ) (ss : Sessions) (s : Session)
    → (resolve (some id) now idle absolute ss).0 ≡ ok s
    → ((id == "") ≡ false) × (s.id ≡ id)
resolved_id id now idle absolute ss s h = elim (Bool-cases (id == "")) [
  | inl b ↦ let refused = resolve-absent id now idle absolute ss (inl b) in cc
  | inr b ↦ elim (Option-cases (get_session id ss)) [
    | inl e ↦ let refused = resolve-absent id now idle absolute ss (inr e) in cc
    | inr (held, e) ↦
        let same : held.id ≡ id = get_id id ss held e in
        elim (resolve_exact id now idle absolute ss b held e).0 [
          | inl (k, _, _, _) ↦ (b, cc)
          | inr (inl (k, _, _)) ↦ absurd cc
          | inr (inr (k, _, _, _)) ↦ absurd cc
        ]
  ]
]
