-- ===== src/Auth/Sessions/Expiry.antt =====
-- Sessions expire, and an expired session is gone (SPEC 6.3).
use home_compass.Prelude.{
  ℕ, ◌+◌, ◌<◌, ◌≤◌, String, ◌≡◌, ◌≢◌, refl, ◌⊎◌, false, none, some, [], ◌∷◌, arith, eq_iff, ◌==◌,
  if◌then◌else◌, find_where, filter_where, find_passes,
}
use home_compass.Store.Models.{DateTime}
use home_compass.Auth.Sessions.{
  Session, Sessions, has_session_id, get_session, put_session, drop_session, Lookup, failed, ok,
  absolute_expired, idle_expired, microseconds, resolve,
}

pub get-drop_self : (id : String) (ss : Sessions) → get_session id (drop_session id ss) ≡ none
unfolding get_session drop_session find_where filter_where
get-drop_self id [] = refl
get-drop_self id (s ∷ ss) = ground (arith, get-drop_self id ss)

pub get-drop_ne :
    (id j : String) (ss : Sessions) → j ≢ id → get_session j (drop_session id ss) ≡ get_session j ss
unfolding get_session drop_session find_where filter_where
get-drop_ne id j [] n = refl
get-drop_ne id j (s ∷ ss) n = ground (arith, get-drop_ne id j ss n, eq_iff s.id id, eq_iff s.id j)

pub get_id : (id : String) (ss : Sessions) (s : Session) → get_session id ss ≡ some s → s.id ≡ id
unfolding get_session
get_id id ss s h = (eq_iff s.id id).0 (find_passes (has_session_id id) ss s h)

pub get-put :
    (s : Session) (j : String) (ss : Sessions)
    → get_session j (put_session s ss) ≡ (if s.id == j then some s else get_session j ss)
unfolding get_session put_session find_where
get-put s j [] = refl
get-put s j (t ∷ ss) =
    ground (arith, get-put s j ss, eq_iff t.id s.id, eq_iff t.id j, eq_iff s.id j)

module _ (id : String) (now : DateTime) (idle absolute : ℕ) (ss : Sessions)
    (named : (id == "") ≡ false) where
  abbrev after : Lookup × Sessions
  after = resolve (some id) now idle absolute ss

  abbrev refreshed : Session → Session
  refreshed s = record s { last_seen_at = now }

  -- A session that the ledger holds is let in exactly while neither limit has passed since its
  -- creation and since its last use, and only its last use is then set to now. At the absolute limit,
  -- looked at first, or at the idle limit it is refused with that reason and is gone from the ledger.
  -- No other session changes.
  pub resolve_exact :
      (s : Session)
      → get_session id ss ≡ some s
      → (((after.0 ≡ ok (refreshed s))
            × (now.instant < s.created_at.instant + microseconds absolute)
            × (now.instant < s.last_seen_at.instant + microseconds idle)
            × (get_session id after.1 ≡ some (refreshed s)))
          ⊎ ((after.0 ≡ failed absolute_expired)
              × (s.created_at.instant + microseconds absolute ≤ now.instant)
              × (get_session id after.1 ≡ none))
          ⊎ ((after.0 ≡ failed idle_expired)
              × (now.instant < s.created_at.instant + microseconds absolute)
              × (s.last_seen_at.instant + microseconds idle ≤ now.instant)
              × (get_session id after.1 ≡ none)))
        × ((j : String) → j ≢ id → get_session j after.1 ≡ get_session j ss)
  unfolding resolve
  resolve_exact s h =
      let same : s.id ≡ id = get_id id ss s h in
      rw (named, h)
        (
          ground (arith, same, get-put (refreshed s) id ss, eq_iff s.id id, get-drop_self id ss),
          λ j n.
              ground
                (arith, get-put (refreshed s) j ss, eq_iff s.id j, get-drop_ne s.id j ss, same),
        )
