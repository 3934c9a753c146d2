-- ===== src/Examples/Requests.antt =====
-- The theorems on sessions, permissions and the gate at the examples.
use home_compass.Prelude.{
  arith, ◌+◌, ◌<◌, ◌≤◌, String, ◌≡◌, ◌≢◌, refl, ◌⊎◌, true, none, some, List, find_where,
}
use home_compass.Store.Models.{User, rule_manager}
use home_compass.Auth.Sessions.{
  create, Session, get_session, resolve, Lookup, failed, ok, absolute_expired, idle_expired,
  microseconds,
}
use home_compass.Auth.Sessions.Expiry.{resolve_exact}
use home_compass.Auth.Sessions.Life.{create_opens}
use home_compass.Auth.Gate.{authorize}
use home_compass.Auth.Gate.Admits.{Gated, authorize-Gated}
use home_compass.Examples.{tables, noon, morning, manager, sessions, request_of, outside}

abbrev found : Lookup × List Session
found = resolve (some "cookie") noon 28_800 86_400 sessions

resolve_exact_example :
    (((found.0 ≡ ok (record manager { last_seen_at = noon }))
        × (noon.instant < morning.instant + microseconds 86_400)
        × (noon.instant < morning.instant + microseconds 28_800)
        × (get_session "cookie" found.1 ≡ some (record manager { last_seen_at = noon })))
      ⊎ ((found.0 ≡ failed absolute_expired)
          × (morning.instant + microseconds 86_400 ≤ noon.instant)
          × (get_session "cookie" found.1 ≡ none))
      ⊎ ((found.0 ≡ failed idle_expired)
          × (noon.instant < morning.instant + microseconds 86_400)
          × (morning.instant + microseconds 28_800 ≤ noon.instant)
          × (get_session "cookie" found.1 ≡ none)))
    × ((j : String) → j ≢ "cookie" → get_session j found.1 ≡ get_session j sessions)
unfolding get_session find_where
resolve_exact_example = resolve_exact "cookie" noon 28_800 86_400 sessions refl manager refl

authorize-Gated_example :
    let r =
      authorize outside.uuid
        (request_of "cookie:2")
        "draft.decide"
        noon
        28_800
        86_400
        true
        sessions
        tables in
    Gated outside.uuid
      (request_of "cookie:2")
      "draft.decide"
      noon
      28_800
      86_400
      true
      sessions
      tables
      r.0
      r.2
authorize-Gated_example =
    authorize-Gated outside.uuid (request_of "cookie:2") "draft.decide" noon 28_800 86_400 true
      sessions tables

abbrev kim : User
kim = record {
  id = "user:2";
  username = "kim";
  role = rule_manager;
  password_hash = "hash";
  created_at = morning;
}

create_opens_example :
    let (s, opened) = create "new" "secret" kim morning sessions in
    (resolve (some "new") noon 28_800 86_400 opened).0 ≡ ok (record s { last_seen_at = noon })
create_opens_example =
    create_opens "new" refl sessions "secret" kim morning noon 28_800 86_400 (omega arith)
      (omega arith)
