-- ===== src/Approval/Endpoints/Managers.antt =====
-- Who may decide on drafts, at the handlers of backend/src/home_compass/main.py.
use home_compass.Prelude.{String, ◌≡◌, refl, ◌⊎◌, inl, inr, true, Option, some, List, arith}
use home_compass.Store.Models.{DateTime, Db, rule_manager}
use home_compass.Store.Action.{Action}
use home_compass.Auth.Sessions.{Session, Sessions, Lookup, resolve}
use home_compass.Auth.Permissions.{csrf_matches}
use home_compass.Auth.Gate.{Request, Gate, pass, stop, crash, authorize}
use home_compass.Auth.Gate.Admits.{Gated, authorize-Gated, draft_decide_roles}
use home_compass.Approval.Decide.{Reply, Outside}
use home_compass.Approval.Endpoints.{
  Limits, serve, deciding, admin_approve_endpoint, admin_reject_endpoint,
  admin_batch_approve_endpoint,
}

module _ (out : Outside) (limits : Limits) (request : Request) (now : DateTime) (ss : Sessions)
    (db : Db) where
  open out use {uuid}

  -- The request comes from a rule manager: a live session of that role, and its CSRF token.
  abbrev pub IsManaged : Type 0
  IsManaged =
      (s : Session) × ((resolve request.cookie now limits.idle limits.absolute ss).0 ≡ Lookup.ok s)
      × (s.role ≡ rule_manager)
      × (csrf_matches s request.csrf_header ≡ true)

  -- The drafts, the versions and the approval records are as they were.
  abbrev pub Untouched : Db → Type 0
  Untouched db' =
      (db'.rule_drafts ≡ db.rule_drafts)
      × (db'.rule_versions ≡ db.rule_versions)
      × (db'.approvals ≡ db.approvals)

  deciding_managed :
      {A : Type 0} (body : Session → Action (Reply A))
      → IsManaged ⊎ Untouched (deciding out limits request now body ss db).2
  unfolding deciding
  deciding_managed body =
      let g = authorize uuid request "draft.decide" now limits.idle limits.absolute true ss db in
      go g.0 g.2
        (authorize-Gated uuid request "draft.decide" now limits.idle limits.absolute true ss db)
    where
      go :
          (gate : Gate) (db' : Db)
          → Gated uuid request "draft.decide" now limits.idle limits.absolute true ss db gate db'
          → IsManaged ⊎ Untouched (serve gate body db').1
      go (pass s) db' (found, may, csrf, same) =
          inl (s, found, ground (arith, draft_decide_roles (some s.role) may), csrf refl)
      go (stop code) db' (e, tables, _, _, _, _, _) = inr (rw tables (refl, refl, refl))
      go crash db' h = inr (rw h (refl, refl, refl))

  -- Whatever is asked of the three handlers that decide on drafts, for an approval, a rejection or a
  -- batch: unless the request carries the cookie of a live session of a rule manager and the CSRF token
  -- of that session, no draft, no rule version and no approval record changes.
  pub decisions_managed :
      (draft_id : String) (draft_ids : List String) (reason : Option String)
      → (IsManaged
          ⊎ Untouched (admin_approve_endpoint out limits draft_id reason request now ss db).2)
        × (IsManaged
            ⊎ Untouched (admin_reject_endpoint out limits draft_id reason request now ss db).2)
        × (IsManaged
            ⊎ Untouched
                (admin_batch_approve_endpoint out limits draft_ids reason request now ss db).2)
  unfolding admin_approve_endpoint admin_reject_endpoint admin_batch_approve_endpoint
  decisions_managed draft_id draft_ids reason =
      (deciding_managed _, deciding_managed _, deciding_managed _)
