-- ===== src/Auth/Gate/Admits.antt =====
-- Whom `authorize` lets in, and what it writes when it does not.
use Prim.Native.String.{◌++◌ as str_append}
use home_compass.Prelude.{
  ℕ, ◌+◌, String, ◌≡◌, refl, inl, inr, Bool, true, not, ◌&&◌, Option, none, some, [], ◌∷◌, ◌++◌,
  arith, eq_iff, Bool-cases,
}
use home_compass.Store.Models.{DateTime, Db, AuditEvent, Role, rule_manager, counselor}
use home_compass.Store.Json.{end, field, str}
use home_compass.Store.Action.{ok}
use home_compass.Store.Inserts.{append_event_cases}
use home_compass.Auth.Sessions.{Sessions, Lookup, failed, resolve}
use home_compass.Auth.Permissions.{allows, csrf_matches}
use home_compass.Auth.Gate.{
  Denial, forbidden, csrf_failed, code_of, denial_of, Request, denied, Gate, pass, stop, crash,
  record_event, record_denial, authorize, admit_lookup, finish, after_record,
}

-- Of the roles, known or not, only the rule manager decides on drafts.
pub draft_decide_roles :
    (role : Option Role) → allows "draft.decide" role ≡ true → role ≡ some rule_manager
unfolding allows
draft_decide_roles none h = cc
draft_decide_roles (some Role.citizen) h = cc
draft_decide_roles (some counselor) h = cc
draft_decide_roles (some rule_manager) h = refl
draft_decide_roles (some (Role.other s)) h = cc

-- An action that an anonymous caller may do is reading an analysis, and everybody may read one.
anonymous_reads :
    (action : String) (role : Option Role)
    → (allows action none ≡ true → action ≡ "analysis.read") × (allows "analysis.read" role ≡ true)
unfolding allows
anonymous_reads action role = (λ h. ground (arith, eq_iff "analysis.read" action), refl)

module _ (uuid : ℕ → String) (request : Request) (action : String) (now : DateTime)
    (idle absolute : ℕ) (require_csrf : Bool) (ss : Sessions) (db : Db) where
  abbrev looked_up : Lookup × Sessions
  looked_up = resolve request.cookie now idle absolute ss

  -- What each end of `authorize` says of the request and of the tables.
  abbrev pub Gated : Gate → Db → Type 0
  Gated (pass s) db' =
      (looked_up.0 ≡ Lookup.ok s)
      × (allows action (some s.role) ≡ true)
      × (require_csrf ≡ true → csrf_matches s request.csrf_header ≡ true)
      × (db' ≡ db)
  Gated (stop code) db' =
      (e : AuditEvent) × (db' ≡ record db { audit = db.audit ++ e ∷ []; draws = db.draws + 1 })
      × (e.action ≡ "authz.denied")
      × (e.target ≡ action)
      × (e.outcome ≡ "denied")
      × (e.at ≡ now)
      × (e.after ≡ some (field "reason" (str (code_of code)) end))
  Gated crash db' = db' ≡ record db { draws = db.draws + 1 }

  stopped :
      (actor : String) (code : Denial)
      → let (gate, db') = finish uuid now action (denied actor code) db in Gated gate db'
  unfolding finish record_denial record_event after_record
  stopped actor code = elim (append_event_cases event (record db { draws = db.draws + 1 })) [
    | inl e ↦ rw (e, after_record) (event, refl, refl, refl, refl, refl, refl)
    | inr e ↦ rw (e, after_record) refl
  ]
    where
      event : AuditEvent
      event = record {
        id = str_append "authz.denied" (str_append ":" (uuid db.draws));
        actor = actor;
        at = now;
        action = "authz.denied";
        target = action;
        outcome = "denied";
        after = some (field "reason" (str (code_of code)) end);
      }

  -- Whoever is let in holds a live session whose role may do `action`, with its CSRF token where one
  -- is asked for, and nothing is written to the store. Whoever is refused leaves exactly one audit
  -- event, which names the action and the reason, and changes nothing else; if the log does not take
  -- the event, the request breaks off and no table has changed.
  pub authorize-Gated :
      let (gate, _, db') = authorize uuid request action now idle absolute require_csrf ss db in
      Gated gate db'
  unfolding authorize finish admit_lookup
  authorize-Gated = go looked_up.0 refl
    where
      go :
          (found : Lookup)
          → looked_up.0 ≡ found
          → let (gate, db') =
              finish uuid now action (admit_lookup request action require_csrf found) db in
            Gated gate db'
      go (failed why) e = stopped "anonymous" (denial_of why)
      go (Lookup.ok s) e = elim (Bool-cases (allows action (some s.role))) [
        | inl may ↦
            rw may (elim (Bool-cases (require_csrf && not (csrf_matches s request.csrf_header))) [
              | inl bad ↦ rw bad (stopped s.username csrf_failed)
              | inr good ↦ rw good (e, may, ground arith, refl)
            ])
        | inr may_not ↦ rw may_not (stopped s.username forbidden)
      ]
