-- ===== src/Approval/Endpoints.antt =====
-- The handlers of the approval queue's decisions in backend/src/home_compass/main.py. A raised
-- `AuthError` is answered by its own handler (a refusal), any other error by the framework (500).
pub mod Managers
use home_compass.Prelude.{ℕ, String, Bool, true, Option, none, some, List, if◌then◌else◌, ◌==◌}
use home_compass.Store.Models.{DateTime, Db}
use home_compass.Store.Action.{Action, Result, ok, err, pure, gets, ◌>>=◌}
use home_compass.Store.Validation.{strip}
use home_compass.Auth.Sessions.{Session, Sessions}
use home_compass.Auth.Gate.{Denial, Request, Gate, pass, stop, crash, authorize}
use home_compass.Store.Models.{RuleDraft}
use home_compass.Approval.Decide.{
  approve, reject, Outcome, Reply, done, failed, Outside, pending_draft_or_error, decide,
}
use home_compass.Approval.Batch.{batch_approve}

-- What a handler answers.
pub data Response (A : Type 0) : Type 0 where
  replied : Reply A → Response A
  refused : Denial → Response A
  broken : Response A

abbrev pub respond : {A : Type 0} → Result (Reply A) × Db → Response A × Db
respond (ok reply, db) = (replied reply, db)
respond (err e, db) = (broken, db)

abbrev pub serve : {A : Type 0} → Gate → (Session → Action (Reply A)) → Db → Response A × Db
serve (pass session) body db = respond (body session db)
serve (stop code) body db = (refused code, db)
serve crash body db = (broken, db)

-- (reason or "").strip()
abbrev pub stripped : Option String → String
stripped none = ""
stripped (some s) = strip s

-- What the process holds beside the store: the limits of a session, in seconds.
pub record Limits : Type 0 where
  pub idle : ℕ
  pub absolute : ℕ

module _ (out : Outside) (limits : Limits) where
  open out use {uuid}

  -- the handlers' frame: `authorize` for draft.decide with the CSRF header, then the body
  unfoldable pub deciding :
      {A : Type 0}
      → Request
      → DateTime
      → (Session → Action (Reply A))
      → Sessions
      → Db
      → Response A × Sessions × Db
  deciding request now body ss db =
      let (gate, ss', db') =
        authorize uuid request "draft.decide" now limits.idle limits.absolute true ss db in
      let (response, db'') = serve gate body db' in (response, ss', db'')

  abbrev pub if_pending :
      (RuleDraft → Action (Reply Outcome)) → Reply RuleDraft → Action (Reply Outcome)
  if_pending next (failed status code) = pure (failed status code)
  if_pending next (done draft) = next draft

  -- `admin_approve_endpoint`
  unfoldable pub admin_approve_endpoint :
      String → Option String → Request → DateTime → Sessions → Db → Response Outcome × Sessions × Db
  admin_approve_endpoint draft_id reason request now = deciding request now (λ session. do
    found ← gets (pending_draft_or_error draft_id)
    if_pending (λ draft. decide out session draft approve reason now) found)

  -- `admin_reject_endpoint`
  unfoldable pub admin_reject_endpoint :
      String → Option String → Request → DateTime → Sessions → Db → Response Outcome × Sessions × Db
  admin_reject_endpoint draft_id reason request now = deciding request now (λ session. do
    found ← gets (pending_draft_or_error draft_id)
    if_pending
        (λ draft.
          if stripped reason == ""
          then pure (failed 400 "reason_required")
          else decide out session draft reject (some (stripped reason)) now)
        found)

  -- `admin_batch_approve_endpoint`
  unfoldable pub admin_batch_approve_endpoint :
      List String
      → Option String
      → Request
      → DateTime
      → Sessions
      → Db
      → Response (List Outcome) × Sessions × Db
  admin_batch_approve_endpoint draft_ids reason request now =
      deciding request now (λ session. batch_approve out session draft_ids reason now)
