-- ===== src/Approval/Batch.antt =====
-- `_release_claims`, `_approval_preflight` and `_batch_approve` of
-- backend/src/home_compass/main.py. Of an error response the status and the code are kept.
pub mod Claims
pub mod Held
pub mod Steps
pub mod Atomic
use home_compass.Prelude.{
  is_member, String, Bool, true, false, not, ◌||◌, Option, none, some, List, [], ◌∷◌, ◌++◌, ◌==◌,
  if◌then◌else◌, is_some, map,
}
use home_compass.Store.Models.{DateTime, Db, RuleDraft, DraftStatus, pending, RuleVersion}
use home_compass.Store.Action.{
  Action, Result, ok, err, draft_already_decided, record_not_found, pure, raise, gets, ◌>>=◌, ◌>>◌,
}
use home_compass.Store.Drafts.{set_status, claim_pending}
use home_compass.Store.Versions.{get_version, starts_at_or_after}
use home_compass.Auth.Sessions.{Session}
use home_compass.Approval.Decide.{
  approve, Outcome, Reply, done, failed, Refusal, refuse, draft_not_found, already_decided, Outside,
  version_id, previous_version, pending_draft_or_error, apply_decision,
}

-- `_release_claims`
unfoldable pub release_claims : List RuleDraft → Action (Unit {0})
release_claims [] = pure tt
release_claims (draft ∷ drafts) = do set_status draft.id pending none; release_claims drafts

-- the version that a draft would replace already begins at `now` or later
abbrev pub window_conflict : DateTime → Option RuleVersion → Bool
window_conflict now none = false
window_conflict now (some v) = starts_at_or_after now v

abbrev pub unless_conflict :
    DateTime → Action (Option Refusal) → Option RuleVersion → Action (Option Refusal)
unless_conflict now next previous =
    if window_conflict now previous then pure (some (409, "rule_version_window_conflict")) else next

-- `_approval_preflight`
unfoldable pub approval_preflight : List RuleDraft → DateTime → Action (Option Refusal)
approval_preflight [] now = pure none
approval_preflight (draft ∷ drafts) now = do
  existing ← gets (get_version (version_id draft))
  if is_some existing then pure (some (409, "rule_version_exists")) else do
    previous ← previous_version draft.policy_id now
    unless_conflict now (approval_preflight drafts now) previous

-- len(set(xs)) != len(xs); some key has more than one draft
unfoldable pub has_repeats : List String → Bool
has_repeats [] = false
has_repeats (s ∷ ss) = is_member s ss || has_repeats ss

-- the drafts of the request, each found and pending
abbrev pub add_draft_found : Reply RuleDraft → Reply (List RuleDraft) → Reply (List RuleDraft)
add_draft_found (failed status code) _ = failed status code
add_draft_found (done draft) (failed status code) = failed status code
add_draft_found (done draft) (done drafts) = done (draft ∷ drafts)

unfoldable pub pending_drafts : List String → Db → Reply (List RuleDraft)
pending_drafts [] db = done []
pending_drafts (id ∷ ids) db =
    add_draft_found (pending_draft_or_error id db) (pending_drafts ids db)

-- What becomes of a claim: the next one, or all claims before it released.
abbrev after_one_claim :
    List RuleDraft
    → Action (Option Refusal)
    → Result (Option RuleDraft) × Db
    → Result (Option Refusal) × Db
after_one_claim claimed next (ok _, db) = next db
after_one_claim claimed next (err draft_already_decided, db) =
    (release_claims claimed >> pure (some already_decided)) db
after_one_claim claimed next (err record_not_found, db) =
    (release_claims claimed >> pure (some draft_not_found)) db
after_one_claim claimed next (err e, db) = (err e, db)

-- the loop of step 4: claims, or all of them released
unfoldable pub claim_drafts : List RuleDraft → List RuleDraft → Action (Option Refusal)
claim_drafts claimed [] = pure none
claim_drafts claimed (draft ∷ drafts) = λ db.
    after_one_claim claimed (claim_drafts (claimed ++ draft ∷ []) drafts)
      (claim_pending draft.id DraftStatus.approved none db)

-- the policies that the drafts are about
abbrev pub policies : List RuleDraft → List String
policies drafts = map (λ (d : RuleDraft). d.policy_id) drafts

module _ (out : Outside) where
  -- `except Exception`: the drafts that are not applied are released, and the error goes on
  abbrev pub after_one_approval :
      List RuleDraft
      → (Outcome → Action (List Outcome))
      → Result Outcome × Db
      → Result (List Outcome) × Db
  after_one_approval unapplied next (ok o, db) = next o db
  after_one_approval unapplied next (err e, db) = (release_claims unapplied >> raise e) db

  -- the loop of step 6: `unapplied` is what the list still holds
  unfoldable pub apply_drafts :
      Session → Option String → DateTime → List RuleDraft → Action (List Outcome)
  apply_drafts session reason now [] = pure []
  apply_drafts session reason now (draft ∷ drafts) = λ db.
      after_one_approval (draft ∷ drafts)
        (λ o. apply_drafts session reason now drafts >>= λ os. pure (o ∷ os))
        (apply_decision out session draft approve reason now db)

  -- step 6, unless step 5 found something in the way
  unfoldable pub apply_unblocked :
      Session
      → Option String
      → DateTime
      → List RuleDraft
      → Option Refusal
      → Action (Reply (List Outcome))
  apply_unblocked session reason now drafts (some why) = do release_claims drafts; pure (refuse why)
  apply_unblocked session reason now drafts none = do
    results ← apply_drafts session reason now drafts
    pure (done results)

  -- steps 5 and 6, unless a claim was lost
  unfoldable pub apply_claimed :
      Session
      → Option String
      → DateTime
      → List RuleDraft
      → Option Refusal
      → Action (Reply (List Outcome))
  apply_claimed session reason now drafts (some why) = pure (refuse why)
  apply_claimed session reason now drafts none = do
    blocked ← approval_preflight drafts now
    apply_unblocked session reason now drafts blocked

  -- steps 4 to 6
  unfoldable pub reflect_drafts :
      Session → Option String → DateTime → List RuleDraft → Action (Reply (List Outcome))
  reflect_drafts session reason now drafts = do
    lost ← claim_drafts [] drafts
    apply_claimed session reason now drafts lost

  -- steps 3 to 6, once the drafts are found
  abbrev pub reflect_found :
      Session → Option String → DateTime → Reply (List RuleDraft) → Action (Reply (List Outcome))
  reflect_found session reason now (failed status code) = pure (failed status code)
  reflect_found session reason now (done drafts) =
      if has_repeats (policies drafts)
      then pure (failed 409 "duplicate_policy_target")
      else reflect_drafts session reason now drafts

  -- `_batch_approve`
  unfoldable pub batch_approve :
      Session → List String → Option String → DateTime → Action (Reply (List Outcome))
  batch_approve session [] reason now = pure (failed 400 "draft_ids_required")
  batch_approve session (id ∷ ids) reason now =
      if has_repeats (id ∷ ids)
      then pure (failed 409 "duplicate_draft_id")
      else do found ← gets (pending_drafts (id ∷ ids)); reflect_found session reason now found
