-- ===== src/Approval/Decide.antt =====
-- `_decide`, `_apply_decision` and the endpoints' check on the draft, of
-- backend/src/home_compass/main.py. Of an error response the status and the code are kept.
pub mod Rulings
pub mod Applied
pub mod Outcomes
use Prim.Native.String.{◌++◌ as str_append}
use mathlib.Core.Option
use home_compass.Prelude.{ℕ, ◌+◌, String, Bool, Option, none, some, ◌==◌, if◌then◌else◌, find_where}
use home_compass.Store.Json.{Json, null, str, Fields, end, field}
use home_compass.Store.Models.{
  DateTime, Db, Provenance, statute, unverified, RuleDraft, DraftStatus, pending, RuleVersion,
  human_approval, ApprovalRecord, Decision, AuditEvent,
}
use home_compass.Store.Action.{
  Action, Result, ok, err, Error, type_error, record_not_found, draft_already_decided, pure, raise,
  gets, or_raise, ◌>>=◌, ◌>>◌,
}
use home_compass.Store.Drafts.{get_source, get_draft, set_status, claim_pending, is_pending}
use home_compass.Store.Approvals.{add_approval}
use home_compass.Store.Versions.{active, add_version, supersede}
use home_compass.Auth.Sessions.{Session}
use home_compass.Auth.Gate.{record_event}
use home_compass.Approval.Payload.{merged_payload}

-- The two decisions that this module makes.
pub data Ruling : Type 0 where
  approve reject : Ruling

abbrev pub status_of : Ruling → DraftStatus
status_of approve = DraftStatus.approved
status_of reject = DraftStatus.rejected

abbrev pub decision_of : Ruling → Decision
decision_of approve = Decision.approved
decision_of reject = Decision.rejected

-- `AUDIT_RULE_DECISION`
abbrev pub audit_rule_decision : Ruling → String
audit_rule_decision approve = "rule.approve"
audit_rule_decision reject = "rule.reject"

-- The answer for one draft, `DecisionResponse`.
pub record Outcome : Type 0 where
  pub draft_id : String
  pub ruling : Ruling
  pub rule_version_id : Option String
  pub approval_record_id : String
  pub at : DateTime

pub data Reply (A : Type 0) : Type 0 where
  done : A → Reply A
  failed : ℕ → String → Reply A

-- the status and the code of `_not_found` and of `_already_decided`
abbrev pub Refusal : Type 0
Refusal = ℕ × String

abbrev pub draft_not_found : Refusal
draft_not_found = (404, "draft_not_found")

abbrev pub already_decided : Refusal
already_decided = (409, "draft_already_decided")

abbrev pub refuse : {A : Type 0} → Refusal → Reply A
refuse why = failed why.0 why.1

-- What the application takes from elsewhere: the JSON Schema check of a provenance, `isoformat`, and
-- the hexadecimal text of the n-th identifier that `uuid4` draws.
pub record Outside : Type 0 where
  pub provenance_ok : Provenance → Bool
  pub isoformat : DateTime → String
  pub uuid : ℕ → String

-- `x or None`, for an optional text
abbrev pub or_none : Option String → Option String
or_none none = none
or_none (some s) = if s == "" then none else some s

-- the id of the version that a draft becomes
unfoldable pub version_id : RuleDraft → String
version_id draft = str_append "approval:" draft.id

abbrev pub is_of_policy : String → RuleVersion → Bool
is_of_policy policy_id v = v.policy_id == policy_id

-- `next((v for v in read_active_rule_versions(store, now) if …), None)`
unfoldable pub previous_version : String → DateTime → Action (Option RuleVersion)
previous_version policy_id now = do
  versions ← active now
  pure (find_where (is_of_policy policy_id) versions)

-- `_pending_draft_or_error`
abbrev pub pending_or_error : Option RuleDraft → Reply RuleDraft
pending_or_error none = refuse draft_not_found
pending_or_error (some draft) = if is_pending draft then done draft else refuse already_decided

unfoldable pub pending_draft_or_error : String → Db → Reply RuleDraft
pending_draft_or_error draft_id db = pending_or_error (get_draft draft_id db)

-- the version that an approval makes
abbrev pub approved_version :
    Session → RuleDraft → DateTime → Option RuleVersion → Fields → Provenance → RuleVersion
approved_version session draft now previous payload provenance = record {
  id = version_id draft;
  policy_id = draft.policy_id;
  payload = payload;
  status = DraftStatus.approved;
  origin = human_approval;
  effective_from = some now;
  effective_to = none;
  supersedes = Option.map (λ (v : RuleVersion). v.id) previous;
  approved_by = some session.user_id;
  provenance = provenance;
  created_at = now;
}

abbrev pub version_json : Option String → Json
version_json none = null
version_json (some id) = str id

abbrev pub made_version : Ruling → RuleDraft → Option String
made_version approve draft = some (version_id draft)
made_version reject draft = none

module _ (out : Outside) where
  open out use {provenance_ok, isoformat, uuid}

  -- `_approval_provenance`
  unfoldable pub approval_provenance : RuleDraft → Db → Provenance
  approval_provenance draft db =
      let source = get_source draft.policy_source_id db in
      record {
        source_kind = statute;
        source_name = elim source [ none ↦ none | some s ↦ or_none s.attribution ];
        source_ref = elim source [ none ↦ none | some s ↦ or_none s.source_ref ];
        observed_at = none;
        fetched_at = elim source [ none ↦ none | some s ↦ some (isoformat s.fetched_at) ];
        verification = unverified;
        observed_at_unstated = none;
      }

  -- uuid4().hex
  unfoldable pub draw_uuid : Action String
  draw_uuid db = (ok (uuid db.draws), record db { draws = db.draws + 1 })

  -- store.approvals.add(ApprovalRecord(…))
  unfoldable pub write_approval :
      Session → DateTime → String → String → Ruling → Option String → Action ApprovalRecord
  write_approval session now target_kind target_id ruling reason = do
    hex ← draw_uuid
    add_approval (record {
      id = str_append "approval:" hex;
      actor_user_id = session.user_id;
      at = now;
      target_kind = target_kind;
      target_id = target_id;
      decision = decision_of ruling;
      reason = reason;
    })

  -- `add` if the policy has no active version, `supersede` if it has
  unfoldable pub open_version : Option RuleVersion → RuleVersion → DateTime → Action RuleVersion
  open_version none version now = add_version provenance_ok version
  open_version (some previous) version now = supersede provenance_ok previous.id version now

  -- the audit event of a decision
  unfoldable pub record_decision :
      Session → RuleDraft → Ruling → DateTime → Option String → Action AuditEvent
  record_decision session draft ruling now rule_version_id =
      record_event uuid session.username now (audit_rule_decision ruling) draft.id "success" (
        some (
          field "policyId" (str draft.policy_id)
            (field "ruleVersionId" (version_json rule_version_id) end)))

  -- the branch of `_apply_decision` for an approval, from the version that it finds to the audit event
  unfoldable pub approve_over :
      Session → RuleDraft → Option String → DateTime → Option RuleVersion → Action ApprovalRecord
  approve_over session draft reason now previous = do
    payload ← or_raise (merged_payload previous draft) type_error
    provenance ← gets (approval_provenance draft)
    let version = approved_version session draft now previous payload provenance
    approval ← write_approval session now "rule_version" version.id approve (or_none reason)
    open_version previous version now
    pure approval

  unfoldable pub approve_draft :
      Session → RuleDraft → Option String → DateTime → Action ApprovalRecord
  approve_draft session draft reason now = do
    previous ← previous_version draft.policy_id now
    approve_over session draft reason now previous

  unfoldable pub rule_on :
      Ruling → Session → RuleDraft → Option String → DateTime → Action ApprovalRecord
  rule_on approve session draft reason now = approve_draft session draft reason now
  rule_on reject session draft reason now =
      write_approval session now "rule_draft" draft.id reject reason

  -- `_apply_decision`
  unfoldable pub apply_decision :
      Session → RuleDraft → Ruling → Option String → DateTime → Action Outcome
  apply_decision session draft ruling reason now = do
    approval ← rule_on ruling session draft reason now
    record_decision session draft ruling now (made_version ruling draft)
    pure (record {
      draft_id = draft.id;
      ruling = ruling;
      rule_version_id = made_version ruling draft;
      approval_record_id = approval.id;
      at = now;
    })

  -- `except Exception`: the claim is given back, and the error goes on
  unfoldable pub give_back : {A : Type 0} → RuleDraft → Error → Action A
  give_back draft e = set_status draft.id pending none >> raise e

  unfoldable pub or_give_back : RuleDraft → Result Outcome × Db → Result (Reply Outcome) × Db
  or_give_back draft (ok o, db) = (ok (done o), db)
  or_give_back draft (err e, db) = give_back draft e db

  -- the two `except` clauses behind the claim, and what follows it
  unfoldable pub after_claim :
      Session
      → RuleDraft
      → Ruling
      → Option String
      → DateTime
      → Result (Option RuleDraft) × Db
      → Result (Reply Outcome) × Db
  after_claim session draft ruling reason now (ok _, db) =
      or_give_back draft (apply_decision session draft ruling reason now db)
  after_claim session draft ruling reason now (err draft_already_decided, db) =
      (ok (refuse already_decided), db)
  after_claim session draft ruling reason now (err record_not_found, db) =
      (ok (refuse draft_not_found), db)
  after_claim session draft ruling reason now (err e, db) = (err e, db)

  -- `_decide`
  unfoldable pub decide :
      Session → RuleDraft → Ruling → Option String → DateTime → Action (Reply Outcome)
  decide session draft ruling reason now db =
      after_claim session draft ruling reason now
        (claim_pending draft.id (status_of ruling) none db)
