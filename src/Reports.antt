-- ===== src/Reports.antt =====
-- The reports of counselors in backend/src/home_compass/main.py: `create_report_endpoint` behind `authorize`,
-- with `_report_target_error`, and the queue of `admin_reports_endpoint` with `_merge_reports`. The codes of
-- the regions are an argument: the table of regions is not modelled.
pub mod Proposals
pub mod Queue
use Prim.Native.String.{◌++◌ as str_append}
use home_compass.Prelude.{
  ℕ, String, Bool, true, false, not, ◌&&◌, ◌||◌, Option, none, some, List, [], ◌∷◌, ◌++◌, ◌==◌,
  if◌then◌else◌, map, is_member, filter_where, update_where, find_where,
}
use home_compass.Store.Models.{
  DateTime, Db, AnomalyReport, TargetKind, policy, region, ReportStatus, RuleDraft, RuleVersion,
}
use home_compass.Store.Json.{Json, str, Fields, end, field, get_field}
use home_compass.Store.Action.{
  Action, Result, pure, raise, gets, type_error, key_missing, ◌>>=◌, ◌>>◌,
}
use home_compass.Store.Validation.{strip, is_blank}
use home_compass.Store.Drafts.{is_pending}
use home_compass.Store.Versions.{active}
use home_compass.Store.Audit.{policy_report_fields, region_fact_fields, add_report, list_reports}
use home_compass.Auth.Sessions.{Session, Sessions}
use home_compass.Auth.Gate.{Request, authorize, record_event}
use home_compass.Approval.Payload.{hashable}
use home_compass.Approval.Decide.{Reply, done, failed, Outside, draw_uuid}
use home_compass.Approval.Endpoints.{Response, Limits, serve}

-- `ReportRequest`
pub record ReportRequest : Type 0 where
  pub target_kind : TargetKind
  pub target_id : String
  pub target_field : String
  pub reason : String

-- what is answered of a report
pub record ReportRef : Type 0 where
  pub report : AnomalyReport
  pub merged_draft_ids : List String

abbrev pub is_text : String → Json → Bool
is_text s (str t) = t == s
is_text s _ = false

-- policy["id"], as an element of a set
abbrev pub set_element : Option Json → Action Json
set_element none = raise key_missing
set_element (some j) = if hashable j then pure j else raise type_error

-- is the policy in {policy["id"] for policy in read_active_policies(store, now)}
unfoldable pub names_policy : String → List RuleVersion → Action Bool
names_policy id [] = pure false
names_policy id (v ∷ vs) = do
  j ← set_element (get_field "id" v.payload)
  rest ← names_policy id vs
  pure (is_text id j || rest)

abbrev pub field_error : List String → Bool → ReportRequest → Option String
field_error allowed known p =
    if not (is_member p.target_field allowed)
    then some "unknown_target_field"
    else if not known
    then some "unknown_target"
    else if is_blank p.reason
    then some "reason_required"
    else none

-- `_report_target_error`, which reads the clock for itself
abbrev pub target_error_of :
    List String → DateTime → ReportRequest → TargetKind → Action (Option String)
target_error_of regions now p policy = do
  versions ← active now
  known ← names_policy p.target_id versions
  pure (field_error policy_report_fields known p)
target_error_of regions now p region =
    pure (field_error region_fact_fields (is_member p.target_id regions) p)
target_error_of regions now p (TargetKind.other _) = pure (some "unknown_target_kind")

unfoldable pub report_target_error : List String → DateTime → ReportRequest → Action (Option String)
report_target_error regions now p = target_error_of regions now p p.target_kind

abbrev pub aims_at : String → RuleDraft → Bool
aims_at policy_id draft = is_pending draft && draft.policy_id == policy_id

-- `_pending_drafts_for`
unfoldable pub pending_drafts_for : String → List RuleDraft → List String
pending_drafts_for policy_id drafts =
    map (λ (d : RuleDraft). d.id) (filter_where (aims_at policy_id) drafts)

abbrev pub is_policy : TargetKind → Bool
is_policy policy = true
is_policy _ = false

abbrev pub kind_name : TargetKind → String
kind_name policy = "policy"
kind_name region = "region"
kind_name (TargetKind.other name) = name

abbrev pub ref_of : List RuleDraft → AnomalyReport → ReportRef
ref_of drafts r = record {
  report = r;
  merged_draft_ids = if is_policy r.target_kind then pending_drafts_for r.target_id drafts else [];
}

module _ (out : Outside) (limits : Limits) (regions : List String) where
  open out use {uuid}

  -- store.reports.add(…), and what the log says of it
  unfoldable pub file_report : Session → ReportRequest → DateTime → Action (Reply ReportRef)
  file_report session p now = do
    hex ← draw_uuid out
    report ← add_report (record {
      id = str_append "report:" hex;
      reporter = session.username;
      at = now;
      target_kind = p.target_kind;
      target_id = p.target_id;
      target_field = p.target_field;
      reason = strip p.reason;
      status = ReportStatus.opened;
    })
    _ ←
        record_event uuid report.reporter now "report.create"
          (str_append (kind_name report.target_kind)
            (str_append ":" (str_append report.target_id (str_append "#" report.target_field))))
          "created"
          (some (field "reportId" (str report.id) (field "reason" (str report.reason) end)))
    drafts ← gets (λ (db : Db). db.rule_drafts)
    pure (done (ref_of drafts report))

  abbrev pub unless_refused : Option String → Action (Reply ReportRef) → Action (Reply ReportRef)
  unless_refused none next = next
  unless_refused (some code) next = pure (failed 400 code)

  unfoldable pub report_body :
      ReportRequest → DateTime → DateTime → Session → Action (Reply ReportRef)
  report_body p now again session = do
    refusal ← report_target_error regions again p
    unless_refused refusal (file_report session p now)

  -- `create_report_endpoint`: `now` of the handler, and `again` of the check of the target
  unfoldable pub create_report_endpoint :
      ReportRequest
      → Request
      → DateTime
      → DateTime
      → Sessions
      → Db
      → Response ReportRef × Sessions × Db
  create_report_endpoint p request now again ss db =
      let (gate, ss', db') =
        authorize uuid request "report.create" now limits.idle limits.absolute true ss db in
      let (response, db'') = serve gate (report_body p now again) db' in (response, ss', db'')

-- the dict of `_merge_reports`: a policy and its drafts
abbrev pub Pending : Type 0
Pending = List (String × List String)

-- {policy_id: [] for policy_id in policy_ids}, over the set of the policies that are reported
unfoldable pub empty_pending : List AnomalyReport → Pending
empty_pending [] = []
empty_pending (r ∷ rs) =
    let rest = empty_pending rs in
    if is_policy r.target_kind
      && not (is_member r.target_id (map (λ (e : String × List String). e.0) rest))
    then (r.target_id, []) ∷ rest
    else rest

abbrev pub has_key : String → String × List String → Bool
has_key id e = e.0 == id

-- if draft.policy_id in pending: pending[draft.policy_id].append(draft.id)
abbrev pub add_pending : RuleDraft → Pending → Pending
add_pending d pending =
    if is_pending d
    then update_where (has_key d.policy_id) (λ e. (e.0, e.1 ++ d.id ∷ [])) pending
    else pending

unfoldable pub fill_pending : List RuleDraft → Pending → Pending
fill_pending [] pending = pending
fill_pending (d ∷ ds) pending = fill_pending ds (add_pending d pending)

-- pending.get(report.target_id, ())
abbrev pub drafts_of : Option (String × List String) → List String
drafts_of none = []
drafts_of (some e) = e.1

abbrev pub merged_ref : Pending → AnomalyReport → ReportRef
merged_ref pending r = record {
  report = r;
  merged_draft_ids =
      if is_policy r.target_kind then drafts_of (find_where (has_key r.target_id) pending) else [];
}

-- `_merge_reports`
unfoldable pub merge_reports : List RuleDraft → List AnomalyReport → List ReportRef
merge_reports drafts reports =
    map (merged_ref (fill_pending drafts (empty_pending reports))) reports

unfoldable pub admin_reports_endpoint :
    Outside
    → Limits
    → Request
    → DateTime
    → Sessions
    → Db
    → Response (List ReportRef) × Sessions × Db
admin_reports_endpoint out limits request now ss db =
    let (gate, ss', db') =
      authorize out.uuid request "report.read" now limits.idle limits.absolute false ss db in
    let (response, db'') =
      serve gate
        (λ session. gets (λ (t : Db). done (merge_reports t.rule_drafts (list_reports none t))))
        db' in
    (response, ss', db'')
