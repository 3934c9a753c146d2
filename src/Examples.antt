-- ===== src/Examples.antt =====
-- A rule manager, a draft that waits, the version that it would replace, and the theorems at them.
use home_compass.Prelude.{
  eqb, if◌then◌else◌, ℕ, String, Bool, true, Option, none, some, List, [], ◌∷◌, ◌≡◌, refl, inl, inr,
}
use home_compass.Store.Json.{Json, num, str, arr, obj, null, nil, item, Fields, end, field}
use home_compass.Store.Models.{
  DateTime, at_utc, Db, statute, unverified, Provenance, PolicySource, RuleDraft, DraftStatus,
  pending, RuleVersion, Origin, seed, Role, rule_manager, counselor, AuditEvent,
}
use home_compass.Auth.Sessions.{Session, Sessions}
use home_compass.Auth.Gate.{Request}
use home_compass.Approval.Decide.{Outside, approve, reject}
use home_compass.Approval.Endpoints.{Limits}
pub mod Accounts
pub mod Approvals
pub mod Arithmetic
pub mod Deals
pub mod Extractions
pub mod Facts
pub mod Histories
pub mod Households
pub mod Proposals
pub mod Requests
pub mod Verdicts

abbrev pub provenance_of_seed : Provenance
provenance_of_seed = record {
  source_kind = statute;
  source_name = some "Jutaek";
  source_ref = none;
  observed_at = none;
  fetched_at = none;
  verification = unverified;
  observed_at_unstated = none;
}

abbrev pub noon : DateTime
noon = at_utc 43_200_000_000

abbrev pub morning : DateTime
morning = at_utc 28_800_000_000

abbrev pub notice : PolicySource
notice = record {
  id = "source:1";
  text = 97 ∷ 98 ∷ [];
  source_ref = some "https://example.kr/1";
  fetched_at = morning;
  attribution = some "MOLIT";
}

abbrev pub old_payload : Fields
old_payload = field "id" (str "beotimmok") (
    field "criteria" (obj (field "maxAge" (num "34") (field "maxIncomeKRW" (num "50000000") end)))
      end)

abbrev pub said : Fields
said = field "maxAge" (num "39") (field "maxIncomeKRW" null end)

abbrev pub draft_payload : Fields
draft_payload =
    field "criteria" (obj said)
      (field "not_found" (arr (item (str "/criteria/maxIncomeKRW") nil)) end)

abbrev pub waiting : RuleDraft
waiting = record {
  id = "draft:1";
  policy_source_id = "source:1";
  policy_id = "beotimmok";
  status = pending;
  payload = draft_payload;
  created_at = morning;
  failure_reason = none;
}

abbrev pub old_version : RuleVersion
old_version = record {
  id = "seed:beotimmok";
  policy_id = "beotimmok";
  payload = old_payload;
  status = DraftStatus.approved;
  origin = seed;
  effective_from = some (at_utc 0);
  effective_to = none;
  supersedes = none;
  approved_by = none;
  provenance = provenance_of_seed;
  created_at = morning;
}

abbrev pub new_version : RuleVersion
new_version = record old_version {
  id = "seed:beotimmok:2";
  effective_from = some noon;
  supersedes = some "seed:beotimmok";
}

abbrev pub logged_in : AuditEvent
logged_in = record {
  id = "login:1";
  actor = "manager";
  at = morning;
  action = "session.login";
  target = "manager";
  outcome = "success";
  after = none;
}

abbrev pub tables : Db
tables = record {
  policy_sources = notice ∷ [];
  rule_drafts = waiting ∷ [];
  spans = [];
  rule_versions = old_version ∷ [];
  users = [];
  approvals = [];
  reports = [];
  audit = logged_in ∷ [];
  draws = 0;
}

abbrev pub manager : Session
manager = record {
  id = "cookie";
  user_id = "user:1";
  username = "manager";
  role = rule_manager;
  csrf_token = "token";
  created_at = morning;
  last_seen_at = morning;
}

abbrev pub counselor_session : Session
counselor_session = record manager { id = "cookie:2"; role = counselor }

abbrev pub sessions : Sessions
sessions = manager ∷ counselor_session ∷ []

abbrev pub request_of : String → Request
request_of cookie = record { cookie = some cookie; csrf_header = some "token" }

abbrev pub hour_and_day : Limits
hour_and_day = record { idle = 28_800; absolute = 86_400 }

abbrev pub outside : Outside
outside = record {
  provenance_ok = λ p. true;
  isoformat = λ t. "2026-08-14T03:00:00+00:00";
  uuid = λ n. if eqb n 0 then "a" else "b";
}
