-- ===== src/Reports/Proposals.antt =====
-- A report proposes, it changes no rule (`create_report_endpoint` of backend/src/home_compass/main.py).
use mathlib.Core.Path.{subst}
use Prim.Native.String.{◌++◌ as str_append}
use home_compass.Prelude.{
  ◌+◌, String, ◌||◌, ◌≡◌, refl, sym, ap, ◌∙◌, ◌⊎◌, inl, inr, true, Option, none, some, List, [],
  ◌∷◌, ◌++◌, arith,
}
use home_compass.Store.Models.{
  DateTime, Db, AnomalyReport, AuditEvent, TargetKind, policy, region, RuleVersion, ReportStatus,
}
use home_compass.Store.Json.{Json, Fields, field, str, end, get_field}
use home_compass.Store.Action.{
  Action, Error, Result, ok, err, store_error, ◌>>=◌, pure, gets, bind_ok, bind_err,
}
use home_compass.Store.Validation.{strip}
use home_compass.Store.Versions.{active}
use home_compass.Store.Audit.{add_report, policy_report_fields}
use home_compass.Auth.Sessions.{Session, Sessions, Lookup, resolve}
use home_compass.Auth.Permissions.{allows, csrf_matches}
use home_compass.Auth.Gate.{Request, Gate, pass, stop, crash, authorize, record_event}
use home_compass.Auth.Gate.Admits.{Gated, authorize-Gated}
use home_compass.Auth.Login.Opens.{record_event_ends}
use home_compass.Approval.Decide.{Outside, Reply, done, failed, draw_uuid}
use home_compass.Approval.Endpoints.{Response, replied, refused, broken, Limits, serve, respond}
use home_compass.Reports.{
  ReportRequest, ReportRef, is_text, set_element, names_policy, field_error, target_error_of,
  report_target_error, kind_name, ref_of, file_report, unless_refused, report_body,
  create_report_endpoint,
}

-- what holds of the two ends of a step, and of what follows it, holds of both together
bind_ends :
    {A B : Type 0} (P : Result B × Db → Type 0) (m : Action A) (f : A → Action B) (db : Db)
    → ((a : A) (db' : Db) → m db ≡ (ok a, db') → P (f a db'))
    → ((e : Error) (db' : Db) → m db ≡ (err e, db') → P (err e, db'))
    → P ((m >>= f) db)
bind_ends {A = A} {B = B} P m f db good bad = go (m db) good bad
  where
    go :
        (r : Result A × Db)
        → ((a : A) (db' : Db) → r ≡ (ok a, db') → P (f a db'))
        → ((e : Error) (db' : Db) → r ≡ (err e, db') → P (err e, db'))
        → P (elim r.0 [ ok a ↦ f a r.1 | err e ↦ (err e, r.1) ])
    go (ok a, db') good' bad' = good' a db' refl
    go (err e, db') good' bad' = bad' e db' refl

-- a step that only reads
abbrev Reads : {A : Type 0} → Action A → Type 0
Reads m = (db : Db) → (m db).1 ≡ db

bind-Reads :
    {A B : Type 0} (m : Action A) (f : A → Action B)
    → Reads m
    → ((a : A) → Reads (f a))
    → Reads (m >>= f)
bind-Reads m f first rest db =
    bind_ends (λ r. r.1 ≡ db) m f db (λ a db' e. rest a db' ∙ (sym (ap (λ r. r.1) e) ∙ first db))
      (λ e db' k. sym (ap (λ r. r.1) k) ∙ first db)

set_element-Reads : (o : Option Json) → Reads (set_element o)
set_element-Reads none db = refl
set_element-Reads (some j) db = ground arith

names_policy-Reads : (id : String) (vs : List RuleVersion) → Reads (names_policy id vs)
unfolding names_policy
names_policy-Reads id [] = λ db. refl
names_policy-Reads id (v ∷ vs) =
    bind-Reads (set_element (get_field "id" v.payload))
      (λ j. names_policy id vs >>= λ rest. pure (is_text id j || rest))
      (set_element-Reads (get_field "id" v.payload))
      (λ j.
        bind-Reads (names_policy id vs) (λ rest. pure (is_text id j || rest))
          (names_policy-Reads id vs) (λ rest db. refl))

active-Reads : (now : DateTime) → Reads (active now)
unfolding active
active-Reads now db = ground arith

target_error_of-Reads :
    (regions : List String) (now : DateTime) (p : ReportRequest) (kind : TargetKind)
    → Reads (target_error_of regions now p kind)
target_error_of-Reads regions now p policy =
    bind-Reads (active now)
      (λ versions. names_policy p.target_id versions >>= λ known.
        pure (field_error policy_report_fields known p))
      (active-Reads now)
      (λ versions.
        bind-Reads (names_policy p.target_id versions)
          (λ known. pure (field_error policy_report_fields known p))
          (names_policy-Reads p.target_id versions) (λ known db. refl))
target_error_of-Reads regions now p region = λ db. refl
target_error_of-Reads regions now p (TargetKind.other k) = λ db. refl

report_target_error-Reads :
    (regions : List String) (now : DateTime) (p : ReportRequest)
    → Reads (report_target_error regions now p)
unfolding report_target_error
report_target_error-Reads regions now p = target_error_of-Reads regions now p p.target_kind

abbrev with_report : AnomalyReport → Db → Db
with_report r db = record db { reports = db.reports ++ r ∷ [] }

add_report_cases :
    (r : AnomalyReport) (db : Db)
    → (add_report r db ≡ (ok r, with_report r db)) ⊎ (add_report r db ≡ (err store_error, db))
unfolding add_report
add_report_cases r db = ground arith

-- nothing that takes part in a verdict or decides on one has changed
abbrev pub Unruled : Db → Db → Type 0
Unruled db db' =
    (db'.rule_drafts ≡ db.rule_drafts)
    × (db'.rule_versions ≡ db.rule_versions)
    × (db'.approvals ≡ db.approvals)
    × (db'.users ≡ db.users)

module _ (out : Outside) (limits : Limits) (regions : List String) (p : ReportRequest)
    (now again : DateTime) (session : Session) (db : Db) where
  open out use {uuid}

  -- what is left of a request that was let in
  abbrev pub Filed : Result (Reply ReportRef) × Db → Type 0
  Filed (ok (done ref), db') =
      Unruled db db'
      × (db'.reports ≡ db.reports ++ ref.report ∷ [])
      × (ref.report.reporter ≡ session.username)
      × (ref.report.at ≡ now)
      × (ref.report.target_id ≡ p.target_id)
      × (ref.report.reason ≡ strip p.reason)
      × ((e : AuditEvent) × (db'.audit ≡ db.audit ++ e ∷ []) × (e.action ≡ "report.create"))
  Filed (ok (failed status code), db') = db' ≡ db
  Filed (err e, db') = Unruled db db' × (db'.audit ≡ db.audit)

  abbrev filed : AnomalyReport
  filed = record {
    id = str_append "report:" (uuid db.draws);
    reporter = session.username;
    at = now;
    target_kind = p.target_kind;
    target_id = p.target_id;
    target_field = p.target_field;
    reason = strip p.reason;
    status = ReportStatus.opened;
  }

  abbrev target : String
  target =
      str_append (kind_name p.target_kind)
        (str_append ":" (str_append p.target_id (str_append "#" p.target_field)))

  abbrev said : Option Fields
  said = some (field "reportId" (str filed.id) (field "reason" (str filed.reason) end))

  -- behind the insertion of the report
  abbrev logged : AnomalyReport → Action (Reply ReportRef)
  logged r = do
    _ ←
        record_event uuid r.reporter now "report.create"
          (str_append (kind_name r.target_kind)
            (str_append ":" (str_append r.target_id (str_append "#" r.target_field))))
          "created" (some (field "reportId" (str r.id) (field "reason" (str r.reason) end)))
    drafts ← gets (λ (t : Db). t.rule_drafts)
    pure (done (ref_of drafts r))

  logged-Filed : Filed (logged filed (with_report filed (record db { draws = db.draws + 1 })))
  logged-Filed =
      record_event_ends uuid session.username now "report.create" target "created" said
        (with_report filed (record db { draws = db.draws + 1 }))
        (λ r. Filed (elim r.0 [
          | ok _ ↦ (ok (done (ref_of r.1.rule_drafts filed)), r.1)
          | err x ↦ (err x, r.1)
        ]))
        (λ e db' (event, same, action, _, _).
          rw same ((refl, refl, refl, refl), refl, refl, refl, refl, refl, (event, refl, action)))
        ((refl, refl, refl, refl), refl)

  file_report-Filed : Filed (file_report out limits regions session p now db)
  unfolding file_report draw_uuid
  file_report-Filed =
      let drawn : Db = record db { draws = db.draws + 1 } in
      elim (add_report_cases filed drawn) as (λ _. Filed ((add_report filed >>= logged) drawn)) [
        | inr e ↦
            subst Filed (sym (bind_err (add_report filed) logged drawn drawn store_error e))
              ((refl, refl, refl, refl), refl)
        | inl e ↦
            subst Filed
              (sym (bind_ok (add_report filed) logged drawn (with_report filed drawn) filed e))
              logged-Filed
      ]

  report_body-Filed : Filed (report_body out limits regions p now again session db)
  unfolding report_body
  report_body-Filed =
      bind_ends Filed (report_target_error regions again p)
        (λ refusal.
          unless_refused out limits regions refusal (file_report out limits regions session p now))
        db
        (λ refusal db' e.
          go refusal db' (sym (ap (λ r. r.1) e) ∙ report_target_error-Reads regions again p db))
        (λ x db' e.
          let same : db' ≡ db =
            sym (ap (λ r. r.1) e) ∙ report_target_error-Reads regions again p db in
          rw same ((refl, refl, refl, refl), refl))
    where
      go :
          (refusal : Option String) (db' : Db)
          → db' ≡ db
          → Filed (
              unless_refused out limits regions refusal
                (file_report out limits regions session p now)
                db')
      go none db' e = rw e file_report-Filed
      go (some code) db' e = e

module _ (out : Outside) (limits : Limits) (regions : List String) (p : ReportRequest)
    (request : Request) (now again : DateTime) (ss : Sessions) (db : Db) where
  open out use {uuid}

  -- what `create_report_endpoint` answers, and the tables then
  abbrev pub IsProposal : Response ReportRef → Db → Type 0
  IsProposal (replied (done ref)) db' =
      (s : Session) × ((resolve request.cookie now limits.idle limits.absolute ss).0 ≡ Lookup.ok s)
      × (allows "report.create" (some s.role) ≡ true)
      × (csrf_matches s request.csrf_header ≡ true)
      × Filed out limits regions p now again s db (ok (done ref), db')
  IsProposal (replied (failed status code)) db' = db' ≡ db
  IsProposal (refused code) db' = Unruled db db' × (db'.reports ≡ db.reports)
  IsProposal broken db' = Unruled db db'

  serve-IsProposal :
      (gate : Gate) (db' : Db)
      → Gated uuid request "report.create" now limits.idle limits.absolute true ss db gate db'
      → let (response, db'') = serve gate (report_body out limits regions p now again) db' in
        IsProposal response db''
  serve-IsProposal (stop code) db' (e, tables, _, _, _, _, _) =
      rw tables ((refl, refl, refl, refl), refl)
  serve-IsProposal crash db' h = rw h (refl, refl, refl, refl)
  serve-IsProposal (pass s) db' (found, may, csrf, same) = rw same (
      go (report_body out limits regions p now again s db)
        (report_body-Filed out limits regions p now again s db))
    where
      go :
          (r : Result (Reply ReportRef) × Db)
          → Filed out limits regions p now again s db r
          → let (response, db'') = respond r in IsProposal response db''
      go (ok (done ref), db'') h = (s, found, may, csrf refl, h)
      go (ok (failed status code), db'') h = h
      go (err e, db'') h = h.0

  -- A report is filed only for a live session whose role may file one, with its CSRF token: the reporter
  -- is the session's user, and one report and one event are added. Whatever the answer, no draft,
  -- rule version, approval record or user changes.
  pub create_report_endpoint-IsProposal :
      let (response, _, db') =
        create_report_endpoint out limits regions p request now again ss db in
      IsProposal response db'
  unfolding create_report_endpoint authorize
  create_report_endpoint-IsProposal =
      serve-IsProposal _ _
        (authorize-Gated uuid request "report.create" now limits.idle limits.absolute true ss db)
