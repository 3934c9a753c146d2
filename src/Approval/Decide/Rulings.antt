-- ===== src/Approval/Decide/Rulings.antt =====
-- The approval record and the version of a decision (`_apply_decision` of
-- backend/src/home_compass/main.py, up to the audit event).
use Prim.Native.String.{◌++◌ as str_append}
use mathlib.Core.Path.{subst}
use home_compass.Prelude.{
  ◌+◌, String, ◌≡◌, refl, sym, ◌∙◌, ◌⊎◌, inl, inr, Option, none, some, List, [], ◌∷◌, ◌++◌, arith,
  Option-cases, find_where, filter_where, update_where,
}
use home_compass.Store.Json.{str, Fields, end, field}
use home_compass.Store.Models.{DateTime, Db, RuleDraft, RuleVersion, ApprovalRecord, AuditEvent}
use home_compass.Store.Action.{
  bind_ok, bind_err, Result, ok, err, store_error, or_raise, pure, Action, ◌>>=◌, ◌>>◌,
}
use home_compass.Store.Inserts.{with_approval, add_approval_cases}
use home_compass.Store.Versions.{has_version_id, close, is_active, active, add_version, supersede}
use home_compass.Store.Versions.Success.{
  IsAdded, add_version-IsAdded, Supersedes, supersede-Supersedes,
}
use home_compass.Auth.Sessions.{Session}
use home_compass.Approval.Payload.{merged_payload}
use home_compass.Approval.Decide.{
  Ruling, approve, reject, decision_of, audit_rule_decision, Outside, version_id, is_of_policy,
  previous_version, approval_provenance, approved_version, draw_uuid, write_approval, open_version,
  version_json, approve_over, approve_draft, rule_on, made_version, or_none,
}

-- the rows of `rule_version` after a version took over from `previous`
abbrev pub opened :
    Option RuleVersion → RuleVersion → DateTime → List RuleVersion → List RuleVersion
opened none v now rows = rows ++ v ∷ []
opened (some p) v now rows = update_where (has_version_id p.id) (close now) (rows ++ v ∷ [])

abbrev pub drawn : Db → Db
drawn db = record db { draws = db.draws + 1 }

-- the version of a policy that holds at `now`
abbrev pub current : String → DateTime → List RuleVersion → Option RuleVersion
current policy_id now rows = find_where (is_of_policy policy_id) (filter_where (is_active now) rows)

pub previous_version_cases :
    (policy_id : String) (now : DateTime) (db : Db)
    → (previous_version policy_id now db ≡ (ok (current policy_id now db.rule_versions), db))
      ⊎ (previous_version policy_id now db ≡ (err store_error, db))
unfolding previous_version active
previous_version_cases policy_id now db = ground arith

-- the record of a decision: what it is about, and the reason
abbrev pub kind_of : Ruling → String
kind_of approve = "rule_version"
kind_of reject = "rule_draft"

abbrev pub target_of : Ruling → RuleDraft → String
target_of approve draft = version_id draft
target_of reject draft = draft.id

abbrev pub reason_of : Ruling → Option String → Option String
reason_of approve reason = or_none reason
reason_of reject reason = reason

module _ (out : Outside) (session : Session) where
  open out use {provenance_ok, uuid}

  -- the approval record that a decision writes
  abbrev pub approval_of : DateTime → String → String → Ruling → Option String → Db → ApprovalRecord
  approval_of now kind id ruling reason db = record {
    id = str_append "approval:" (uuid db.draws);
    actor_user_id = session.user_id;
    at = now;
    target_kind = kind;
    target_id = id;
    decision = decision_of ruling;
    reason = reason;
  }

  write_approval_cases :
      (now : DateTime) (kind id : String) (ruling : Ruling) (reason : Option String) (db : Db)
      → let a = approval_of now kind id ruling reason db in
        (write_approval out session now kind id ruling reason db
          ≡ (ok a, with_approval a (drawn db)))
        ⊎ (write_approval out session now kind id ruling reason db ≡ (err store_error, drawn db))
  unfolding write_approval draw_uuid
  write_approval_cases now kind id ruling reason db =
      add_approval_cases (approval_of now kind id ruling reason db) (drawn db)

  -- What `add` or `supersede` has written, and what it leaves alone when it raises.
  abbrev pub Opens :
      Option RuleVersion → RuleVersion → DateTime → Db → Result RuleVersion → Db → Type 0
  Opens previous v now db (ok r) db' =
      db' ≡ record db { rule_versions = opened previous v now db.rule_versions }
  Opens previous v now db (err _) db' = db' ≡ db

  open_version-Opens :
      (previous : Option RuleVersion) (v : RuleVersion) (now : DateTime) (db : Db)
      → let (r, db') = open_version out previous v now db in Opens previous v now db r db'
  unfolding open_version
  open_version-Opens none v now db =
      go (add_version provenance_ok v db).0 (add_version-IsAdded provenance_ok v db)
    where
      go :
          (r : Result RuleVersion)
          → IsAdded provenance_ok v db r (add_version provenance_ok v db).1
          → Opens none v now db r (add_version provenance_ok v db).1
      go (ok _) h = h.4
      go (err _) h = h
  open_version-Opens (some p) v now db =
      go (supersede provenance_ok p.id v now db).0
        (supersede-Supersedes provenance_ok p.id v now db)
    where
      go :
          (r : Result RuleVersion)
          → Supersedes provenance_ok p.id v now db r (supersede provenance_ok p.id v now db).1
          → Opens (some p) v now db r (supersede provenance_ok p.id v now db).1
      go (ok _) h = h.1.1.written
      go (err _) h = h

  -- the tables after an approval record was written
  abbrev pub recorded : DateTime → String → String → Ruling → Option String → Db → Db
  recorded now kind id ruling reason db =
      with_approval (approval_of now kind id ruling reason db) (drawn db)

  -- The rows of `rule_version` after a decision: an approval adds the draft's version behind them and
  -- closes the one that held, a rejection leaves them as they are.
  abbrev pub Ruled : Ruling → RuleDraft → DateTime → Db → List RuleVersion → Type 0
  Ruled reject draft now db rows = rows ≡ db.rule_versions
  Ruled approve draft now db rows =
      (payload : Fields) × (merged_payload (current draft.policy_id now db.rule_versions) draft
        ≡ some payload)
      × (rows
          ≡ opened (current draft.policy_id now db.rule_versions)
              (approved_version session draft now (current draft.policy_id now db.rule_versions)
                payload (approval_provenance out draft db))
              now db.rule_versions)

  abbrev pub decision_record : Ruling → RuleDraft → Option String → DateTime → Db → ApprovalRecord
  decision_record ruling draft reason now db =
      approval_of now (kind_of ruling) (target_of ruling draft) ruling (reason_of ruling reason) db

  -- the event of a decision, once the record has drawn its id
  abbrev pub decision_event : Ruling → RuleDraft → DateTime → Db → AuditEvent
  decision_event ruling draft now db = record {
    id = str_append (audit_rule_decision ruling) (str_append ":" (uuid (db.draws + 1)));
    actor = session.username;
    at = now;
    action = audit_rule_decision ruling;
    target = draft.id;
    outcome = "success";
    after = some (
        field "policyId" (str draft.policy_id)
          (field "ruleVersionId" (version_json (made_version ruling draft)) end));
  }

  -- A ruling up to its audit event: the record, and the rows of `rule_version`.
  abbrev pub Rules :
      Ruling → RuleDraft → Option String → DateTime → Db → Result ApprovalRecord → Db → Type 0
  Rules ruling draft reason now db (ok a) db' =
      (a ≡ decision_record ruling draft reason now db)
      × (db' ≡ record (with_approval a (drawn db)) { rule_versions = db'.rule_versions })
      × Ruled ruling draft now db db'.rule_versions
  Rules ruling draft reason now db (err _) db' =
      (db'.rule_drafts ≡ db.rule_drafts)
      × (db'.rule_versions ≡ db.rule_versions)
      × (db'.audit ≡ db.audit)

  abbrev ARules :
      Ruling → RuleDraft → Option String → DateTime → Db → Result ApprovalRecord × Db → Type 0
  ARules ruling draft reason now db r = Rules ruling draft reason now db r.0 r.1

  module _ (draft : RuleDraft) (reason : Option String) (now : DateTime) (db : Db) where
    abbrev previous : Option RuleVersion
    previous = current draft.policy_id now db.rule_versions

    abbrev new_version : Fields → RuleVersion
    new_version payload =
        approved_version session draft now previous payload (approval_provenance out draft db)

    -- the rest of an approval, once its record is written
    abbrev last_steps : Fields → ApprovalRecord → Action ApprovalRecord
    last_steps payload a = open_version out previous (new_version payload) now >> pure a

    abbrev Ends : Result ApprovalRecord × Db → Type 0
    Ends = ARules approve draft reason now db

    last-Ends :
        (payload : Fields)
        → merged_payload previous draft ≡ some payload
        → let a = decision_record approve draft reason now db in
          Ends (last_steps payload a (with_approval a (drawn db)))
    last-Ends payload h =
        go (open_version out previous (new_version payload) now recorded_db).0
          (open_version out previous (new_version payload) now recorded_db).1
          (open_version-Opens previous (new_version payload) now recorded_db)
      where
        recorded_db : Db
        recorded_db = with_approval (decision_record approve draft reason now db) (drawn db)

        go :
            (r : Result RuleVersion) (db' : Db)
            → Opens previous (new_version payload) now recorded_db r db'
            → Ends (
                ((λ _. (r, db')) >> pure (decision_record approve draft reason now db)) recorded_db)
        go (ok _) db' o = (refl, rw o refl, (payload, h, rw o refl))
        go (err _) db' o = rw o (refl, refl, refl)

    over_step :
        (payload : Fields)
        → merged_payload previous draft ≡ some payload
        → approve_over out session draft reason now previous db
          ≡ (write_approval out session now "rule_version"
                  (version_id draft)
                  approve
                  (or_none reason)
                >>= last_steps payload)
              db
    unfolding approve_over
    over_step payload e = rw (e, or_raise) refl

    over-Ends : Ends (approve_over out session draft reason now previous db)
    unfolding approve_over
    over-Ends = elim (Option-cases (merged_payload previous draft)) [
      | inl e ↦ rw (e, or_raise) (refl, refl, refl)
      | inr (payload, e) ↦
          let write =
            write_approval out session now "rule_version" (version_id draft) approve
              (or_none reason) in
          elim (write_approval_cases now "rule_version" (version_id draft) approve (or_none reason)
            db) [
              | inl w ↦
                  subst Ends
                    (sym (
                      over_step payload e
                      ∙ bind_ok write (last_steps payload) db
                          (with_approval (decision_record approve draft reason now db) (drawn db))
                          (decision_record approve draft reason now db) w))
                    (last-Ends payload e)
              | inr w ↦
                  subst Ends
                    (sym (
                      over_step payload e
                      ∙ bind_err write (last_steps payload) db (drawn db) store_error w))
                    (refl, refl, refl)
            ]
    ]

  pub rule_on-Rules :
      (ruling : Ruling) (draft : RuleDraft) (reason : Option String) (now : DateTime) (db : Db)
      → let (r, db') = rule_on out ruling session draft reason now db in
        Rules ruling draft reason now db r db'
  unfolding rule_on approve_draft
  rule_on-Rules reject draft reason now db =
      elim (write_approval_cases now "rule_draft" draft.id reject reason db) [
        | inl e ↦ rw e (refl, refl, refl)
        | inr e ↦ rw e (refl, refl, refl)
      ]
  rule_on-Rules approve draft reason now db = elim (previous_version_cases draft.policy_id now db) [
    | inl e ↦
        subst (ARules approve draft reason now db)
          (sym (
            bind_ok (previous_version draft.policy_id now)
              (approve_over out session draft reason now) db db
              (current draft.policy_id now db.rule_versions) e))
          (over-Ends draft reason now db)
    | inr e ↦
        subst (ARules approve draft reason now db)
          (sym (
            bind_err (previous_version draft.policy_id now)
              (approve_over out session draft reason now) db db store_error e))
          (refl, refl, refl)
  ]
