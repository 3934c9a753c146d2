-- ===== src/Approval/Decide/Applied.antt =====
-- What `_apply_decision` of backend/src/home_compass/main.py leaves behind.
use Prim.Native.String.{◌++◌ as str_append}
use mathlib.Core.Path.{subst}
use home_compass.Prelude.{
  ◌+◌, String, ◌≡◌, refl, sym, ap, ◌∙◌, ◌⊎◌, inl, inr, Option, List, [], ◌∷◌, ◌++◌,
}
use home_compass.Store.Models.{DateTime, Db, RuleDraft, RuleVersion, ApprovalRecord, AuditEvent}
use home_compass.Store.Action.{
  bind_ok, bind_err, Result, ok, err, store_error, pure, Action, ◌>>=◌, ◌>>◌,
}
use home_compass.Store.Inserts.{with_event, with_approval, append_event_cases}
use home_compass.Auth.Sessions.{Session}
use home_compass.Auth.Gate.{record_event}
use home_compass.Approval.Decide.{
  Ruling, Outcome, Outside, record_decision, rule_on, made_version, apply_decision,
}
use home_compass.Approval.Decide.Rulings.{
  drawn, Ruled, Rules, decision_record, decision_event, rule_on-Rules,
}

module _ (out : Outside) (session : Session) where
  open out use {uuid}

  abbrev pub outcome_of : Ruling → RuleDraft → DateTime → Db → Outcome
  outcome_of ruling draft now db = record {
    draft_id = draft.id;
    ruling = ruling;
    rule_version_id = made_version ruling draft;
    approval_record_id = str_append "approval:" (uuid db.draws);
    at = now;
  }

  -- A decision that was carried out: one approval record, one audit event, and the rows of
  -- `rule_version` as the ruling asks. One that raised: the drafts are as they were.
  abbrev pub IsApplied :
      Ruling → RuleDraft → Option String → DateTime → Db → Result Outcome × Db → Type 0
  IsApplied ruling draft reason now db (ok o, db') =
      (o ≡ outcome_of ruling draft now db)
      × (db' ≡ record db {
        rule_versions = db'.rule_versions;
        approvals = db.approvals ++ decision_record out session ruling draft reason now db ∷ [];
        audit = db.audit ++ decision_event out session ruling draft now db ∷ [];
        draws = db.draws + 1 + 1;
      })
      × Ruled out session ruling draft now db db'.rule_versions
  IsApplied ruling draft reason now db (err _, db') = db'.rule_drafts ≡ db.rule_drafts

  module _ (ruling : Ruling) (draft : RuleDraft) (reason : Option String) (now : DateTime)
      (db : Db) where
    abbrev logged : ApprovalRecord → Action Outcome
    logged a =
        record_decision out session draft ruling now (made_version ruling draft)
        >> pure (record {
          draft_id = draft.id;
          ruling = ruling;
          rule_version_id = made_version ruling draft;
          approval_record_id = a.id;
          at = now;
        })

    -- the tables of a ruling with its record `a` and its rows
    abbrev ruled : ApprovalRecord → List RuleVersion → Db
    ruled a rows = record (with_approval a (drawn db)) { rule_versions = rows }

    record_decision_cases :
        (rows : List RuleVersion)
        → let start = ruled (decision_record out session ruling draft reason now db) rows in
          let e = decision_event out session ruling draft now db in
          let r = record_decision out session draft ruling now (made_version ruling draft) start in
          (r ≡ (ok e, with_event e (drawn start))) ⊎ (r ≡ (err store_error, drawn start))
    unfolding record_decision record_event
    record_decision_cases rows =
        append_event_cases (decision_event out session ruling draft now db)
          (drawn (ruled (decision_record out session ruling draft reason now db) rows))

    logged_once :
        (rows : List RuleVersion)
        → Ruled out session ruling draft now db rows
        → let a = decision_record out session ruling draft reason now db in
          IsApplied ruling draft reason now db (logged a (ruled a rows))
    logged_once rows h =
        let a = decision_record out session ruling draft reason now db in
        let db' = ruled a rows in
        let e = decision_event out session ruling draft now db in
        let step = record_decision out session draft ruling now (made_version ruling draft) in
        let k = λ (_ : AuditEvent). pure (outcome_of ruling draft now db) in
        elim (record_decision_cases rows) [
          | inl p ↦
              subst (IsApplied ruling draft reason now db)
                (sym (bind_ok step k db' (with_event e (drawn db')) e p)) (refl, refl, h)
          | inr p ↦
              subst (IsApplied ruling draft reason now db)
                (sym (bind_err step k db' (drawn db') store_error p)) refl
        ]

    logged-IsApplied :
        (r : Result ApprovalRecord) (db' : Db)
        → Rules out session ruling draft reason now db r db'
        → IsApplied ruling draft reason now db (((λ (_ : Db). (r, db')) >>= logged) db)
    logged-IsApplied (err _) db' h = h.0
    logged-IsApplied (ok a) db' (same, tables, rows) =
        subst (λ x. IsApplied ruling draft reason now db (logged x db')) (sym same)
          (subst
            (λ x.
              IsApplied ruling draft reason now db
                (logged (decision_record out session ruling draft reason now db) x))
            (sym (tables ∙ ap (λ x. ruled x db'.rule_versions) same))
            (logged_once db'.rule_versions rows))

    pub apply_decision-IsApplied :
        IsApplied ruling draft reason now db (apply_decision out session draft ruling reason now db)
    unfolding apply_decision
    apply_decision-IsApplied =
        let r = rule_on out ruling session draft reason now db in
        logged-IsApplied r.0 r.1 (rule_on-Rules out session ruling draft reason now db)
