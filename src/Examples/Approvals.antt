-- ===== src/Examples/Approvals.antt =====
-- The theorems on the approval of drafts at the examples.
use home_compass.Prelude.{
  String, ◌≡◌, refl, ◌⊎◌, none, some, [], ◌∷◌, arith, count_where, find_where,
}
use home_compass.Store.Models.{DraftStatus}
use home_compass.Store.Json.{
  num, end, field, get_field, put_field, mentions, Items, str, nil, item, obj, Fields,
}
use home_compass.Store.Drafts.{get_draft}
use home_compass.Store.Drafts.Claim.{race, race_one_winner}
use home_compass.Approval.Decide.{approve, decide}
use home_compass.Approval.Decide.Outcomes.{Decides, decide-Decides}
use home_compass.Approval.Payload.{
  pointer_set, all_hashable, dict_or_empty, merge_criteria, override, override_criteria,
  merged_payload,
}
use home_compass.Approval.Payload.Merged.{
  IsDict, threshold, merged_field, merged_payload-thresholds, merged_payload-get,
}
use home_compass.Approval.Batch.Claims.{IsKeyedDrafts}
use home_compass.Approval.Endpoints.{
  admin_approve_endpoint, admin_reject_endpoint, admin_batch_approve_endpoint,
}
use home_compass.Approval.Endpoints.Managers.{IsManaged, Untouched, decisions_managed}
use home_compass.Examples.{
  tables, waiting, manager, sessions, request_of, hour_and_day, outside, noon, old_version,
  draft_payload, said,
}

waiting_stored : get_draft "draft:1" tables ≡ some waiting
unfolding get_draft find_where
waiting_stored = refl

keyed : IsKeyedDrafts tables
unfolding IsKeyedDrafts count_where
keyed id = ground arith

decide-Decides_example :
    Decides outside manager waiting approve
      (some "checked")
      noon
      tables
      waiting
      (decide outside manager waiting approve (some "checked") noon tables)
unfolding IsKeyedDrafts
decide-Decides_example =
    decide-Decides outside manager waiting approve (some "checked") noon tables waiting
      (keyed "draft:1") waiting_stored

race_one_winner_example :
    let r =
      race "draft:1"
        ((DraftStatus.approved, none) ∷ (DraftStatus.rejected, some "stale") ∷ [])
        tables in
    (r.0 ≡ 1) × (get_draft "draft:1" r.1 ≡ some (record waiting { status = DraftStatus.approved }))
unfolding IsKeyedDrafts
race_one_winner_example =
    race_one_winner "draft:1" DraftStatus.approved none ((DraftStatus.rejected, some "stale") ∷ [])
      tables waiting (refl, refl) ((refl, refl), tt) (keyed "draft:1") waiting_stored refl

decisions_managed_example :
    let at = λ (cookie : String).
      IsManaged outside hour_and_day (request_of cookie) noon sessions tables in
    (at "cookie:2"
      ⊎ Untouched outside hour_and_day
          (request_of "cookie:2")
          noon
          sessions
          tables
          (admin_approve_endpoint outside hour_and_day "draft:1" none
            (request_of "cookie:2")
            noon
            sessions
            tables).2)
    × (at "cookie:2"
        ⊎ Untouched outside hour_and_day
            (request_of "cookie:2")
            noon
            sessions
            tables
            (admin_reject_endpoint outside hour_and_day "draft:1" none
              (request_of "cookie:2")
              noon
              sessions
              tables).2)
    × (at "cookie:2"
        ⊎ Untouched outside hour_and_day
            (request_of "cookie:2")
            noon
            sessions
            tables
            (admin_batch_approve_endpoint outside hour_and_day
              ("draft:1" ∷ [])
              none
              (request_of "cookie:2")
              noon
              sessions
              tables).2)
decisions_managed_example =
    decisions_managed outside hour_and_day (request_of "cookie:2") noon sessions tables "draft:1"
      ("draft:1" ∷ []) none

merged_payload-thresholds_example :
    (after : Fields) × (merged_payload (some old_version) waiting ≡ some after)
    × ((criteria : Fields) × (get_field "criteria" after ≡ some (obj criteria))
        × ((k : String)
            → get_field k criteria
              ≡ threshold k
                  (item (str "/criteria/maxIncomeKRW") nil)
                  said
                  (field "maxAge" (num "34") (field "maxIncomeKRW" (num "50000000") end))))
unfolding pointer_set all_hashable mentions get_field IsDict
merged_payload-thresholds_example =
    merged_payload-thresholds (some old_version) waiting (item (str "/criteria/maxIncomeKRW") nil)
      said (field "maxAge" (num "34") (field "maxIncomeKRW" (num "50000000") end)) refl refl refl
      (refl, (refl, tt)) refl

abbrev merged : Fields
merged = field "id" (str "beotimmok") (
    field "criteria" (obj (field "maxAge" (num "39") (field "maxIncomeKRW" (num "50000000") end)))
      end)

merged_payload-get_example :
    (not_found : Items) × (pointer_set (get_field "not_found" draft_payload) ≡ some not_found)
    × (get_field "id" merged ≡ merged_field "id" not_found (some old_version) waiting)
unfolding merged_payload pointer_set all_hashable dict_or_empty override_criteria merge_criteria
    override get_field put_field mentions
merged_payload-get_example = merged_payload-get "id" (some old_version) waiting merged refl refl
