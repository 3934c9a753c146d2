-- ===== src/Examples/Proposals.antt =====
-- The theorems on the reports of counselors at examples.
use home_compass.Prelude.{◌≡◌, [], ◌∷◌, map}
use home_compass.Store.Models.{AnomalyReport, region, policy, opened}
use home_compass.Reports.{ReportRequest, ref_of, merge_reports, create_report_endpoint}
use home_compass.Reports.Proposals.{IsProposal, create_report_endpoint-IsProposal}
use home_compass.Reports.Queue.{merge_reports-eq-map}
use home_compass.Examples.{tables, noon, sessions, outside, request_of, hour_and_day, waiting}

abbrev rent : ReportRequest
rent = record {
  target_kind = region;
  target_id = "11440";
  target_field = "monthlyRentKRW";
  reason = "too low";
}

create_report_endpoint-IsProposal_example :
    let r =
      create_report_endpoint outside hour_and_day
        ("11440" ∷ [])
        rent
        (request_of "cookie:2")
        noon
        noon
        sessions
        tables in
    IsProposal outside hour_and_day
      ("11440" ∷ [])
      rent
      (request_of "cookie:2")
      noon
      noon
      sessions
      tables
      r.0
      r.2
create_report_endpoint-IsProposal_example =
    create_report_endpoint-IsProposal outside hour_and_day ("11440" ∷ []) rent
      (request_of "cookie:2") noon noon sessions tables

abbrev on_policy : AnomalyReport
on_policy = record {
  id = "report:1";
  reporter = "counselor";
  at = noon;
  target_kind = policy;
  target_id = "beotimmok";
  target_field = "name";
  reason = "renamed";
  status = opened;
}

merge_reports-eq-map_example :
    merge_reports (waiting ∷ []) (on_policy ∷ on_policy ∷ [])
    ≡ map (ref_of (waiting ∷ [])) (on_policy ∷ on_policy ∷ [])
merge_reports-eq-map_example = merge_reports-eq-map (waiting ∷ []) (on_policy ∷ on_policy ∷ [])
