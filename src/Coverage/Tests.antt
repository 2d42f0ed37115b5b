-- ===== src/Coverage/Tests.antt =====
-- packages/domain/src/blueprint-coverage.ts: runs at concrete inputs.
use interview_agent.Common.{◌≡◌, ◌↔◌, some, none, [], ◌∷◌, ◌++◌, List, length, ok, arith}
use interview_agent.Interview.{
  InterviewBlueprintItem, go_language, concurrency_runtime_performance,
  testing_observability_engineering, http_rpc_api,
}
use interview_agent.Coverage.{validate_interview_blueprint_coverage}
use interview_agent.Coverage.Quota.{CoversFive, CoversAll}
use interview_agent.Coverage.Accepts.{validate-CoversAll, validate-CoversFive}
use interview_agent.Samples.{five_items, sample_item}

-- Ten questions that cover every domain.
abbrev ten_items : List InterviewBlueprintItem
ten_items =
    five_items
    ++ sample_item 6 testing_observability_engineering
      ∷ sample_item 7 go_language
      ∷ sample_item 8 concurrency_runtime_performance
      ∷ sample_item 9 http_rpc_api
      ∷ sample_item 10 http_rpc_api
      ∷ []

validate-CoversAll_example :
    (validate_interview_blueprint_coverage 10 ten_items none ≡ ok tt)
    ↔ ((length ten_items ≡ 10) × CoversAll 10 ten_items none)
validate-CoversAll_example = validate-CoversAll 10 ten_items none (λ h. absurd (ground arith))

validate-CoversFive_example :
    (validate_interview_blueprint_coverage 5 five_items (some testing_observability_engineering)
      ≡ ok tt)
    ↔ ((length five_items ≡ 5) × CoversFive five_items (some testing_observability_engineering))
validate-CoversFive_example =
    validate-CoversFive five_items (some testing_observability_engineering)
