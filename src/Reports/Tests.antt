-- ===== src/Reports/Tests.antt =====
-- packages/domain/src/reports.ts: the theorems at concrete inputs.
use interview_agent.Common.{◌≡◌, refl, none, ok, List, [], ◌∷◌, any, has, text_eq, get, set, arith}
use interview_agent.Interview.{
  go_language, concurrency_runtime_performance, http_rpc_api, database_storage,
  cache_messaging_distributed, testing_observability_engineering, scored, zero_score, skipped,
  parse_positive_question_score,
}
use interview_agent.Scoring.{
  assessed, unassessed, aggregate_domain_scores, domain_score, scores_in, rounded_average, sum,
  create_zero_question_outcome,
}
use interview_agent.Reports.{
  ReportSnapshot, ReportQuestionFeedback, answer_material, question_snapshot, Issue, at_questions,
  non_contiguous_position,
}
use interview_agent.Reports.Questions.{
  question_issues, feedback_outcome, validate_evidence, matched_loop, missing_loop, awarded_score,
}
use interview_agent.Reports.Snapshots.{
  semantic_issues, tally, domain_issues, question_loop, counted_issues, repeated, missing_positions,
  compare_domains, find_domain, score_issues, question_version_issues, version_issues, extra_issues,
  questions_by_id, versions_by_id,
}
use interview_agent.Reports.Consistent.{IsConsistent, semantic_issues-IsConsistent}
use interview_agent.Reports.Total.{semantic_issues-total}

-- A question with 50 points for one rubric item, on an answer.
abbrev scored_feedback : ReportQuestionFeedback
scored_feedback = record {
  question_id = 1 ∷ [];
  question_version = 1;
  domain = go_language;
  position = 1;
  displayed_question = 81 ∷ [];
  answer_summary = 65 ∷ [];
  matched_knowledge_points =
      record {
        rubric_item_id = 1 ∷ [];
        summary = 80 ∷ [];
        awarded_points = 50;
        evidence = answer_material (3 ∷ []) ∷ [];
      }
      ∷ [];
  missing_or_incorrect_points = [];
  score_rationale = 82 ∷ [];
  improvement_suggestions = (73 ∷ []) ∷ [];
  evidence = answer_material (3 ∷ []) ∷ [];
  outcome = scored 50;
}

-- A skipped question, with its snapshot as evidence.
abbrev skipped_feedback : ReportQuestionFeedback
skipped_feedback = record scored_feedback {
  question_id = 2 ∷ [];
  domain = http_rpc_api;
  position = 2;
  matched_knowledge_points = [];
  evidence = question_snapshot (2 ∷ []) ∷ [];
  outcome = zero_score skipped;
}

-- The incomplete report on the two.
abbrev small_report : ReportSnapshot
small_report = record {
  overall_score = none;
  question_versions =
      record { question_id = 1 ∷ []; question_version = 1 }
      ∷ record { question_id = 2 ∷ []; question_version = 1 }
      ∷ [];
  domains =
      assessed go_language 50 1
      ∷ unassessed concurrency_runtime_performance
      ∷ assessed http_rpc_api 0 1
      ∷ unassessed database_storage
      ∷ unassessed cache_messaging_distributed
      ∷ unassessed testing_observability_engineering
      ∷ [];
  questions = scored_feedback ∷ skipped_feedback ∷ [];
}

small_report_clean : semantic_issues small_report ≡ ok []
unfolding semantic_issues tally get set domain_issues question_loop question_issues feedback_outcome
    parse_positive_question_score validate_evidence matched_loop missing_loop awarded_score any has
    text_eq counted_issues repeated missing_positions compare_domains find_domain score_issues
    question_version_issues version_issues extra_issues questions_by_id versions_by_id
    aggregate_domain_scores domain_score scores_in rounded_average sum create_zero_question_outcome
small_report_clean = refl

semantic_issues-IsConsistent_example : IsConsistent small_report
semantic_issues-IsConsistent_example = semantic_issues-IsConsistent small_report small_report_clean

semantic_issues-total_example :
    (issues : List Issue) × (semantic_issues (record small_report { domains = [] }) ≡ ok issues)
semantic_issues-total_example =
    semantic_issues-total (record small_report { domains = [] })
      ((omega arith, omega arith), (tt, tt))

-- The second question at the third position, and another score for a domain.
gap_found :
    semantic_issues (record small_report {
      questions = scored_feedback ∷ record skipped_feedback { position = 3 } ∷ [];
    })
    ≡ ok (record { path = at_questions; code = non_contiguous_position } ∷ [])
unfolding semantic_issues tally get set domain_issues question_loop question_issues feedback_outcome
    parse_positive_question_score validate_evidence matched_loop missing_loop awarded_score any has
    text_eq counted_issues repeated missing_positions compare_domains find_domain score_issues
    question_version_issues version_issues extra_issues questions_by_id versions_by_id
    aggregate_domain_scores domain_score scores_in rounded_average sum create_zero_question_outcome
gap_found = refl
