-- ===== src/Scoring/Tests.antt =====
-- packages/domain/src/scoring.ts: runs at concrete inputs.
use interview_agent.Common.{
  ◌≡◌, ◌↔◌, ◌≤◌, refl, [], ◌∷◌, length, ok, err, arith, false, text_eq, has, List, All,
}
use interview_agent.Interview.{
  scored, parse_positive_question_score, go_language, database_storage, zero_score, skipped,
}
use interview_agent.Scoring.{
  validate_rubric, rubric_loop, score_question, check_awards, check_award, evidence_loop,
  rubric_by_id, award_loop, derive_evaluated_question_outcome, outcome_of_score, rounded_average,
  invalid_award, invalid_evidence_reference, SelectedQuestionScore, CompleteInterviewScore,
  aggregate_complete_interview_score,
}
use interview_agent.Scoring.Rubric.{IsRubric, validate_rubric_iff}
use interview_agent.Scoring.Score.{IsScored}
use interview_agent.Scoring.Totals.{is_total_error, score_question-error}
use interview_agent.Scoring.Average.{rounded_average_bounds}
use interview_agent.Samples.{sample_rubric, sample_evaluation, sample_scored}
use interview_agent.Scoring.Accepts.{IsEvidenced, score_question_iff}
use interview_agent.Scoring.Domains.{IsTotal, aggregate_complete_interview_score-IsTotal}

-- One score of 50 in Go and one of 0 in databases.
abbrev sample_scores : List SelectedQuestionScore
sample_scores =
    record { domain = go_language; outcome = scored 50 }
    ∷ record { domain = database_storage; outcome = zero_score skipped }
    ∷ []

score_run : score_question sample_rubric sample_evaluation ((3 ∷ []) ∷ []) ≡ ok sample_scored
unfolding score_question validate_rubric rubric_loop has text_eq check_awards check_award
    evidence_loop rubric_by_id award_loop derive_evaluated_question_outcome outcome_of_score
    parse_positive_question_score
score_run = refl

-- The material that the evidence names is not the question's.
unscored_run :
    score_question sample_rubric sample_evaluation []
    ≡ err (invalid_award (invalid_evidence_reference (1 ∷ []) (3 ∷ [])))
unfolding score_question validate_rubric rubric_loop has text_eq check_awards check_award
    evidence_loop rubric_by_id
unscored_run = refl

validate_rubric_iff_example :
    (validate_rubric sample_rubric ≡ ok (length sample_rubric)) ↔ IsRubric sample_rubric
validate_rubric_iff_example = validate_rubric_iff sample_rubric

score_question_iff_example :
    (score_question sample_rubric sample_evaluation ((3 ∷ []) ∷ []) ≡ ok sample_scored) ↔ (
      IsScored sample_rubric sample_evaluation sample_scored
      × All (IsEvidenced ((3 ∷ []) ∷ [])) sample_evaluation.rubric_items)
score_question_iff_example =
    score_question_iff sample_rubric sample_evaluation ((3 ∷ []) ∷ []) sample_scored

aggregate_complete_interview_score-IsTotal_example :
    (score : CompleteInterviewScore) × (aggregate_complete_interview_score sample_scores 2
      ≡ ok score)
    × IsTotal sample_scores score
aggregate_complete_interview_score-IsTotal_example =
    aggregate_complete_interview_score-IsTotal sample_scores (λ h. absurd cc)
      (omega arith, (omega arith, tt))

score_question-error_example :
    is_total_error (invalid_award (invalid_evidence_reference (1 ∷ []) (3 ∷ []))) ≡ false
score_question-error_example = score_question-error sample_rubric sample_evaluation [] unscored_run

rounded_average_bounds_example :
    (50 ≤ rounded_average (50 ∷ 75 ∷ [])) × (rounded_average (50 ∷ 75 ∷ []) ≤ 75)
rounded_average_bounds_example =
    rounded_average_bounds 50 75 (50 ∷ 75 ∷ []) (λ h. absurd (cc))
      ((omega arith, omega arith), ((omega arith, omega arith), tt))
