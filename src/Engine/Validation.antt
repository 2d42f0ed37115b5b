-- ===== src/Engine/Validation.antt =====
-- packages/domain/src/engine.ts: the validation of a follow-up and of an evaluation.
use interview_agent.Common.{
  Bool, true, false, not, ◌&&◌, if◌then◌else◌, Option, none, some, List, [], ◌∷◌, map, any, Text,
  text_eq, Result, err, ◌>>=◌, ◌>>◌, rethrow,
}
use interview_agent.Interview.{
  FollowUpKind, FollowUpPurpose, irrelevant_response_clarification, clarification,
  follow_up_kind_eq, is_irrelevant, AnswerMaterial, FollowUpGoalSnapshot, QuestionEvaluation,
  QuestionEvaluationInput,
}
use interview_agent.Scoring.{
  score_question, ScoringError, invalid_rubric, invalid_award, invalid_score,
}
use interview_agent.Engine.{
  Interview, InterviewQuestionState, RecordSystemFollowUpCommand, DomainError, invalid_command,
  unexpected, unknown_goal, goal_kind_mismatch, goal_used, follow_up_kind_used, purpose_mismatch,
  irrelevant_purpose, needs_clarification_first, scoring_reason,
}
use interview_agent.Engine.Guards.{Checked, refuse_if, get_current_question, purpose_kind}

-- `followUpGoals.find((candidate) => candidate.id === goalId)`
unfoldable pub find_goal : List FollowUpGoalSnapshot → Text → Option FollowUpGoalSnapshot
find_goal [] id = none
find_goal (goal ∷ rest) id =
    let later = find_goal rest id in if text_eq goal.id id then some goal else later

-- `systemFollowUps.some(…)`, by goal and by kind.
unfoldable pub uses_goal : InterviewQuestionState → Text → Bool
unfolding any
uses_goal question id = any (λ follow_up. text_eq follow_up.goal_id id) question.system_follow_ups

unfoldable pub uses_kind : InterviewQuestionState → FollowUpKind → Bool
unfolding any
uses_kind question kind =
    any (λ follow_up. follow_up_kind_eq follow_up.kind kind) question.system_follow_ups

abbrev pub is_irrelevant_purpose : FollowUpPurpose → Bool
is_irrelevant_purpose irrelevant_response_clarification = true
is_irrelevant_purpose _ = false

abbrev pub bool_eq : Bool → Bool → Bool
bool_eq true b = b
bool_eq false b = not b

-- `validateFollowUp` once the goal has been looked up.
unfoldable pub check_follow_up :
    Option FollowUpGoalSnapshot → InterviewQuestionState → RecordSystemFollowUpCommand → Checked
unfolding purpose_kind
check_follow_up none question completion = err (invalid_command unknown_goal)
check_follow_up (some goal) question completion = do
  refuse_if (not (follow_up_kind_eq goal.kind completion.kind)) goal_kind_mismatch
  refuse_if (uses_goal question completion.goal_id) goal_used
  refuse_if (uses_kind question completion.kind) (follow_up_kind_used completion.kind)
  refuse_if (not (follow_up_kind_eq (purpose_kind completion.purpose) completion.kind))
      purpose_mismatch
  refuse_if
      (not (
        bool_eq (is_irrelevant_purpose completion.purpose)
          (is_irrelevant completion.response_classification)))
      irrelevant_purpose

unfoldable pub validate_follow_up :
    Interview → InterviewQuestionState → RecordSystemFollowUpCommand → Checked
validate_follow_up interview question completion = do
  snapshot ← get_current_question interview
  check_follow_up (find_goal snapshot.follow_up_goals completion.goal_id) question completion

-- The error that the engine throws for one that `scoreQuestion` throws.
abbrev pub scoring_failure : ScoringError → DomainError
scoring_failure (invalid_rubric e) = invalid_command (scoring_reason (invalid_rubric e))
scoring_failure (invalid_award e) = invalid_command (scoring_reason (invalid_award e))
scoring_failure (invalid_score e) = unexpected (invalid_score e)

unfoldable pub validate_question_evaluation :
    Interview
    → InterviewQuestionState
    → List AnswerMaterial
    → QuestionEvaluationInput
    → Result DomainError QuestionEvaluation
validate_question_evaluation interview question answer_material evaluation = do
  snapshot ← get_current_question interview
  refuse_if (is_irrelevant evaluation.classification && not (uses_kind question clarification))
      needs_clarification_first
  rethrow scoring_failure
      (score_question snapshot.rubric evaluation (map (λ material. material.id) answer_material))
