-- ===== src/Engine/Blueprints.antt =====
-- packages/domain/src/engine.ts: validation of a blueprint and creation of an interview. `Object.freeze`
-- of a copy leaves the value as it is, so a validated blueprint is the blueprint that was given.
use interview_agent.Common.{
  ℕ, suc, ◌+◌, Bool, false, not, ◌&&◌, ◌||◌, ◌==◌, none, some, List, [], ◌∷◌, map, length, Text,
  text_eq, has, Num, num_eq, is_integer, below, clone_date, Result, ok, ◌>>=◌, ◌>>◌, throw_if,
  rethrow,
}
use interview_agent.Interview.{
  InterviewBlueprint, InterviewBlueprintItem, QuestionSnapshot, RubricItemSnapshot,
  FollowUpGoalSnapshot, clarification, follow_up_kind_eq, active, awaiting_response,
  is_supported_question_count,
}
use interview_agent.Scoring.{validate_rubric}
use interview_agent.Coverage.{validate_interview_blueprint_coverage}
use interview_agent.Engine.{
  CreateInterviewCommand, Interview, InterviewQuestionState, InterviewTransition, interview_created,
  DomainError, version_conflict, invalid_blueprint, unsupported_question_count,
  wrong_question_total, wrong_position, duplicate_question, invalid_question_version, rubric_reason,
  duplicate_follow_up_goal, missing_clarification_goal, coverage_reason,
}
use interview_agent.Engine.Guards.{
  Checked, assert_valid_date, assert_non_empty_text, assert_non_empty_blueprint_text,
}

unfoldable pub check_descriptions : List RubricItemSnapshot → Checked
unfolding assert_non_empty_blueprint_text
check_descriptions [] = ok tt
check_descriptions (item ∷ rest) = do
  assert_non_empty_blueprint_text item.description
  check_descriptions rest

-- The loop over the follow-up goals; its result is `hasClarificationGoal`.
unfoldable pub goal_loop : List Text → Bool → List FollowUpGoalSnapshot → Result DomainError Bool
unfolding assert_non_empty_blueprint_text
goal_loop seen found [] = ok found
goal_loop seen found (goal ∷ rest) = do
  throw_if (has seen goal.id) (invalid_blueprint (duplicate_follow_up_goal goal.id))
  assert_non_empty_blueprint_text goal.goal
  goal_loop (goal.id ∷ seen) (found || follow_up_kind_eq goal.kind clarification) rest

unfoldable pub validate_question_snapshot : QuestionSnapshot → Checked
unfolding assert_non_empty_blueprint_text
validate_question_snapshot question = do
  throw_if (not (is_integer question.question_version) || below question.question_version 1)
      (invalid_blueprint invalid_question_version)
  assert_non_empty_blueprint_text question.source_wording
  assert_non_empty_blueprint_text question.displayed_wording
  assert_non_empty_blueprint_text question.knowledge_explanation
  check_descriptions question.rubric
  _ ← rethrow (λ e. invalid_blueprint (rubric_reason e)) (validate_rubric question.rubric)
  found ← goal_loop [] false question.follow_up_goals
  throw_if (not found) (invalid_blueprint missing_clarification_goal)

-- `questionKeys.has(key)` for the key `id:version`. A validated version is printed in digits, with
-- no colon, so two keys are equal exactly when the identifiers and the versions are.
unfoldable pub has_key : List (Text × Num) → Text → Num → Bool
has_key [] id version = false
has_key ((i, v) ∷ rest) id version = (text_eq i id && num_eq v version) || has_key rest id version

-- The callback of `blueprint.questions.map`, from one index on.
unfoldable pub item_loop : ℕ → List (Text × Num) → List InterviewBlueprintItem → Checked
item_loop index keys [] = ok tt
item_loop index keys (item ∷ rest) = do
  throw_if (not (item.position == index + 1))
      (invalid_blueprint (wrong_position item.position (index + 1)))
  validate_question_snapshot item.question
  throw_if (has_key keys item.question.question_id item.question.question_version) (
      invalid_blueprint
        (duplicate_question item.question.question_id item.question.question_version))
  item_loop (suc index) ((item.question.question_id, item.question.question_version) ∷ keys) rest

unfoldable pub validate_and_freeze_blueprint :
    InterviewBlueprint → ℕ → Result DomainError InterviewBlueprint
unfolding assert_non_empty_text
validate_and_freeze_blueprint blueprint question_count = do
  assert_non_empty_text blueprint.selection_seed
  throw_if (not (length blueprint.questions == question_count))
      (invalid_blueprint (wrong_question_total question_count))
  item_loop 0 [] blueprint.questions
  rethrow (λ e. invalid_blueprint (coverage_reason e))
      (validate_interview_blueprint_coverage question_count blueprint.questions
        blueprint.unassessed_domain)
  ok blueprint

unfoldable pub new_question_state : InterviewBlueprintItem → InterviewQuestionState
new_question_state item = record {
  position = item.position;
  answer_material = [];
  question_clarifications = [];
  system_follow_ups = [];
  evaluation = none;
  outcome = none;
  frozen = false;
}

unfoldable pub new_interview : CreateInterviewCommand → InterviewBlueprint → Interview
new_interview command blueprint = record {
  id = command.base.interview_id;
  account_id = command.account_id;
  version = 1;
  status = active;
  phase = some awaiting_response;
  question_count = command.question_count;
  blueprint = blueprint;
  current_question_position = 1;
  questions = map new_question_state blueprint.questions;
  pending_operation = none;
  pending_report_kind = none;
  report_requested_at = none;
  report_id = none;
  created_at = clone_date command.base.occurred_at;
  last_effective_activity_at = clone_date command.base.occurred_at;
}

-- `createInterview`
unfoldable pub create : CreateInterviewCommand → Result DomainError InterviewTransition
unfolding assert_valid_date new_interview
create command = do
  throw_if (not (command.base.expected_version == 0))
      (version_conflict command.base.expected_version 0)
  assert_valid_date command.base.occurred_at
  throw_if (not (is_supported_question_count command.question_count))
      (invalid_blueprint unsupported_question_count)
  blueprint ← validate_and_freeze_blueprint command.blueprint command.question_count
  ok (record {
    interview = new_interview command blueprint;
    events =
        interview_created
          (record {
            interview_id = command.base.interview_id;
            operation_id = command.base.operation_id;
            occurred_at = clone_date command.base.occurred_at;
          })
          command.account_id command.question_count blueprint
        ∷ [];
  })
