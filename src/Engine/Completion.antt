-- ===== src/Engine/Completion.antt =====
-- packages/domain/src/engine.ts: what the model's result does to an accepted operation.
use interview_agent.Common.{
  ◌||◌, if◌then◌else◌, none, some, [], ◌∷◌, ◌++◌, is_some, clone_date, Result, ok, err, ◌>>=◌, ◌>>◌,
}
use interview_agent.Interview.{
  awaiting_response, awaiting_continue, processing, AnswerMaterial, QuestionEvaluation,
}
use interview_agent.Engine.{
  CommandBase, Interview, InterviewQuestionState, InterviewTransition, InterviewEvent, PlanBase,
  InterviewOperationPlan, answer_analysis_plan, question_clarification_plan,
  InterviewOperationCompletion, record_question_clarification, record_system_follow_up,
  record_question_evaluation, RecordQuestionClarificationCommand, RecordSystemFollowUpCommand,
  RecordQuestionEvaluationCommand, answer_material_submitted, question_clarification_requested,
  question_clarification_recorded, system_follow_up_recorded, question_outcome_cleared,
  question_evaluation_recorded, DomainError, invalid_command, needs_clarification_completion,
  needs_answer_completion, SystemFollowUp, QuestionClarification,
}
use interview_agent.Engine.Guards.{
  assert_active, assert_phase, assert_non_empty_text, assert_valid_date, is_interview_expired,
  get_current_question_state, replace_current_question,
}
use interview_agent.Engine.Immediate.{event_base}
use interview_agent.Engine.Accepted.{
  completion_base, assert_plan_still_current, plan_event_base, expire_accepted_operation,
}
use interview_agent.Engine.Validation.{validate_follow_up, validate_question_evaluation}

-- The clarification that a completion adds.
abbrev pub new_clarification :
    CommandBase → RecordQuestionClarificationCommand → QuestionClarification
new_clarification command completion = record {
  message_id = completion.message_id;
  text = completion.text;
  requested_at = clone_date command.occurred_at;
  recorded_at = clone_date completion.base.occurred_at;
}

unfoldable pub complete_question_clarification :
    Interview
    → PlanBase
    → CommandBase
    → RecordQuestionClarificationCommand
    → Result DomainError InterviewTransition
unfolding assert_active assert_phase assert_non_empty_text assert_valid_date
    replace_current_question
complete_question_clarification interview base command completion = do
  assert_active interview
  assert_phase interview processing
  assert_non_empty_text completion.text
  assert_valid_date completion.base.occurred_at
  question ← get_current_question_state interview
  let updated = record question {
    question_clarifications =
        question.question_clarifications ++ new_clarification command completion ∷ [];
  }
  ok (record {
    interview = record (replace_current_question interview updated) {
      phase = some awaiting_response;
      pending_operation = none;
    };
    events =
        question_clarification_requested (plan_event_base interview base command.occurred_at)
          base.question_position
        ∷ question_clarification_recorded (event_base interview completion.base)
            completion.message_id base.question_position completion.text
        ∷ [];
  })

abbrev pub answer_material_event : Interview → PlanBase → AnswerMaterial → InterviewEvent
answer_material_event interview base material =
    answer_material_submitted (plan_event_base interview base material.submitted_at) material.id
      material.kind base.question_position material.text

-- The follow-up that a completion adds.
abbrev pub new_follow_up : RecordSystemFollowUpCommand → SystemFollowUp
new_follow_up completion = record {
  message_id = completion.message_id;
  goal_id = completion.goal_id;
  kind = completion.kind;
  purpose = completion.purpose;
  response_classification = completion.response_classification;
  text = completion.text;
  recorded_at = clone_date completion.base.occurred_at;
}

-- The question that `completeWithSystemFollowUp` stores.
unfoldable pub followed_up :
    InterviewQuestionState → AnswerMaterial → RecordSystemFollowUpCommand → InterviewQuestionState
followed_up question material completion = record question {
  answer_material = question.answer_material ++ material ∷ [];
  system_follow_ups = question.system_follow_ups ++ new_follow_up completion ∷ [];
  evaluation = none;
  outcome = none;
}

unfoldable pub complete_with_system_follow_up :
    Interview
    → PlanBase
    → AnswerMaterial
    → RecordSystemFollowUpCommand
    → Result DomainError InterviewTransition
unfolding assert_active assert_phase assert_non_empty_text assert_valid_date
    replace_current_question followed_up
complete_with_system_follow_up interview base material completion = do
  assert_active interview
  assert_phase interview processing
  assert_non_empty_text completion.text
  assert_valid_date completion.base.occurred_at
  question ← get_current_question_state interview
  validate_follow_up interview question completion
  let had_evaluation = is_some question.evaluation || is_some question.outcome
  let cleared =
      if had_evaluation
      then question_outcome_cleared (plan_event_base interview base completion.base.occurred_at)
          base.question_position
        ∷ []
      else []
  let recorded =
      system_follow_up_recorded (event_base interview completion.base) base.question_position
        completion
  ok (record {
    interview =
        record (replace_current_question interview (followed_up question material completion)) {
          phase = some awaiting_response;
          pending_operation = none;
        };
    events = answer_material_event interview base material ∷ (cleared ++ recorded ∷ []);
  })

-- The question that `completeWithQuestionEvaluation` stores.
unfoldable pub evaluated :
    InterviewQuestionState → AnswerMaterial → QuestionEvaluation → InterviewQuestionState
evaluated question material evaluation = record question {
  answer_material = question.answer_material ++ material ∷ [];
  evaluation = some evaluation;
  outcome = some evaluation.outcome;
}

unfoldable pub complete_with_question_evaluation :
    Interview
    → PlanBase
    → AnswerMaterial
    → RecordQuestionEvaluationCommand
    → Result DomainError InterviewTransition
unfolding assert_active assert_phase assert_valid_date replace_current_question evaluated
complete_with_question_evaluation interview base material completion = do
  assert_active interview
  assert_phase interview processing
  assert_valid_date completion.base.occurred_at
  question ← get_current_question_state interview
  evaluation ←
      validate_question_evaluation interview question (question.answer_material ++ material ∷ [])
        completion.evaluation
  ok (record {
    interview =
        record (replace_current_question interview (evaluated question material evaluation)) {
          phase = some awaiting_continue;
          pending_operation = none;
        };
    events =
        answer_material_event interview base material
        ∷ question_evaluation_recorded (event_base interview completion.base) base.question_position
            evaluation
        ∷ [];
  })

-- The choice of a completion by the plan's operation and the completion's type.
unfoldable pub complete_planned :
    Interview
    → InterviewOperationPlan
    → InterviewOperationCompletion
    → Result DomainError InterviewTransition
unfolding complete_question_clarification complete_with_system_follow_up
    complete_with_question_evaluation
complete_planned interview (question_clarification_plan base command)
      (record_question_clarification completion) =
    complete_question_clarification interview base command completion
complete_planned interview (question_clarification_plan base command) completion =
    err (invalid_command needs_clarification_completion)
complete_planned interview (answer_analysis_plan base command material)
      (record_system_follow_up completion) =
    complete_with_system_follow_up interview base material completion
complete_planned interview (answer_analysis_plan base command material)
      (record_question_evaluation completion) =
    complete_with_question_evaluation interview base material completion
complete_planned interview (answer_analysis_plan base command material) completion =
    err (invalid_command needs_answer_completion)

unfoldable pub complete_interview_operation :
    Interview
    → InterviewOperationPlan
    → InterviewOperationCompletion
    → Result DomainError InterviewTransition
unfolding is_interview_expired
complete_interview_operation interview plan completion = do
  assert_plan_still_current interview plan completion
  is_expired ← is_interview_expired interview (completion_base completion).occurred_at
  if is_expired
      then ok (expire_accepted_operation interview plan completion)
      else complete_planned interview plan completion
