-- ===== src/Saves/Completions.antt =====
-- packages/db/src/repositories/transition-validation.ts: the validation of a completed operation.
use interview_agent.Common.{
  ℕ, Bool, true, false, not, ◌||◌, ◌==◌, if◌then◌else◌, Option, none, some, is_some, [], ◌∷◌, ◌++◌,
  Text, before, clone_date, ◌>>=◌, ◌>>◌,
}
use interview_agent.Interview.{awaiting_response, awaiting_continue, QuestionEvaluation}
use interview_agent.Engine.{
  Interview, PendingInterviewOperation, answer_analysis, question_clarification, EventBase,
  RecordSystemFollowUpCommand, SystemFollowUp, QuestionClarification,
}
use interview_agent.Saves.{
  clarification_mismatch, follow_up_mismatch, clear_mismatch, evaluation_mismatch,
  operation_mismatch, AnswerEvent,
}
use interview_agent.Saves.Validate.{
  SaveChecked, reject_if, assert_aggregate_equals, get_question, replace_question, require_pending,
  is_of_operation, assert_answer_event, answer_material_from,
}

-- The clarification that the two events add.
abbrev pub clarification_from : EventBase → EventBase → Text → Text → QuestionClarification
clarification_from request recorded message text = record {
  message_id = message;
  text = text;
  requested_at = clone_date request.occurred_at;
  recorded_at = clone_date recorded.occurred_at;
}

unfoldable pub validate_clarification_completion :
    Interview → Interview → EventBase → ℕ → EventBase → Text → ℕ → Text → SaveChecked
unfolding replace_question
validate_clarification_completion previous current request position recorded message
      recorded_position text =
    do
      pending ← require_pending previous question_clarification
      reject_if previous
          (not (is_of_operation pending request) || not (is_of_operation pending recorded))
          operation_mismatch
      reject_if previous
          (not (position == pending.question_position)
            || not (recorded_position == pending.question_position)
            || before pending.accepted_at request.occurred_at
            || before recorded.occurred_at request.occurred_at)
          clarification_mismatch
      question ← get_question previous pending.question_position
      let expected = record question {
        question_clarifications =
            question.question_clarifications
            ++ clarification_from request recorded message text ∷ [];
      }
      assert_aggregate_equals current (record (replace_question previous expected) {
        phase = some awaiting_response;
        pending_operation = none;
      })

-- The operation of a clear event, if there is one, is the pending one.
abbrev pub is_clear_of : PendingInterviewOperation → Option (EventBase × ℕ) → Bool
is_clear_of pending none = true
is_clear_of pending (some (base, position)) = is_of_operation pending base

-- The clear event, if there is one, is about the pending question.
abbrev pub is_clear_at : ℕ → Option (EventBase × ℕ) → Bool
is_clear_at expected none = true
is_clear_at expected (some (base, position)) = position == expected

abbrev pub has_clear : Option (EventBase × ℕ) → Bool
has_clear none = false
has_clear (some _) = true

-- The follow-up that a `system_follow_up_recorded` event adds.
abbrev pub follow_up_from : EventBase → RecordSystemFollowUpCommand → SystemFollowUp
follow_up_from base command = record {
  message_id = command.message_id;
  goal_id = command.goal_id;
  kind = command.kind;
  purpose = command.purpose;
  response_classification = command.response_classification;
  text = command.text;
  recorded_at = clone_date base.occurred_at;
}

unfoldable pub validate_follow_up_completion :
    Interview
    → Interview
    → AnswerEvent
    → Option (EventBase × ℕ)
    → EventBase
    → ℕ
    → RecordSystemFollowUpCommand
    → SaveChecked
unfolding replace_question
validate_follow_up_completion previous current answer clear base position command = do
  pending ← require_pending previous answer_analysis
  reject_if previous
      (not (is_of_operation pending answer.base)
        || not (is_clear_of pending clear)
        || not (is_of_operation pending base))
      operation_mismatch
  assert_answer_event previous pending answer
  reject_if previous
      (not (position == pending.question_position) || before base.occurred_at pending.accepted_at)
      follow_up_mismatch
  question ← get_question previous pending.question_position
  let had_outcome = is_some question.evaluation || is_some question.outcome
  reject_if previous
      ((if had_outcome then not (has_clear clear) else has_clear clear)
        || not (is_clear_at pending.question_position clear))
      clear_mismatch
  let expected = record question {
    answer_material = question.answer_material ++ answer_material_from answer ∷ [];
    system_follow_ups = question.system_follow_ups ++ follow_up_from base command ∷ [];
    evaluation = none;
    outcome = none;
  }
  assert_aggregate_equals current (record (replace_question previous expected) {
    phase = some awaiting_response;
    pending_operation = none;
  })

unfoldable pub validate_evaluation_completion :
    Interview → Interview → AnswerEvent → EventBase → ℕ → QuestionEvaluation → SaveChecked
unfolding replace_question
validate_evaluation_completion previous current answer base position evaluation = do
  pending ← require_pending previous answer_analysis
  reject_if previous
      (not (is_of_operation pending answer.base) || not (is_of_operation pending base))
      operation_mismatch
  assert_answer_event previous pending answer
  reject_if previous
      (not (position == pending.question_position) || before base.occurred_at pending.accepted_at)
      evaluation_mismatch
  question ← get_question previous pending.question_position
  let expected = record question {
    answer_material = question.answer_material ++ answer_material_from answer ∷ [];
    evaluation = some evaluation;
    outcome = some evaluation.outcome;
  }
  assert_aggregate_equals current (record (replace_question previous expected) {
    phase = some awaiting_continue;
    pending_operation = none;
  })
