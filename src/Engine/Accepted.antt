-- ===== src/Engine/Accepted.antt =====
-- packages/domain/src/engine.ts: the test that an operation is still the one that was accepted, and
-- what becomes of it when it is cancelled or comes too late.
use interview_agent.Common.{
  Bool, true, false, not, ◌&&◌, ◌==◌, none, some, [], ◌∷◌, text_eq, Date, before, same_time,
  clone_date, Result, ok, ◌>>=◌, ◌>>◌, throw_if,
}
use interview_agent.Interview.{InterviewPhase, awaiting_response, processing, phase_eq, is_active}
use interview_agent.Engine.{
  CommandBase, Interview, InterviewTransition, EventBase, PendingInterviewOperation, OperationName,
  answer_analysis, question_clarification, PlanBase, InterviewOperationPlan, answer_analysis_plan,
  question_clarification_plan, InterviewOperationCompletion, record_question_clarification,
  record_system_follow_up, record_question_evaluation, interview_abandoned, expired, DomainError,
  id_mismatch, version_conflict, not_accepted_state, not_accepted_operation, question_not_current,
  completion_mismatch, completion_precedes_acceptance,
}
use interview_agent.Engine.Guards.{
  Checked, refuse_if, assert_active, assert_phase, assert_command_identity_and_date,
  assert_expected_version, assert_command_time_not_before_activity, required_pending_operation,
  has_phase,
}
use interview_agent.Engine.Immediate.{abandoned_state}
use interview_agent.Engine.Plans.{answer_phase}

abbrev pub completion_base : InterviewOperationCompletion → CommandBase
completion_base (record_question_clarification command) = command.base
completion_base (record_system_follow_up command) = command.base
completion_base (record_question_evaluation command) = command.base

abbrev pub base_of_plan : InterviewOperationPlan → PlanBase
base_of_plan (answer_analysis_plan base command material) = base
base_of_plan (question_clarification_plan base command) = base

-- `plan.operation`
abbrev pub operation_of_plan : InterviewOperationPlan → OperationName
operation_of_plan (answer_analysis_plan base command material) = answer_analysis
operation_of_plan (question_clarification_plan base command) = question_clarification

-- `expectedPreviousPhase`
abbrev pub expected_previous_phase : InterviewOperationPlan → InterviewPhase
expected_previous_phase (answer_analysis_plan base command material) = answer_phase command.type
expected_previous_phase (question_clarification_plan base command) = awaiting_response

abbrev pub operation_eq : OperationName → OperationName → Bool
operation_eq answer_analysis answer_analysis = true
operation_eq question_clarification question_clarification = true
operation_eq _ _ = false

-- The ten comparisons of the pending operation with the plan: all have to agree.
unfoldable pub is_accepted_operation :
    InterviewOperationPlan → PendingInterviewOperation → PendingInterviewOperation → Bool
is_accepted_operation plan pending planned =
    text_eq pending.operation_id (base_of_plan plan).operation_id
    && operation_eq pending.operation (operation_of_plan plan)
    && pending.question_position == (base_of_plan plan).question_position
    && same_time pending.accepted_at (base_of_plan plan).accepted_at
    && text_eq planned.operation_id pending.operation_id
    && operation_eq planned.operation pending.operation
    && planned.question_position == pending.question_position
    && same_time planned.accepted_at pending.accepted_at
    && phase_eq planned.previous_phase pending.previous_phase
    && phase_eq pending.previous_phase (expected_previous_phase plan)

-- The plan holds the state in which its operation was accepted.
unfoldable pub is_accepted_state : PlanBase → Interview → Bool
is_accepted_state base interview =
    is_active base.interview.status
    && has_phase base.interview.phase processing
    && same_time base.interview.last_effective_activity_at base.accepted_at
    && same_time interview.last_effective_activity_at base.accepted_at

unfoldable pub assert_accepted_operation : Interview → InterviewOperationPlan → Checked
unfolding assert_active assert_phase required_pending_operation
assert_accepted_operation interview plan = do
  let base = base_of_plan plan
  throw_if (not (text_eq base.interview_id interview.id))
      (id_mismatch interview.id base.interview_id)
  throw_if (not (text_eq base.interview.id interview.id))
      (id_mismatch interview.id base.interview.id)
  throw_if (not (base.interview.version == interview.version))
      (version_conflict base.interview.version interview.version)
  refuse_if (not (is_accepted_state base interview)) not_accepted_state
  assert_active interview
  assert_phase interview processing
  pending ← required_pending_operation interview
  planned ← required_pending_operation base.interview
  refuse_if (not (is_accepted_operation plan pending planned)) not_accepted_operation
  refuse_if (not (base.question_position == interview.current_question_position))
      question_not_current

unfoldable pub assert_plan_still_current :
    Interview → InterviewOperationPlan → InterviewOperationCompletion → Checked
unfolding assert_command_identity_and_date assert_expected_version
    assert_command_time_not_before_activity
assert_plan_still_current interview plan completion = do
  let command = completion_base completion
  assert_accepted_operation interview plan
  assert_command_identity_and_date interview command
  assert_expected_version interview command.expected_version
  assert_command_time_not_before_activity interview command.occurred_at
  refuse_if (not (text_eq (base_of_plan plan).operation_id command.operation_id))
      completion_mismatch
  refuse_if (before command.occurred_at (base_of_plan plan).accepted_at)
      completion_precedes_acceptance

unfoldable pub cancel_interview_operation :
    Interview → InterviewOperationPlan → Result DomainError Interview
unfolding required_pending_operation
cancel_interview_operation interview plan = do
  assert_accepted_operation interview plan
  pending ← required_pending_operation interview
  ok (record interview { phase = some pending.previous_phase; pending_operation = none })

-- The event of a plan's own operation at a given time.
abbrev pub plan_event_base : Interview → PlanBase → Date → EventBase
plan_event_base interview base moment = record {
  interview_id = interview.id;
  operation_id = base.operation_id;
  occurred_at = clone_date moment;
}

unfoldable pub expire_accepted_operation :
    Interview → InterviewOperationPlan → InterviewOperationCompletion → InterviewTransition
unfolding abandoned_state
expire_accepted_operation interview plan completion = record {
  interview = abandoned_state interview;
  events =
      interview_abandoned
        (plan_event_base interview (base_of_plan plan) (completion_base completion).occurred_at)
        expired
      ∷ [];
}
