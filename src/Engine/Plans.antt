-- ===== src/Engine/Plans.antt =====
-- packages/domain/src/engine.ts: accepting a command whose result a model computes later. A plan keeps
-- the accepted interview; it is cancelled, retried under a new interview state, or refreshed.
use interview_agent.Common.{
  not, ◌||◌, ◌+◌, ◌==◌, if◌then◌else◌, some, Text, text_eq, Date, is_some, not_after, clone_date,
  Result, ok, ◌>>=◌, ◌>>◌, throw_if,
}
use interview_agent.Interview.{
  InterviewPhase, awaiting_response, awaiting_continue, processing, AnswerMaterialKind, main_answer,
  follow_up_answer, supplement, is_report_pending,
}
use interview_agent.Engine.{
  CommandBase, AnswerCommand, AnswerCommandType, submit_answer, submit_supplement, PlannedCommand,
  answer, request_question_clarification, Interview, InterviewQuestionState, OperationName,
  answer_analysis, question_clarification, PlanBase, InterviewOperationPlan, answer_analysis_plan,
  question_clarification_plan, DomainError, version_conflict, answer_id_used, already_pending,
  retry_operation_mismatch, not_awaiting_report_retry, retry_must_advance,
}
use interview_agent.Engine.Guards.{
  refuse_if, assert_active, assert_phase, assert_non_empty_text, assert_valid_date,
  assert_command_identity_and_date, assert_command_time_not_before_activity,
  get_current_question_state, uses_material_id, has_unanswered_system_follow_up, advance_version,
  required_pending_operation,
}

-- `acceptRetriedOperation`
unfoldable pub accept_retried_operation :
    Interview → Text → OperationName → Date → InterviewPhase → Interview
accept_retried_operation interview operation_id operation accepted_at previous_phase =
    record interview {
      phase = some processing;
      pending_operation = some (record {
        operation_id = operation_id;
        operation = operation;
        question_position = interview.current_question_position;
        accepted_at = clone_date accepted_at;
        previous_phase = previous_phase;
      });
      last_effective_activity_at = clone_date accepted_at;
    }

-- `acceptOperation`: the same update under the next version.
unfoldable pub accept_operation :
    Interview → Text → OperationName → Date → InterviewPhase → Interview
unfolding accept_retried_operation advance_version
accept_operation interview operation_id operation accepted_at previous_phase =
    advance_version
      (accept_retried_operation interview operation_id operation accepted_at previous_phase)

-- The phase in which an answer or a supplement is accepted.
abbrev pub answer_phase : AnswerCommandType → InterviewPhase
answer_phase submit_answer = awaiting_response
answer_phase submit_supplement = awaiting_continue

unfoldable pub material_kind : AnswerCommandType → InterviewQuestionState → AnswerMaterialKind
material_kind submit_supplement question = supplement
material_kind submit_answer question =
    if has_unanswered_system_follow_up question then follow_up_answer else main_answer

abbrev pub plan_base : Interview → CommandBase → Interview → Date → PlanBase
plan_base interview command accepted_interview accepted_at = record {
  interview_id = interview.id;
  operation_id = command.operation_id;
  question_position = interview.current_question_position;
  accepted_at = accepted_at;
  interview = accepted_interview;
}

unfoldable pub make_answer_analysis_plan :
    Interview → AnswerCommand → Interview → Date → Result DomainError InterviewOperationPlan
make_answer_analysis_plan interview command accepted_interview accepted_at = do
  question ← get_current_question_state interview
  ok (
      answer_analysis_plan (plan_base interview command.base accepted_interview accepted_at) command
        (record {
          id = command.answer_material_id;
          kind = material_kind command.type question;
          text = command.text;
          submitted_at = clone_date command.base.occurred_at;
        }))

unfoldable pub plan_answer_analysis :
    Interview → AnswerCommand → Result DomainError InterviewOperationPlan
unfolding assert_active assert_phase assert_non_empty_text assert_valid_date
    make_answer_analysis_plan
plan_answer_analysis interview command = do
  assert_active interview
  assert_phase interview (answer_phase command.type)
  assert_non_empty_text command.text
  assert_valid_date command.base.occurred_at
  question ← get_current_question_state interview
  refuse_if (uses_material_id question command.answer_material_id) answer_id_used
  make_answer_analysis_plan interview command
      (accept_operation interview command.base.operation_id answer_analysis
        (clone_date command.base.occurred_at) (answer_phase command.type))
      (clone_date command.base.occurred_at)

unfoldable pub plan_question_clarification :
    Interview → CommandBase → Result DomainError InterviewOperationPlan
unfolding assert_active assert_phase assert_valid_date
plan_question_clarification interview command = do
  assert_active interview
  assert_phase interview awaiting_response
  assert_valid_date command.occurred_at
  ok (
      question_clarification_plan
        (plan_base interview command
          (accept_operation interview command.operation_id question_clarification
            (clone_date command.occurred_at) awaiting_response)
          (clone_date command.occurred_at))
        command)

abbrev pub planned_base : PlannedCommand → CommandBase
planned_base (answer command) = command.base
planned_base (request_question_clarification command) = command

-- The part of `retryInterviewOperation` that depends on the command.
unfoldable pub retry_planned :
    Interview → PlannedCommand → Date → Result DomainError InterviewOperationPlan
unfolding assert_active assert_phase assert_non_empty_text make_answer_analysis_plan
retry_planned interview (request_question_clarification command) accepted_at = do
  assert_active interview
  assert_phase interview awaiting_response
  ok (
      question_clarification_plan
        (plan_base interview command
          (accept_retried_operation interview command.operation_id question_clarification
            accepted_at awaiting_response)
          accepted_at)
        command)
retry_planned interview (answer command) accepted_at = do
  assert_active interview
  assert_phase interview (answer_phase command.type)
  assert_non_empty_text command.text
  question ← get_current_question_state interview
  refuse_if (uses_material_id question command.answer_material_id) answer_id_used
  make_answer_analysis_plan interview command
      (accept_retried_operation interview command.base.operation_id answer_analysis accepted_at
        (answer_phase command.type))
      accepted_at

unfoldable pub retry_interview_operation :
    Interview → PlannedCommand → Date → Result DomainError InterviewOperationPlan
unfolding assert_command_identity_and_date assert_valid_date assert_command_time_not_before_activity
retry_interview_operation interview command accepted_at = do
  assert_command_identity_and_date interview (planned_base command)
  assert_valid_date accepted_at
  throw_if (not (interview.version == (planned_base command).expected_version + 1))
      (version_conflict ((planned_base command).expected_version + 1) interview.version)
  assert_command_time_not_before_activity interview accepted_at
  refuse_if (is_some interview.pending_operation) already_pending
  retry_planned interview command accepted_at

unfoldable pub refresh_interview_operation : Interview → Text → Date → Result DomainError Interview
unfolding assert_active assert_phase assert_valid_date assert_command_time_not_before_activity
    required_pending_operation
refresh_interview_operation interview operation_id accepted_at = do
  assert_active interview
  assert_phase interview processing
  assert_valid_date accepted_at
  assert_command_time_not_before_activity interview accepted_at
  pending ← required_pending_operation interview
  refuse_if (not (text_eq pending.operation_id operation_id)) retry_operation_mismatch
  ok (record interview {
    pending_operation = some (record pending { accepted_at = clone_date accepted_at });
    last_effective_activity_at = clone_date accepted_at;
  })

unfoldable pub refresh_report_retry_activity : Interview → Date → Result DomainError Interview
unfolding assert_valid_date
refresh_report_retry_activity interview accepted_at = do
  assert_valid_date accepted_at
  refuse_if
      (not (is_report_pending interview.status)
        || is_some interview.phase
        || is_some interview.pending_operation
        || not (is_some interview.pending_report_kind)
        || not (is_some interview.report_requested_at)
        || is_some interview.report_id)
      not_awaiting_report_retry
  refuse_if (not_after accepted_at interview.last_effective_activity_at) retry_must_advance
  ok (record interview { last_effective_activity_at = clone_date accepted_at })
