-- ===== src/Engine/Handle.antt =====
-- packages/domain/src/engine.ts: `handleInterviewCommand`, which checks a command and dispatches it.
use interview_agent.Common.{
  Bool, true, false, not, ◌&&◌, if◌then◌else◌, Option, none, some, is_some, Date, before, Result,
  ok, err, ◌>>=◌, ◌>>◌, map_ok,
}
use interview_agent.Interview.{is_active, unknown, skipped}
use interview_agent.Engine.{
  CommandBase, answer, request_question_clarification, ExistingCommand, planned,
  mark_question_unknown, skip_question, continue_interview, end_interview_early, abandon_interview,
  expire_interview, record_report, InitialInterviewCommand, create_interview, existing, Interview,
  InterviewCommandResult, transition_result, plan_result, DomainError, invalid_command,
  already_exists, does_not_exist, report_precedes_request, processing_pending,
}
use interview_agent.Engine.Guards.{
  refuse_if, assert_command_identity_and_date, assert_expected_version,
  assert_command_time_not_before_activity, is_interview_expired,
}
use interview_agent.Engine.Blueprints.{create}
use interview_agent.Engine.Plans.{planned_base, plan_answer_analysis, plan_question_clarification}
use interview_agent.Engine.Immediate.{record_unevaluated_outcome}
use interview_agent.Engine.Immediate

abbrev pub command_base : ExistingCommand → CommandBase
command_base (planned command) = planned_base command
command_base (mark_question_unknown command) = command
command_base (skip_question command) = command
command_base (continue_interview command) = command
command_base (end_interview_early command) = command
command_base (abandon_interview command) = command
command_base (expire_interview command) = command
command_base (record_report command) = command.base

abbrev pub is_expire_command : ExistingCommand → Bool
is_expire_command (expire_interview command) = true
is_expire_command _ = false

-- `requestedAt !== null && occurredAt < requestedAt`
abbrev pub before_request : Option Date → Date → Bool
before_request none occurred_at = false
before_request (some requested) occurred_at = before occurred_at requested

abbrev pub report_before_request : Interview → ExistingCommand → Bool
report_before_request interview (record_report command) =
    before_request interview.report_requested_at command.base.occurred_at
report_before_request interview _ = false

-- The `switch` of `handleInterviewCommand`.
unfoldable pub dispatch : Interview → ExistingCommand → Result DomainError InterviewCommandResult
dispatch interview (planned (answer command)) =
    map_ok plan_result (plan_answer_analysis interview command)
dispatch interview (planned (request_question_clarification command)) =
    map_ok plan_result (plan_question_clarification interview command)
dispatch interview (mark_question_unknown command) =
    map_ok transition_result (record_unevaluated_outcome interview command unknown)
dispatch interview (skip_question command) =
    map_ok transition_result (record_unevaluated_outcome interview command skipped)
dispatch interview (continue_interview command) =
    map_ok transition_result (Immediate.continue_interview interview command)
dispatch interview (end_interview_early command) =
    map_ok transition_result (Immediate.end_interview_early interview command)
dispatch interview (abandon_interview command) =
    map_ok transition_result (Immediate.abandon_interview interview command)
dispatch interview (expire_interview command) =
    map_ok transition_result (Immediate.expire_interview interview command)
dispatch interview (record_report command) =
    map_ok transition_result (Immediate.record_report interview command)

-- The `expire_interview` command that stands in for a command on an inactive interview.
abbrev pub expire_command : Interview → CommandBase → CommandBase
expire_command interview command = record {
  interview_id = interview.id;
  operation_id = command.operation_id;
  expected_version = interview.version;
  occurred_at = command.occurred_at;
}

-- `handleInterviewCommand` from the check of the version on.
unfoldable pub handle_current :
    Interview → ExistingCommand → Result DomainError InterviewCommandResult
unfolding assert_expected_version assert_command_time_not_before_activity
handle_current interview command = do
  assert_expected_version interview (command_base command).expected_version
  refuse_if (report_before_request interview command) report_precedes_request
  assert_command_time_not_before_activity interview (command_base command).occurred_at
  refuse_if (is_some interview.pending_operation && not (is_expire_command command))
      processing_pending
  dispatch interview command

unfoldable pub handle_existing :
    Interview → ExistingCommand → Result DomainError InterviewCommandResult
unfolding assert_command_identity_and_date is_interview_expired
handle_existing interview command = do
  assert_command_identity_and_date interview (command_base command)
  let moment = (command_base command).occurred_at
  is_expired ←
      (if is_active interview.status && not (is_expire_command command)
        then is_interview_expired interview moment
        else ok false)
  if is_expired
      then map_ok transition_result
          (Immediate.expire_interview interview (expire_command interview (command_base command)))
      else handle_current interview command

unfoldable pub handle_interview_command :
    Option Interview → InitialInterviewCommand → Result DomainError InterviewCommandResult
unfolding handle_existing
handle_interview_command none (create_interview command) = map_ok transition_result (create command)
handle_interview_command (some interview) (create_interview command) =
    err (invalid_command already_exists)
handle_interview_command none (existing command) = err (invalid_command does_not_exist)
handle_interview_command (some interview) (existing command) = handle_existing interview command
