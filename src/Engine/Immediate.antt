-- ===== src/Engine/Immediate.antt =====
-- packages/domain/src/engine.ts: the commands that take effect at once.
use interview_agent.Common.{
  ◌+◌, Bool, true, false, not, ◌&&◌, ◌==◌, if◌then◌else◌, Option, none, some, List, [], ◌∷◌, any,
  is_some, Date, before, clone_date, Result, ok, ◌>>=◌, ◌>>◌,
}
use interview_agent.Interview.{
  InterviewStatus, active, report_pending, completed, early_ended, abandoned, awaiting_response,
  awaiting_continue, ReportKind, complete, incomplete, report_kind_eq, is_report_pending,
  is_terminal_interview_status, ZeroScoreReason,
}
use interview_agent.Scoring.{create_zero_question_outcome}
use interview_agent.Engine.{
  CommandBase, RecordReportCommand, Interview, InterviewQuestionState, InterviewTransition,
  EventBase, question_frozen, report_requested, report_stored, interview_abandoned,
  unevaluated_question_outcome_recorded, user, expired, DomainError, no_outcome_to_freeze,
  no_question_outcome, not_expired, terminal_read_only, not_awaiting_report, wrong_report_kind,
  report_precedes_request,
}
use interview_agent.Engine.Guards.{
  refuse_if, assert_active, assert_phase, assert_valid_date, is_interview_expired,
  get_current_question_state, replace_current_question, advance_version,
}

abbrev pub event_base : Interview → CommandBase → EventBase
event_base interview command = record {
  interview_id = interview.id;
  operation_id = command.operation_id;
  occurred_at = clone_date command.occurred_at;
}

unfoldable pub record_unevaluated_outcome :
    Interview → CommandBase → ZeroScoreReason → Result DomainError InterviewTransition
unfolding assert_active assert_phase assert_valid_date replace_current_question advance_version
record_unevaluated_outcome interview command kind = do
  assert_active interview
  assert_phase interview awaiting_response
  assert_valid_date command.occurred_at
  let outcome = create_zero_question_outcome kind
  question ← get_current_question_state interview
  let updated = record question { evaluation = none; outcome = some outcome }
  let next = record (replace_current_question interview updated) {
    phase = some awaiting_continue;
    last_effective_activity_at = clone_date command.occurred_at;
  }
  ok (record {
    interview = advance_version next;
    events =
        unevaluated_question_outcome_recorded (event_base interview command)
          interview.current_question_position outcome
        ∷ [];
  })

-- `base` of `continueInterview`, on the final question and before it.
unfoldable pub finish_questions : Interview → InterviewQuestionState → Date → Interview
unfolding replace_current_question
finish_questions interview frozen_question occurred_at =
    record (replace_current_question interview frozen_question) {
      status = report_pending;
      phase = none;
      pending_operation = none;
      pending_report_kind = some complete;
      report_requested_at = some (clone_date occurred_at);
      last_effective_activity_at = clone_date occurred_at;
    }

unfoldable pub next_question : Interview → InterviewQuestionState → Date → Interview
unfolding replace_current_question
next_question interview frozen_question occurred_at =
    record (replace_current_question interview frozen_question) {
      current_question_position = interview.current_question_position + 1;
      status = active;
      phase = some awaiting_response;
      pending_operation = none;
      pending_report_kind = none;
      report_requested_at = none;
      last_effective_activity_at = clone_date occurred_at;
    }

unfoldable pub continue_interview : Interview → CommandBase → Result DomainError InterviewTransition
unfolding assert_active assert_phase assert_valid_date finish_questions next_question
    advance_version
continue_interview interview command = do
  assert_active interview
  assert_phase interview awaiting_continue
  assert_valid_date command.occurred_at
  question ← get_current_question_state interview
  refuse_if (not (is_some question.outcome)) no_outcome_to_freeze
  let frozen_question = record question { frozen = true }
  let is_final_question = interview.current_question_position == interview.question_count
  let base =
      if is_final_question
      then finish_questions interview frozen_question command.occurred_at
      else next_question interview frozen_question command.occurred_at
  let requested =
      if is_final_question
      then report_requested (event_base interview command) complete ∷ []
      else []
  ok (record {
    interview = advance_version base;
    events =
        question_frozen (event_base interview command) interview.current_question_position
        ∷ requested;
  })

-- `interview.questions.some((question) => question.outcome !== null)`
unfoldable pub has_outcome : List InterviewQuestionState → Bool
unfolding any
has_outcome questions = any (λ question. is_some question.outcome) questions

unfoldable pub end_interview_early :
    Interview → CommandBase → Result DomainError InterviewTransition
unfolding assert_active assert_valid_date advance_version
end_interview_early interview command = do
  assert_active interview
  assert_valid_date command.occurred_at
  refuse_if (not (has_outcome interview.questions)) no_question_outcome
  ok (record {
    interview = advance_version (record interview {
      status = report_pending;
      phase = none;
      pending_operation = none;
      pending_report_kind = some incomplete;
      report_requested_at = some (clone_date command.occurred_at);
      last_effective_activity_at = clone_date command.occurred_at;
    });
    events = report_requested (event_base interview command) incomplete ∷ [];
  })

-- The change that abandonment, expiry and the expiry of an accepted operation share.
unfoldable pub abandoned_state : Interview → Interview
abandoned_state interview = record interview {
  status = abandoned;
  phase = none;
  pending_operation = none;
  pending_report_kind = none;
  report_requested_at = none;
}

unfoldable pub abandon_interview : Interview → CommandBase → Result DomainError InterviewTransition
unfolding assert_active assert_valid_date abandoned_state advance_version
abandon_interview interview command = do
  assert_active interview
  assert_valid_date command.occurred_at
  ok (record {
    interview = advance_version (abandoned_state interview);
    events = interview_abandoned (event_base interview command) user ∷ [];
  })

unfoldable pub expire_interview : Interview → CommandBase → Result DomainError InterviewTransition
unfolding assert_active assert_valid_date is_interview_expired abandoned_state advance_version
expire_interview interview command = do
  assert_active interview
  assert_valid_date command.occurred_at
  is_expired ← is_interview_expired interview command.occurred_at
  refuse_if (not is_expired) not_expired
  ok (record {
    interview = advance_version (abandoned_state interview);
    events = interview_abandoned (event_base interview command) expired ∷ [];
  })

abbrev pub is_pending_kind : Option ReportKind → ReportKind → Bool
is_pending_kind none kind = false
is_pending_kind (some pending) kind = report_kind_eq pending kind

-- `requestedAt === null || occurredAt < requestedAt`
abbrev pub missing_or_before_request : Option Date → Date → Bool
missing_or_before_request none occurred_at = true
missing_or_before_request (some requested) occurred_at = before occurred_at requested

abbrev pub reported_status : ReportKind → InterviewStatus
reported_status complete = completed
reported_status incomplete = early_ended

unfoldable pub record_report :
    Interview → RecordReportCommand → Result DomainError InterviewTransition
unfolding assert_valid_date is_terminal_interview_status advance_version
record_report interview command = do
  refuse_if
      (not (is_report_pending interview.status) && is_terminal_interview_status interview.status)
      terminal_read_only
  refuse_if (not (is_report_pending interview.status)) not_awaiting_report
  assert_valid_date command.base.occurred_at
  refuse_if (not (is_pending_kind interview.pending_report_kind command.report_kind))
      (wrong_report_kind interview.pending_report_kind)
  refuse_if (missing_or_before_request interview.report_requested_at command.base.occurred_at)
      report_precedes_request
  ok (record {
    interview = advance_version (record interview {
      status = reported_status command.report_kind;
      pending_operation = none;
      pending_report_kind = none;
      report_id = some command.report_id;
    });
    events =
        report_stored (event_base interview command.base) command.report_id command.report_kind
        ∷ [];
  })
