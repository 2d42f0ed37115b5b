-- ===== src/Saves/Commands.antt =====
-- packages/db/src/repositories/transition-validation.ts: the validation of a command that took effect at once.
use interview_agent.Common.{
  ℕ, ◌+◌, Bool, true, false, not, ◌&&◌, ◌||◌, ◌==◌, if◌then◌else◌, Option, none, some, is_some,
  Text, text_eq, Date, before, same_time, clone_date, ◌>>=◌, ◌>>◌,
}
use interview_agent.Interview.{
  awaiting_response, awaiting_continue, active, report_pending, abandoned, ReportKind, complete,
  incomplete, report_kind_eq, is_active, is_report_pending, QuestionOutcome,
}
use interview_agent.Engine.{Interview, InterviewQuestionState, PendingInterviewOperation, EventBase}
use interview_agent.Engine.Guards.{has_phase}
use interview_agent.Engine.Immediate.{reported_status, has_outcome}
use interview_agent.Saves.{
  outcome_mismatch, freeze_mismatch, freeze_without_outcome, report_request_mismatch,
  early_end_mismatch, stored_report_mismatch, abandonment_mismatch,
}
use interview_agent.Saves.Validate.{
  SaveChecked, reject_if, assert_aggregate_equals, get_question, replace_question,
}

unfoldable pub validate_unevaluated_outcome :
    Interview → Interview → EventBase → ℕ → QuestionOutcome → SaveChecked
unfolding replace_question
validate_unevaluated_outcome previous current base position outcome = do
  reject_if previous
      (not (is_active previous.status)
        || not (has_phase previous.phase awaiting_response)
        || is_some previous.pending_operation
        || not (position == previous.current_question_position))
      outcome_mismatch
  question ← get_question previous position
  let expected = record question { evaluation = none; outcome = some outcome }
  assert_aggregate_equals current (record (replace_question previous expected) {
    phase = some awaiting_continue;
    last_effective_activity_at = clone_date base.occurred_at;
    version = previous.version + 1;
  })

-- The second event of a continuation, on the final question and elsewhere.
abbrev pub is_report_request : EventBase → Bool → Option (EventBase × ReportKind) → Bool
is_report_request frozen true (some (base, kind)) =
    report_kind_eq kind complete
    && text_eq base.operation_id frozen.operation_id
    && same_time base.occurred_at frozen.occurred_at
is_report_request frozen true none = false
is_report_request frozen false requested = not (is_some requested)

unfoldable pub continued : Interview → InterviewQuestionState → EventBase → Interview
unfolding replace_question
continued previous question frozen =
    let frozen_question = record question { frozen = true } in
    if previous.current_question_position == previous.question_count
    then record (replace_question previous frozen_question) {
      status = report_pending;
      phase = none;
      pending_operation = none;
      pending_report_kind = some complete;
      report_requested_at = some (clone_date frozen.occurred_at);
      last_effective_activity_at = clone_date frozen.occurred_at;
      version = previous.version + 1;
    }
    else record (replace_question previous frozen_question) {
      current_question_position = previous.current_question_position + 1;
      status = active;
      phase = some awaiting_response;
      pending_operation = none;
      pending_report_kind = none;
      report_requested_at = none;
      last_effective_activity_at = clone_date frozen.occurred_at;
      version = previous.version + 1;
    }

unfoldable pub validate_continue :
    Interview → Interview → EventBase → ℕ → Option (EventBase × ReportKind) → SaveChecked
unfolding continued
validate_continue previous current frozen position requested = do
  reject_if previous
      (not (is_active previous.status)
        || not (has_phase previous.phase awaiting_continue)
        || is_some previous.pending_operation
        || not (position == previous.current_question_position))
      freeze_mismatch
  question ← get_question previous position
  reject_if previous (not (is_some question.outcome) || question.frozen) freeze_without_outcome
  let final_question = previous.current_question_position == previous.question_count
  reject_if previous (not (is_report_request frozen final_question requested))
      report_request_mismatch
  assert_aggregate_equals current (continued previous question frozen)

unfoldable pub validate_early_end : Interview → Interview → EventBase → ReportKind → SaveChecked
validate_early_end previous current base kind = do
  reject_if previous
      (not (report_kind_eq kind incomplete)
        || not (is_active previous.status)
        || is_some previous.pending_operation
        || not (has_outcome previous.questions))
      early_end_mismatch
  assert_aggregate_equals current (record previous {
    version = previous.version + 1;
    status = report_pending;
    phase = none;
    pending_operation = none;
    pending_report_kind = some incomplete;
    report_requested_at = some (clone_date base.occurred_at);
    last_effective_activity_at = clone_date base.occurred_at;
  })

-- `previous.pendingReportKind !== event.reportKind`
abbrev pub is_other_kind : Option ReportKind → ReportKind → Bool
is_other_kind none kind = true
is_other_kind (some pending) kind = not (report_kind_eq pending kind)

abbrev pub is_missing_or_later : Option Date → Date → Bool
is_missing_or_later none occurred_at = true
is_missing_or_later (some requested) occurred_at = before occurred_at requested

unfoldable pub validate_report_stored :
    Interview → Interview → EventBase → Text → ReportKind → SaveChecked
validate_report_stored previous current base report_id kind = do
  reject_if previous
      (not (is_report_pending previous.status)
        || is_other_kind previous.pending_report_kind kind
        || is_missing_or_later previous.report_requested_at base.occurred_at)
      stored_report_mismatch
  assert_aggregate_equals current (record previous {
    version = previous.version + 1;
    status = reported_status kind;
    pending_operation = none;
    pending_report_kind = none;
    report_id = some report_id;
  })

-- A pending operation has another identifier than the event's.
abbrev pub is_other_operation : Option PendingInterviewOperation → EventBase → Bool
is_other_operation none base = false
is_other_operation (some pending) base = not (text_eq base.operation_id pending.operation_id)

unfoldable pub validate_abandonment : Interview → Interview → EventBase → SaveChecked
validate_abandonment previous current base = do
  reject_if previous
      (not (is_active previous.status) || is_other_operation previous.pending_operation base)
      abandonment_mismatch
  assert_aggregate_equals current (record previous {
    version = if is_some previous.pending_operation then previous.version else previous.version + 1;
    status = abandoned;
    phase = none;
    pending_operation = none;
    pending_report_kind = none;
    report_requested_at = none;
  })
