-- ===== src/Saves/Eventless.antt =====
-- packages/db/src/repositories/transition-validation.ts: the validation of a save without events.
use interview_agent.Common.{
  ◌+◌, Bool, not, ◌&&◌, ◌||◌, ◌==◌, if◌then◌else◌, Option, none, some, is_some, text_eq, before,
  clone_date, err, ◌>>◌,
}
use interview_agent.Interview.{
  InterviewPhase, awaiting_response, awaiting_continue, processing, is_active, is_report_pending,
  phase_eq,
}
use interview_agent.Engine.{Interview, PendingInterviewOperation, question_clarification}
use interview_agent.Engine.Guards.{has_phase}
use interview_agent.Engine.Accepted.{operation_eq}
use interview_agent.Saves.{corrupt_save, pending_mismatch, refresh_mismatch, eventless_mismatch}
use interview_agent.Saves.Validate.{SaveChecked, reject_if, assert_aggregate_equals, clone_pending}

-- `… === null` of the fields that the first test of `validateEventlessTransition` reads.
abbrev pub is_report_refresh : Interview → Interview → Bool
is_report_refresh previous current =
    is_report_pending previous.status
    && is_report_pending current.status
    && not (is_some previous.phase)
    && not (is_some current.phase)
    && not (is_some previous.pending_operation)
    && not (is_some current.pending_operation)
    && is_some previous.pending_report_kind
    && is_some previous.report_requested_at
    && not (is_some previous.report_id)
    && before previous.last_effective_activity_at current.last_effective_activity_at

-- `pending.previousPhase` is `awaiting_response` or `awaiting_continue`.
abbrev pub is_open_phase : InterviewPhase → Bool
is_open_phase phase = phase_eq phase awaiting_response || phase_eq phase awaiting_continue

-- The previous phase that a pending operation may not have.
abbrev pub is_wrong_phase : PendingInterviewOperation → Bool
is_wrong_phase pending =
    if operation_eq pending.operation question_clarification
    then not (phase_eq pending.previous_phase awaiting_response)
    else not (is_open_phase pending.previous_phase)

unfoldable pub validate_acceptance : Interview → Interview → PendingInterviewOperation → SaveChecked
validate_acceptance previous current pending = do
  let is_initial = current.version == previous.version + 1
  let is_retry = current.version == previous.version
  reject_if previous
      ((not is_initial && not is_retry)
        || not (is_active previous.status)
        || not (has_phase previous.phase pending.previous_phase)
        || not (is_open_phase pending.previous_phase)
        || not (pending.question_position == previous.current_question_position)
        || before pending.accepted_at previous.last_effective_activity_at
        || is_wrong_phase pending)
      pending_mismatch
  assert_aggregate_equals current (record previous {
    version = if is_initial then previous.version + 1 else previous.version;
    phase = some processing;
    pending_operation = some (clone_pending pending);
    last_effective_activity_at = clone_date pending.accepted_at;
  })

unfoldable pub validate_refresh :
    Interview → Interview → PendingInterviewOperation → PendingInterviewOperation → SaveChecked
validate_refresh previous current previous_pending current_pending = do
  reject_if previous
      (not (is_active previous.status)
        || not (has_phase previous.phase processing)
        || not (text_eq current_pending.operation_id previous_pending.operation_id)
        || not (operation_eq current_pending.operation previous_pending.operation)
        || not (current_pending.question_position == previous_pending.question_position)
        || not (phase_eq current_pending.previous_phase previous_pending.previous_phase)
        || before current_pending.accepted_at previous_pending.accepted_at)
      refresh_mismatch
  assert_aggregate_equals current (record previous {
    pending_operation = some (clone_pending current_pending);
    last_effective_activity_at = clone_date current_pending.accepted_at;
  })

-- `validateEventlessTransition` from its second test on.
unfoldable pub validate_pending_change :
    Interview
    → Interview
    → Option PendingInterviewOperation
    → Option PendingInterviewOperation
    → SaveChecked
unfolding validate_acceptance validate_refresh
validate_pending_change previous current none (some pending) =
    validate_acceptance previous current pending
validate_pending_change previous current (some previous_pending) (some current_pending) =
    validate_refresh previous current previous_pending current_pending
validate_pending_change previous current (some pending) none =
    assert_aggregate_equals current
      (record previous { phase = some pending.previous_phase; pending_operation = none })
validate_pending_change previous current none none =
    err (corrupt_save previous.id eventless_mismatch)

unfoldable pub validate_eventless_transition : Interview → Interview → SaveChecked
unfolding validate_pending_change
validate_eventless_transition previous current =
    if is_report_refresh previous current
    then assert_aggregate_equals current (record previous {
      last_effective_activity_at = clone_date current.last_effective_activity_at;
    })
    else validate_pending_change previous current previous.pending_operation
        current.pending_operation
