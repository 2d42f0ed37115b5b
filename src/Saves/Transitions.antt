-- ===== src/Saves/Transitions.antt =====
-- packages/db/src/repositories/transition-validation.ts: `validateInterviewSave`.
use interview_agent.Common.{Bool, true, false, err, ◌>>◌}
use interview_agent.Engine.{Interview}
use interview_agent.Saves.{
  InterviewSave, corrupt_save, unsupported_events, EventSequence, no_events, clarification_events,
  follow_up_events, evaluation_events, outcome_events, freeze_events, report_request_events,
  stored_events, abandoned_events, other_events,
}
use interview_agent.Saves.Validate.{
  SaveChecked, assert_immutable_identity, assert_event_identity, sequence_of,
  assert_persistence_payloads,
}
use interview_agent.Saves.Eventless.{validate_eventless_transition}
use interview_agent.Saves.Completions.{
  validate_clarification_completion, validate_follow_up_completion, validate_evaluation_completion,
}
use interview_agent.Saves.Commands.{
  validate_unevaluated_outcome, validate_continue, validate_early_end, validate_report_stored,
  validate_abandonment,
}

-- The validation of a sequence of events, without the payloads.
unfoldable pub validate_sequence : Interview → Interview → EventSequence → SaveChecked
validate_sequence previous current no_events = validate_eventless_transition previous current
validate_sequence previous current (clarification_events a p b m q t) =
    validate_clarification_completion previous current a p b m q t
validate_sequence previous current (follow_up_events a x b q c) =
    validate_follow_up_completion previous current a x b q c
validate_sequence previous current (evaluation_events a b q e) =
    validate_evaluation_completion previous current a b q e
validate_sequence previous current (outcome_events a p o) =
    validate_unevaluated_outcome previous current a p o
validate_sequence previous current (freeze_events a p r) = validate_continue previous current a p r
validate_sequence previous current (report_request_events a k) =
    validate_early_end previous current a k
validate_sequence previous current (stored_events a i k) =
    validate_report_stored previous current a i k
validate_sequence previous current (abandoned_events a r) = validate_abandonment previous current a
validate_sequence previous current other_events = err (corrupt_save previous.id unsupported_events)

-- The payloads that a sequence of events comes with.
abbrev pub is_evaluation_sequence : EventSequence → Bool
is_evaluation_sequence (evaluation_events a b q e) = true
is_evaluation_sequence _ = false

abbrev pub is_report_sequence : EventSequence → Bool
is_report_sequence (stored_events a i k) = true
is_report_sequence _ = false

unfoldable pub validate_interview_save : InterviewSave → SaveChecked
validate_interview_save change = do
  assert_immutable_identity change
  assert_event_identity change.previous change.events
  let sequence = sequence_of change.events
  validate_sequence change.previous change.current sequence
  assert_persistence_payloads change (is_evaluation_sequence sequence) (is_report_sequence sequence)
