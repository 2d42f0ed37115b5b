-- ===== src/Saves/Validate.antt =====
-- packages/db/src/repositories/transition-validation.ts: `validateInterviewSave` and its helpers.
use interview_agent.Common.{
  ℕ, Bool, true, false, not, ◌||◌, ◌==◌, if◌then◌else◌, Option, none, some, List, [], ◌∷◌, map,
  length, at_position, Text, text_eq, is_blank, is_valid, before, same_time, clone_date, Result, ok,
  err, ◌>>=◌, ◌>>◌, throw_if,
}
use interview_agent.Interview.{
  InterviewPhase, awaiting_continue, processing, ReportKind, report_kind_eq, is_active, phase_eq,
  AnswerMaterial, main_answer, follow_up_answer, supplement, QuestionEvaluation,
}
use interview_agent.Engine.{
  Interview, InterviewQuestionState, PendingInterviewOperation, OperationName, InterviewEvent,
  EventBase, interview_created, answer_material_submitted, question_clarification_requested,
  question_clarification_recorded, system_follow_up_recorded, question_outcome_cleared,
  question_evaluation_recorded, unevaluated_question_outcome_recorded, question_frozen,
  report_requested, report_stored, interview_abandoned,
}
use interview_agent.Engine.Guards.{replaced_by, has_phase}
use interview_agent.Engine.Accepted.{operation_eq}
use interview_agent.Saves.{
  InterviewSave, EvaluationPersistence, ReportPersistence, SaveReason, SaveError,
  immutable_conflict, corrupt_save, evaluation_counts, evaluation_payload, unexpected_evaluation,
  report_payload, unexpected_report, event_identity, expected_pending, answer_mismatch,
  question_outside, not_canonical, AnswerEvent, EventSequence, no_events, clarification_events,
  follow_up_events, evaluation_events, outcome_events, freeze_events, report_request_events,
  stored_events, abandoned_events, other_events,
}
use interview_agent.Saves.Equal.{interview_eq, blueprint_eq, evaluation_eq, material_kind_eq}

abbrev pub SaveChecked : Type 0
SaveChecked = Result SaveError (Unit {0})

abbrev pub reject_if : Interview → Bool → SaveReason → SaveChecked
reject_if interview test reason = throw_if test (corrupt_save interview.id reason)

unfoldable pub assert_aggregate_equals : Interview → Interview → SaveChecked
assert_aggregate_equals actual expected =
    reject_if actual (not (interview_eq actual expected)) not_canonical

abbrev pub base_of_event : InterviewEvent → EventBase
base_of_event (interview_created base account count blueprint) = base
base_of_event (answer_material_submitted base id kind position text) = base
base_of_event (question_clarification_requested base position) = base
base_of_event (question_clarification_recorded base message position text) = base
base_of_event (system_follow_up_recorded base position command) = base
base_of_event (question_outcome_cleared base position) = base
base_of_event (question_evaluation_recorded base position evaluation) = base
base_of_event (unevaluated_question_outcome_recorded base position outcome) = base
base_of_event (question_frozen base position) = base
base_of_event (report_requested base kind) = base
base_of_event (report_stored base id kind) = base
base_of_event (interview_abandoned base reason) = base

abbrev pub is_created : InterviewEvent → Bool
is_created (interview_created base account count blueprint) = true
is_created _ = false

unfoldable pub assert_immutable_identity : InterviewSave → SaveChecked
assert_immutable_identity change =
    let previous = change.previous in
    let current = change.current in
    throw_if
      (not (text_eq previous.id current.id)
        || not (text_eq previous.account_id current.account_id)
        || not (previous.question_count == current.question_count)
        || not (same_time previous.created_at current.created_at)
        || not (blueprint_eq previous.blueprint current.blueprint))
      (immutable_conflict previous.id)

unfoldable pub assert_event_identity : Interview → List InterviewEvent → SaveChecked
assert_event_identity previous [] = ok tt
assert_event_identity previous (event ∷ rest) = do
  reject_if previous
      (is_created event
        || not (text_eq (base_of_event event).interview_id previous.id)
        || not (is_valid (base_of_event event).occurred_at))
      event_identity
  assert_event_identity previous rest

-- The comparisons of `eventTypes` with the known sequences, the events' fields read at once.
unfoldable pub sequence_of : List InterviewEvent → EventSequence
sequence_of [] = no_events
sequence_of (question_clarification_requested a p ∷ question_clarification_recorded b m q t ∷ []) =
    clarification_events a p b m q t
sequence_of (answer_material_submitted a i k p t ∷ system_follow_up_recorded b q c ∷ []) =
    follow_up_events (record { base = a; id = i; kind = k; position = p; text = t }) none b q c
sequence_of
      (answer_material_submitted a i k p t
        ∷ question_outcome_cleared x r
        ∷ system_follow_up_recorded b q c
        ∷ []) =
    follow_up_events (record { base = a; id = i; kind = k; position = p; text = t }) (some (x, r)) b
      q c
sequence_of (answer_material_submitted a i k p t ∷ question_evaluation_recorded b q e ∷ []) =
    evaluation_events (record { base = a; id = i; kind = k; position = p; text = t }) b q e
sequence_of (unevaluated_question_outcome_recorded a p o ∷ []) = outcome_events a p o
sequence_of (question_frozen a p ∷ []) = freeze_events a p none
sequence_of (question_frozen a p ∷ report_requested b k ∷ []) = freeze_events a p (some (b, k))
sequence_of (report_requested a k ∷ []) = report_request_events a k
sequence_of (report_stored a i k ∷ []) = stored_events a i k
sequence_of (interview_abandoned a r ∷ []) = abandoned_events a r
sequence_of _ = other_events

-- `change.events.filter((event) => event.type === "report_stored")`, and the same for evaluations.
unfoldable pub stored_reports : List InterviewEvent → List (EventBase × Text × ReportKind)
stored_reports [] = []
stored_reports (report_stored base id kind ∷ rest) = (base, id, kind) ∷ stored_reports rest
stored_reports (_ ∷ rest) = stored_reports rest

unfoldable pub recorded_evaluations :
    List InterviewEvent → List (EventBase × ℕ × QuestionEvaluation)
recorded_evaluations [] = []
recorded_evaluations (question_evaluation_recorded base position evaluation ∷ rest) =
    (base, position, evaluation) ∷ recorded_evaluations rest
recorded_evaluations (_ ∷ rest) = recorded_evaluations rest

unfoldable pub assert_evaluation_payload :
    Interview
    → Bool
    → List (EventBase × ℕ × QuestionEvaluation)
    → List EvaluationPersistence
    → SaveChecked
assert_evaluation_payload previous true ((base, position, evaluation) ∷ []) (write ∷ []) =
    reject_if previous
      (not (text_eq write.evaluation_id evaluation.id)
        || not (write.question_position == position)
        || not (evaluation_eq write.evaluation evaluation)
        || not (same_time write.created_at base.occurred_at))
      evaluation_payload
assert_evaluation_payload previous true _ _ = err (corrupt_save previous.id evaluation_counts)
assert_evaluation_payload previous false events [] = ok tt
assert_evaluation_payload previous false events (_ ∷ _) =
    err (corrupt_save previous.id unexpected_evaluation)

unfoldable pub assert_report_payload :
    Interview → Bool → List (EventBase × Text × ReportKind) → Option ReportPersistence → SaveChecked
assert_report_payload previous true ((base, id, kind) ∷ []) (some report) =
    reject_if previous
      (not (text_eq report.id id)
        || not (report_kind_eq report.kind kind)
        || not (same_time report.created_at base.occurred_at))
      report_payload
assert_report_payload previous true _ _ = err (corrupt_save previous.id report_payload)
assert_report_payload previous false events none = ok tt
assert_report_payload previous false events (some _) =
    err (corrupt_save previous.id unexpected_report)

unfoldable pub assert_persistence_payloads : InterviewSave → Bool → Bool → SaveChecked
assert_persistence_payloads change expects_evaluation expects_report = do
  assert_evaluation_payload change.previous expects_evaluation (recorded_evaluations change.events)
      change.evaluations
  assert_report_payload change.previous expects_report (stored_reports change.events) change.report

-- `getQuestion`
abbrev pub question_of :
    Interview → ℕ → Option InterviewQuestionState → Result SaveError InterviewQuestionState
question_of interview position none = err (corrupt_save interview.id question_outside)
question_of interview position (some question) =
    if question.position == position
    then ok question
    else err (corrupt_save interview.id question_outside)

unfoldable pub get_question : Interview → ℕ → Result SaveError InterviewQuestionState
get_question interview position =
    question_of interview position (at_position interview.questions position)

-- `replaceQuestion` without its patch, which the callers write on the result.
unfoldable pub replace_question : Interview → InterviewQuestionState → Interview
replace_question interview question = record interview {
  questions = map (replaced_by question) interview.questions;
}

unfoldable pub require_pending :
    Interview → OperationName → Result SaveError PendingInterviewOperation
require_pending interview operation = elim interview.pending_operation [
  | none ↦ err (corrupt_save interview.id expected_pending)
  | some pending ↦ do
    reject_if interview
        (not (is_active interview.status)
          || not (has_phase interview.phase processing)
          || not (operation_eq pending.operation operation)
          || not (pending.question_position == interview.current_question_position))
        expected_pending
    ok pending
]

-- One test of `assertSameOperation`.
abbrev pub is_of_operation : PendingInterviewOperation → EventBase → Bool
is_of_operation pending base = text_eq base.operation_id pending.operation_id

abbrev pub is_continue_phase : InterviewPhase → Bool
is_continue_phase phase = phase_eq phase awaiting_continue

unfoldable pub assert_answer_event :
    Interview → PendingInterviewOperation → AnswerEvent → SaveChecked
unfolding get_question
assert_answer_event interview pending event = do
  expected ←
      (if is_continue_phase pending.previous_phase then ok supplement else (do
        question ← get_question interview pending.question_position
        ok (if length question.system_follow_ups == 0 then main_answer else follow_up_answer)))
  reject_if interview
      (not (event.position == pending.question_position)
        || not (material_kind_eq event.kind expected)
        || before pending.accepted_at event.base.occurred_at
        || is_blank event.text)
      answer_mismatch

abbrev pub answer_material_from : AnswerEvent → AnswerMaterial
answer_material_from event = record {
  id = event.id;
  kind = event.kind;
  text = event.text;
  submitted_at = clone_date event.base.occurred_at;
}

abbrev pub clone_pending : PendingInterviewOperation → PendingInterviewOperation
clone_pending pending = record pending { accepted_at = clone_date pending.accepted_at }
