-- ===== src/Engine/Guards.antt =====
-- packages/domain/src/engine.ts: the assertions that commands make before they change an interview,
-- the lookup and replacement of the current question, and the inactivity limit.
use interview_agent.Common.{
  ℕ, ◌+◌, Bool, true, false, not, ◌&&◌, ltb, ◌==◌, if◌then◌else◌, Option, none, some, map,
  at_position, any, count_if, length, Text, text_eq, is_blank, Date, is_valid, before, exceeds,
  later_by, Result, ok, err, ◌>>=◌, ◌>>◌, throw_if,
}
use interview_agent.Interview.{
  InterviewPhase, phase_eq, FollowUpKind, clarification, FollowUpPurpose, is_active,
  is_terminal_interview_status, is_report_pending, AnswerMaterial, AnswerMaterialKind,
  follow_up_answer, InterviewBlueprintItem, QuestionSnapshot,
}
use interview_agent.Engine.{
  CommandBase, Interview, InterviewQuestionState, PendingInterviewOperation, DomainError,
  invalid_command, invalid_blueprint, id_mismatch, version_conflict, CommandReason,
  report_pending_only, terminal_read_only, not_active, wrong_phase, blank_command_text, blank_text,
  invalid_date, precedes_activity, no_pending_operation, invalid_question_state,
  invalid_blueprint_position,
}

abbrev pub Checked : Type 0
Checked = Result DomainError (Unit {0})

-- `INACTIVITY_LIMIT_MS`
abbrev pub inactivity_limit_ms : ℕ
inactivity_limit_ms = 86400000

abbrev pub refuse_if : Bool → CommandReason → Checked
refuse_if test reason = throw_if test (invalid_command reason)

unfoldable pub assert_valid_date : Date → Checked
assert_valid_date value = refuse_if (not (is_valid value)) invalid_date

unfoldable pub assert_non_empty_text : Text → Checked
assert_non_empty_text text = refuse_if (is_blank text) blank_command_text

unfoldable pub assert_non_empty_blueprint_text : Text → Checked
assert_non_empty_blueprint_text text = throw_if (is_blank text) (invalid_blueprint blank_text)

unfoldable pub assert_active : Interview → Checked
unfolding is_terminal_interview_status
assert_active interview = do
  refuse_if (is_report_pending interview.status) report_pending_only
  refuse_if (is_terminal_interview_status interview.status) terminal_read_only
  refuse_if (not (is_active interview.status)) not_active

-- `phase === expected`, for a phase that may be `null`.
abbrev pub has_phase : Option InterviewPhase → InterviewPhase → Bool
has_phase none expected = false
has_phase (some phase) expected = phase_eq phase expected

unfoldable pub assert_phase : Interview → InterviewPhase → Checked
assert_phase interview phase =
    refuse_if (not (has_phase interview.phase phase)) (wrong_phase interview.phase)

unfoldable pub assert_expected_version : Interview → ℕ → Checked
assert_expected_version interview expected =
    throw_if (not (expected == interview.version)) (version_conflict expected interview.version)

unfoldable pub assert_command_time_not_before_activity : Interview → Date → Checked
assert_command_time_not_before_activity interview occurred_at =
    refuse_if (before occurred_at interview.last_effective_activity_at) precedes_activity

unfoldable pub assert_command_identity_and_date : Interview → CommandBase → Checked
unfolding assert_valid_date
assert_command_identity_and_date interview command = do
  throw_if (not (text_eq command.interview_id interview.id))
      (id_mismatch interview.id command.interview_id)
  assert_valid_date command.occurred_at

unfoldable pub required_pending_operation : Interview → Result DomainError PendingInterviewOperation
required_pending_operation interview = elim interview.pending_operation [
  | none ↦ err (invalid_command no_pending_operation)
  | some pending ↦ ok pending
]

-- The test of `isInterviewExpired`, once its date is known to be valid.
abbrev pub inactive_at : Interview → Date → Bool
inactive_at interview moment =
    is_active interview.status
    && exceeds moment interview.last_effective_activity_at inactivity_limit_ms

unfoldable pub is_interview_expired : Interview → Date → Result DomainError Bool
unfolding assert_valid_date
is_interview_expired interview moment = do
  assert_valid_date moment
  ok (inactive_at interview moment)

-- The question's position, and how many there are.
unfoldable pub get_interview_progress : Interview → ℕ × ℕ
get_interview_progress interview = (interview.current_question_position, interview.question_count)

unfoldable pub get_interview_expires_at : Interview → Date
get_interview_expires_at interview =
    later_by interview.last_effective_activity_at inactivity_limit_ms

-- A state found under an index is current if its own position says so.
abbrev pub question_at :
    ℕ → Option InterviewQuestionState → Result DomainError InterviewQuestionState
question_at position none = err (invalid_command invalid_question_state)
question_at position (some question) =
    if question.position == position
    then ok question
    else err (invalid_command invalid_question_state)

unfoldable pub get_current_question_state : Interview → Result DomainError InterviewQuestionState
get_current_question_state interview =
    question_at interview.current_question_position
      (at_position interview.questions interview.current_question_position)

abbrev pub item_at : ℕ → Option InterviewBlueprintItem → Result DomainError InterviewBlueprintItem
item_at position none = err (invalid_command invalid_blueprint_position)
item_at position (some item) =
    if item.position == position then ok item else err (invalid_command invalid_blueprint_position)

unfoldable pub get_blueprint_item : Interview → ℕ → Result DomainError InterviewBlueprintItem
get_blueprint_item interview position =
    item_at position (at_position interview.blueprint.questions position)

unfoldable pub get_current_question : Interview → Result DomainError QuestionSnapshot
unfolding get_blueprint_item
get_current_question interview = do
  item ← get_blueprint_item interview interview.current_question_position
  ok item.question

-- The callback of `replaceCurrentQuestion`.
abbrev pub replaced_by : InterviewQuestionState → InterviewQuestionState → InterviewQuestionState
replaced_by question candidate =
    if candidate.position == question.position then question else candidate

-- `replaceCurrentQuestion` without its `changes`, which the callers write on the result.
unfoldable pub replace_current_question : Interview → InterviewQuestionState → Interview
replace_current_question interview question = record interview {
  questions = map (replaced_by question) interview.questions;
}

unfoldable pub advance_version : Interview → Interview
advance_version interview = record interview { version = interview.version + 1 }

unfoldable pub purpose_kind : FollowUpPurpose → FollowUpKind
purpose_kind FollowUpPurpose.depth = FollowUpKind.depth
purpose_kind _ = clarification

abbrev pub is_follow_up_answer : AnswerMaterial → Bool
is_follow_up_answer material = is_follow_up_kind material.kind
  where
    is_follow_up_kind : AnswerMaterialKind → Bool
    is_follow_up_kind follow_up_answer = true
    is_follow_up_kind _ = false

unfoldable pub has_unanswered_system_follow_up : InterviewQuestionState → Bool
has_unanswered_system_follow_up question =
    ltb (count_if is_follow_up_answer question.answer_material) (length question.system_follow_ups)

-- `answerMaterial.some((material) => material.id === id)`
unfoldable pub uses_material_id : InterviewQuestionState → Text → Bool
unfolding any
uses_material_id question id = any (λ material. text_eq material.id id) question.answer_material
