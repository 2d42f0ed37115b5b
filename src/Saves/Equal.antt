-- ===== src/Saves/Equal.antt =====
-- packages/db/src/repositories/transition-validation.ts: `deepEqual` on the types of an interview. It
-- compares dates by their time, so a date that is invalid differs from itself, and all else as `Object.is` does.
pub mod Sound
pub mod Same
use interview_agent.Common.{
  ℕ, Bool, true, false, ◌&&◌, ◌==◌, Option, none, some, List, [], ◌∷◌, Text, text_eq, num_eq, Date,
  same_time,
}
use interview_agent.Interview.{
  InterviewStatus, active, report_pending, completed, early_ended, abandoned, deleting, phase_eq,
  report_kind_eq, follow_up_kind_eq, domain_eq, ZeroScoreReason, unknown, skipped, irrelevant,
  incorrect, FollowUpPurpose, answer_clarification, irrelevant_response_clarification,
  AnswerMaterialKind, main_answer, follow_up_answer, supplement, ResponseClassification, relevant,
  ambiguous, RubricItemSnapshot, FollowUpGoalSnapshot, QuestionSnapshot, InterviewBlueprintItem,
  InterviewBlueprint, AnswerMaterial, RubricItemEvaluation, QuestionOutcome, scored, zero_score,
  QuestionEvaluation,
}
use interview_agent.Engine.{
  QuestionClarification, SystemFollowUp, InterviewQuestionState, PendingInterviewOperation,
  Interview,
}
use interview_agent.Engine.Accepted.{operation_eq}

unfoldable pub list_eq {ℓ} : {A : Type ℓ} → (A → A → Bool) → List A → List A → Bool
list_eq eq [] [] = true
list_eq eq (x ∷ xs) (y ∷ ys) = eq x y && list_eq eq xs ys
list_eq eq [] (y ∷ ys) = false
list_eq eq (x ∷ xs) [] = false

abbrev pub option_eq {ℓ} : {A : Type ℓ} → (A → A → Bool) → Option A → Option A → Bool
option_eq eq none none = true
option_eq eq (some a) (some b) = eq a b
option_eq eq none (some b) = false
option_eq eq (some a) none = false

abbrev pub status_eq : InterviewStatus → InterviewStatus → Bool
status_eq active active = true
status_eq report_pending report_pending = true
status_eq completed completed = true
status_eq early_ended early_ended = true
status_eq abandoned abandoned = true
status_eq deleting deleting = true
status_eq _ _ = false

abbrev pub reason_eq : ZeroScoreReason → ZeroScoreReason → Bool
reason_eq unknown unknown = true
reason_eq skipped skipped = true
reason_eq ZeroScoreReason.irrelevant ZeroScoreReason.irrelevant = true
reason_eq incorrect incorrect = true
reason_eq _ _ = false

abbrev pub purpose_eq : FollowUpPurpose → FollowUpPurpose → Bool
purpose_eq answer_clarification answer_clarification = true
purpose_eq irrelevant_response_clarification irrelevant_response_clarification = true
purpose_eq FollowUpPurpose.depth FollowUpPurpose.depth = true
purpose_eq _ _ = false

abbrev pub material_kind_eq : AnswerMaterialKind → AnswerMaterialKind → Bool
material_kind_eq main_answer main_answer = true
material_kind_eq follow_up_answer follow_up_answer = true
material_kind_eq supplement supplement = true
material_kind_eq _ _ = false

abbrev pub classification_eq : ResponseClassification → ResponseClassification → Bool
classification_eq relevant relevant = true
classification_eq ambiguous ambiguous = true
classification_eq ResponseClassification.irrelevant ResponseClassification.irrelevant = true
classification_eq _ _ = false

abbrev pub flag_eq : Bool → Bool → Bool
flag_eq true true = true
flag_eq false false = true
flag_eq _ _ = false

unfoldable pub rubric_item_eq : RubricItemSnapshot → RubricItemSnapshot → Bool
rubric_item_eq a b =
    text_eq a.id b.id && text_eq a.description b.description && num_eq a.weight b.weight

unfoldable pub goal_eq : FollowUpGoalSnapshot → FollowUpGoalSnapshot → Bool
goal_eq a b = text_eq a.id b.id && follow_up_kind_eq a.kind b.kind && text_eq a.goal b.goal

unfoldable pub snapshot_eq : QuestionSnapshot → QuestionSnapshot → Bool
snapshot_eq a b =
    text_eq a.question_id b.question_id
    && num_eq a.question_version b.question_version
    && domain_eq a.domain b.domain
    && text_eq a.source_wording b.source_wording
    && text_eq a.displayed_wording b.displayed_wording
    && list_eq rubric_item_eq a.rubric b.rubric
    && list_eq goal_eq a.follow_up_goals b.follow_up_goals
    && text_eq a.knowledge_explanation b.knowledge_explanation

unfoldable pub item_eq : InterviewBlueprintItem → InterviewBlueprintItem → Bool
item_eq a b = a.position == b.position && snapshot_eq a.question b.question

unfoldable pub blueprint_eq : InterviewBlueprint → InterviewBlueprint → Bool
blueprint_eq a b =
    text_eq a.selection_seed b.selection_seed
    && option_eq domain_eq a.unassessed_domain b.unassessed_domain
    && list_eq item_eq a.questions b.questions

unfoldable pub material_eq : AnswerMaterial → AnswerMaterial → Bool
material_eq a b =
    text_eq a.id b.id
    && material_kind_eq a.kind b.kind
    && text_eq a.text b.text
    && same_time a.submitted_at b.submitted_at

unfoldable pub award_eq : RubricItemEvaluation → RubricItemEvaluation → Bool
award_eq a b =
    text_eq a.rubric_item_id b.rubric_item_id
    && list_eq text_eq a.evidence_material_ids b.evidence_material_ids
    && num_eq a.awarded_points b.awarded_points
    && list_eq text_eq a.missing_or_incorrect_points b.missing_or_incorrect_points

abbrev pub outcome_eq : QuestionOutcome → QuestionOutcome → Bool
outcome_eq (scored a) (scored b) = a == b
outcome_eq (zero_score a) (zero_score b) = reason_eq a b
outcome_eq _ _ = false

unfoldable pub evaluation_eq : QuestionEvaluation → QuestionEvaluation → Bool
evaluation_eq a b =
    text_eq a.id b.id
    && classification_eq a.classification b.classification
    && list_eq award_eq a.rubric_items b.rubric_items
    && outcome_eq a.outcome b.outcome

unfoldable pub clarification_eq : QuestionClarification → QuestionClarification → Bool
clarification_eq a b =
    text_eq a.message_id b.message_id
    && text_eq a.text b.text
    && same_time a.requested_at b.requested_at
    && same_time a.recorded_at b.recorded_at

unfoldable pub system_follow_up_eq : SystemFollowUp → SystemFollowUp → Bool
system_follow_up_eq a b =
    text_eq a.message_id b.message_id
    && text_eq a.goal_id b.goal_id
    && follow_up_kind_eq a.kind b.kind
    && purpose_eq a.purpose b.purpose
    && classification_eq a.response_classification b.response_classification
    && text_eq a.text b.text
    && same_time a.recorded_at b.recorded_at

unfoldable pub question_eq : InterviewQuestionState → InterviewQuestionState → Bool
question_eq a b =
    a.position == b.position
    && list_eq material_eq a.answer_material b.answer_material
    && list_eq clarification_eq a.question_clarifications b.question_clarifications
    && list_eq system_follow_up_eq a.system_follow_ups b.system_follow_ups
    && option_eq evaluation_eq a.evaluation b.evaluation
    && option_eq outcome_eq a.outcome b.outcome
    && flag_eq a.frozen b.frozen

unfoldable pub pending_eq : PendingInterviewOperation → PendingInterviewOperation → Bool
pending_eq a b =
    text_eq a.operation_id b.operation_id
    && operation_eq a.operation b.operation
    && a.question_position == b.question_position
    && same_time a.accepted_at b.accepted_at
    && phase_eq a.previous_phase b.previous_phase

-- `deepEqual` of two interviews, in three groups of fields.
unfoldable pub identity_eq : Interview → Interview → Bool
identity_eq a b =
    text_eq a.id b.id
    && text_eq a.account_id b.account_id
    && a.question_count == b.question_count
    && blueprint_eq a.blueprint b.blueprint
    && same_time a.created_at b.created_at

unfoldable pub progress_eq : Interview → Interview → Bool
progress_eq a b =
    a.version == b.version
    && status_eq a.status b.status
    && option_eq phase_eq a.phase b.phase
    && a.current_question_position == b.current_question_position
    && list_eq question_eq a.questions b.questions

unfoldable pub activity_eq : Interview → Interview → Bool
activity_eq a b =
    option_eq pending_eq a.pending_operation b.pending_operation
    && option_eq report_kind_eq a.pending_report_kind b.pending_report_kind
    && option_eq same_time a.report_requested_at b.report_requested_at
    && option_eq text_eq a.report_id b.report_id
    && same_time a.last_effective_activity_at b.last_effective_activity_at

unfoldable pub interview_eq : Interview → Interview → Bool
interview_eq a b = identity_eq a b && progress_eq a b && activity_eq a b
