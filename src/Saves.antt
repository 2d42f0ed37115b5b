-- ===== src/Saves.antt =====
-- packages/db/src/repositories/transition-validation.ts with the types of types.ts: the guard that the
-- repository puts before every save of an interview.
pub mod Equal
pub mod Validate
pub mod Eventless
pub mod Completions
pub mod Commands
pub mod Transitions
pub mod Accepts
pub mod Sound
pub mod Tests
use interview_agent.Common.{ℕ, Option, List, Text, Date}
use interview_agent.Interview.{ReportKind, AnswerMaterialKind, QuestionEvaluation, QuestionOutcome}
use interview_agent.Engine.{
  Interview, InterviewEvent, EventBase, AbandonReason, RecordSystemFollowUpCommand,
}

-- `EvaluationPersistence` without its model metadata, which the guard does not read.
pub record EvaluationPersistence : Type 0 where
  pub evaluation_id : Text
  pub question_position : ℕ
  pub evaluation : QuestionEvaluation
  pub created_at : Date

-- `ReportPersistence`, with the fields that the guard reads.
pub record ReportPersistence : Type 0 where
  pub id : Text
  pub kind : ReportKind
  pub created_at : Date

-- `evaluations` is empty where the source leaves it out.
pub record InterviewSave : Type 0 where
  pub previous : Interview
  pub current : Interview
  pub events : List InterviewEvent
  pub evaluations : List EvaluationPersistence
  pub report : Option ReportPersistence

-- The details that `reject` reports.
pub data SaveReason : Type 0 where
  unsupported_events pending_mismatch refresh_mismatch eventless_mismatch clarification_mismatch
        follow_up_mismatch clear_mismatch evaluation_mismatch outcome_mismatch freeze_mismatch
        freeze_without_outcome report_request_mismatch early_end_mismatch stored_report_mismatch
        abandonment_mismatch evaluation_counts evaluation_payload unexpected_evaluation
        report_payload unexpected_report event_identity expected_pending operation_mismatch
        answer_mismatch question_outside not_canonical :
      SaveReason

-- `RepositoryImmutableConflictError` and `RepositoryCorruptionError`
pub data SaveError : Type 0 where
  immutable_conflict : Text → SaveError
  corrupt_save : Text → SaveReason → SaveError

-- The fields of an `answer_material_submitted` event.
pub record AnswerEvent : Type 0 where
  pub base : EventBase
  pub id : Text
  pub kind : AnswerMaterialKind
  pub position : ℕ
  pub text : Text

-- The sequences of event types that the guard knows, with the events' fields.
pub data EventSequence : Type 0 where
  no_events : EventSequence
  clarification_events : EventBase → ℕ → EventBase → Text → ℕ → Text → EventSequence
  follow_up_events :
      AnswerEvent
      → Option (EventBase × ℕ)
      → EventBase
      → ℕ
      → RecordSystemFollowUpCommand
      → EventSequence
  evaluation_events : AnswerEvent → EventBase → ℕ → QuestionEvaluation → EventSequence
  outcome_events : EventBase → ℕ → QuestionOutcome → EventSequence
  freeze_events : EventBase → ℕ → Option (EventBase × ReportKind) → EventSequence
  report_request_events : EventBase → ReportKind → EventSequence
  stored_events : EventBase → Text → ReportKind → EventSequence
  abandoned_events : EventBase → AbandonReason → EventSequence
  other_events : EventSequence
