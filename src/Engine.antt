-- ===== src/Engine.antt =====
-- packages/domain/src/engine.ts, with the commands of commands.ts and the events of events.ts: the
-- types of the engine. The children hold its functions, in the order in which they call each other.
pub mod Guards
pub mod Blueprints
pub mod Plans
pub mod Immediate
pub mod Accepted
pub mod Validation
pub mod Completion
pub mod Handle
pub mod Invariant
pub mod Step
pub mod Preserve
pub mod Refine
pub mod Theorems
pub mod Runs
pub mod Tests
use interview_agent.Common.{ℕ, Bool, Option, List, Text, Num, Date}
use interview_agent.Interview.{
  InterviewStatus, InterviewPhase, ReportKind, FollowUpKind, FollowUpPurpose, AnswerMaterial,
  AnswerMaterialKind, ResponseClassification, InterviewBlueprint, QuestionEvaluation,
  QuestionEvaluationInput, QuestionOutcome,
}
use interview_agent.Scoring.{RubricError, ScoringError}
use interview_agent.Coverage.{CoverageError}

-- `InterviewCommandBase` without its `type`, which is the command's constructor.
pub record CommandBase : Type 0 where
  pub interview_id : Text
  pub operation_id : Text
  pub expected_version : ℕ
  pub occurred_at : Date

pub record CreateInterviewCommand : Type 0 where
  pub base : CommandBase
  pub account_id : Text
  pub question_count : ℕ
  pub blueprint : InterviewBlueprint

pub data AnswerCommandType : Type 0 where
  submit_answer submit_supplement : AnswerCommandType

-- `SubmitAnswerCommand | SubmitSupplementCommand`
pub record AnswerCommand : Type 0 where
  pub type : AnswerCommandType
  pub base : CommandBase
  pub answer_material_id : Text
  pub text : Text

pub record RecordReportCommand : Type 0 where
  pub base : CommandBase
  pub report_id : Text
  pub report_kind : ReportKind

pub data PlannedCommand : Type 0 where
  answer : AnswerCommand → PlannedCommand
  request_question_clarification : CommandBase → PlannedCommand

-- `InitialInterviewCommand` but for `create_interview`, which alone needs no interview.
pub data ExistingCommand : Type 0 where
  planned : PlannedCommand → ExistingCommand
  mark_question_unknown skip_question continue_interview end_interview_early abandon_interview
        expire_interview :
      CommandBase → ExistingCommand
  record_report : RecordReportCommand → ExistingCommand

pub data InitialInterviewCommand : Type 0 where
  create_interview : CreateInterviewCommand → InitialInterviewCommand
  existing : ExistingCommand → InitialInterviewCommand

pub record RecordQuestionClarificationCommand : Type 0 where
  pub base : CommandBase
  pub message_id : Text
  pub text : Text

pub record RecordSystemFollowUpCommand : Type 0 where
  pub base : CommandBase
  pub message_id : Text
  pub goal_id : Text
  pub kind : FollowUpKind
  pub purpose : FollowUpPurpose
  pub response_classification : ResponseClassification
  pub text : Text

pub record RecordQuestionEvaluationCommand : Type 0 where
  pub base : CommandBase
  pub evaluation : QuestionEvaluationInput

pub data InterviewOperationCompletion : Type 0 where
  record_question_clarification : RecordQuestionClarificationCommand → InterviewOperationCompletion
  record_system_follow_up : RecordSystemFollowUpCommand → InterviewOperationCompletion
  record_question_evaluation : RecordQuestionEvaluationCommand → InterviewOperationCompletion

pub record QuestionClarification : Type 0 where
  pub message_id : Text
  pub text : Text
  pub requested_at : Date
  pub recorded_at : Date

pub record SystemFollowUp : Type 0 where
  pub message_id : Text
  pub goal_id : Text
  pub kind : FollowUpKind
  pub purpose : FollowUpPurpose
  pub response_classification : ResponseClassification
  pub text : Text
  pub recorded_at : Date

pub record InterviewQuestionState : Type 0 where
  pub position : ℕ
  pub answer_material : List AnswerMaterial
  pub question_clarifications : List QuestionClarification
  pub system_follow_ups : List SystemFollowUp
  pub evaluation : Option QuestionEvaluation
  pub outcome : Option QuestionOutcome
  pub frozen : Bool

pub data OperationName : Type 0 where
  answer_analysis question_clarification : OperationName

pub record PendingInterviewOperation : Type 0 where
  pub operation_id : Text
  pub operation : OperationName
  pub question_position : ℕ
  pub accepted_at : Date
  pub previous_phase : InterviewPhase

pub record Interview : Type 0 where
  pub id : Text
  pub account_id : Text
  pub version : ℕ
  pub status : InterviewStatus
  pub phase : Option InterviewPhase
  pub question_count : ℕ
  pub blueprint : InterviewBlueprint
  pub current_question_position : ℕ
  pub questions : List InterviewQuestionState
  pub pending_operation : Option PendingInterviewOperation
  pub pending_report_kind : Option ReportKind
  pub report_requested_at : Option Date
  pub report_id : Option Text
  pub created_at : Date
  pub last_effective_activity_at : Date

-- `InterviewEventBase`
pub record EventBase : Type 0 where
  pub interview_id : Text
  pub operation_id : Text
  pub occurred_at : Date

pub data AbandonReason : Type 0 where
  user expired : AbandonReason

pub data InterviewEvent : Type 0 where
  interview_created : EventBase → Text → ℕ → InterviewBlueprint → InterviewEvent
  answer_material_submitted : EventBase → Text → AnswerMaterialKind → ℕ → Text → InterviewEvent
  question_clarification_requested : EventBase → ℕ → InterviewEvent
  question_clarification_recorded : EventBase → Text → ℕ → Text → InterviewEvent
  system_follow_up_recorded : EventBase → ℕ → RecordSystemFollowUpCommand → InterviewEvent
  question_outcome_cleared : EventBase → ℕ → InterviewEvent
  question_evaluation_recorded : EventBase → ℕ → QuestionEvaluation → InterviewEvent
  unevaluated_question_outcome_recorded : EventBase → ℕ → QuestionOutcome → InterviewEvent
  question_frozen : EventBase → ℕ → InterviewEvent
  report_requested : EventBase → ReportKind → InterviewEvent
  report_stored : EventBase → Text → ReportKind → InterviewEvent
  interview_abandoned : EventBase → AbandonReason → InterviewEvent

pub record InterviewTransition : Type 0 where
  pub interview : Interview
  pub events : List InterviewEvent

-- `InterviewOperationPlanBase`
pub record PlanBase : Type 0 where
  pub interview_id : Text
  pub operation_id : Text
  pub question_position : ℕ
  pub accepted_at : Date
  pub interview : Interview

pub data InterviewOperationPlan : Type 0 where
  answer_analysis_plan : PlanBase → AnswerCommand → AnswerMaterial → InterviewOperationPlan
  question_clarification_plan : PlanBase → CommandBase → InterviewOperationPlan

pub data InterviewCommandResult : Type 0 where
  transition_result : InterviewTransition → InterviewCommandResult
  plan_result : InterviewOperationPlan → InterviewCommandResult

-- The messages of `InvalidInterviewBlueprintError`.
pub data BlueprintReason : Type 0 where
  unsupported_question_count : BlueprintReason
  wrong_question_total : ℕ → BlueprintReason
  wrong_position : ℕ → ℕ → BlueprintReason
  duplicate_question : Text → Num → BlueprintReason
  invalid_question_version blank_text : BlueprintReason
  rubric_reason : RubricError → BlueprintReason
  duplicate_follow_up_goal : Text → BlueprintReason
  missing_clarification_goal : BlueprintReason
  coverage_reason : CoverageError → BlueprintReason

-- The messages of `InvalidInterviewCommandError`.
pub data CommandReason : Type 0 where
  already_exists does_not_exist report_precedes_request processing_pending
        needs_clarification_completion needs_answer_completion already_pending answer_id_used
        retry_operation_mismatch not_awaiting_report_retry retry_must_advance no_outcome_to_freeze
        no_question_outcome not_expired terminal_read_only not_awaiting_report blank_command_text
        unknown_goal goal_kind_mismatch goal_used purpose_mismatch irrelevant_purpose
        needs_clarification_first completion_mismatch completion_precedes_acceptance
        not_accepted_state not_accepted_operation question_not_current no_pending_operation
        precedes_activity report_pending_only not_active invalid_question_state
        invalid_blueprint_position invalid_date :
      CommandReason
  wrong_report_kind : Option ReportKind → CommandReason
  follow_up_kind_used : FollowUpKind → CommandReason
  wrong_phase : Option InterviewPhase → CommandReason
  scoring_reason : ScoringError → CommandReason

-- `InterviewDomainError` and its subclasses.
pub data DomainError : Type 0 where
  version_conflict : ℕ → ℕ → DomainError
  id_mismatch : Text → Text → DomainError
  invalid_blueprint : BlueprintReason → DomainError
  invalid_command : CommandReason → DomainError
  -- An error of `parsePositiveQuestionScore`, which the engine passes on as it is.
  unexpected : ScoringError → DomainError
