-- ===== src/Interview.antt =====
-- packages/domain/src/interview.ts: the vocabulary of an interview, its enumerations as data types
-- and its interfaces as records. An identifier is its text; positions and versions are natural
-- numbers; a number that the code tests by `Number.isInteger` is a `Num`.
use interview_agent.Common.{
  ℕ, Bool, true, false, not, ◌||◌, ◌==◌, Option, List, [], ◌∷◌, if◌then◌else◌, Text, Num, Date,
  Result, ok, err, is_integer, below, above, value,
}

pub data InterviewStatus : Type 0 where
  active report_pending completed early_ended abandoned deleting : InterviewStatus

pub data InterviewPhase : Type 0 where
  awaiting_response processing awaiting_continue : InterviewPhase

pub data ReportKind : Type 0 where
  complete incomplete : ReportKind

pub data ZeroScoreReason : Type 0 where
  unknown skipped irrelevant incorrect : ZeroScoreReason

pub data FollowUpKind : Type 0 where
  clarification depth : FollowUpKind

pub data FollowUpPurpose : Type 0 where
  answer_clarification irrelevant_response_clarification depth : FollowUpPurpose

pub data AnswerMaterialKind : Type 0 where
  main_answer follow_up_answer supplement : AnswerMaterialKind

pub data ResponseClassification : Type 0 where
  relevant ambiguous irrelevant : ResponseClassification

pub data KnowledgeDomain : Type 0 where
  go_language concurrency_runtime_performance http_rpc_api database_storage
        cache_messaging_distributed testing_observability_engineering :
      KnowledgeDomain

-- `KNOWLEDGE_DOMAINS`
abbrev pub knowledge_domains : List KnowledgeDomain
knowledge_domains =
    go_language ∷ concurrency_runtime_performance ∷ http_rpc_api ∷ database_storage
    ∷ cache_messaging_distributed ∷ testing_observability_engineering ∷ []

-- `===` on the enumerations.
abbrev pub domain_eq : KnowledgeDomain → KnowledgeDomain → Bool
domain_eq go_language go_language = true
domain_eq concurrency_runtime_performance concurrency_runtime_performance = true
domain_eq http_rpc_api http_rpc_api = true
domain_eq database_storage database_storage = true
domain_eq cache_messaging_distributed cache_messaging_distributed = true
domain_eq testing_observability_engineering testing_observability_engineering = true
domain_eq _ _ = false

abbrev pub phase_eq : InterviewPhase → InterviewPhase → Bool
phase_eq awaiting_response awaiting_response = true
phase_eq processing processing = true
phase_eq awaiting_continue awaiting_continue = true
phase_eq _ _ = false

abbrev pub report_kind_eq : ReportKind → ReportKind → Bool
report_kind_eq complete complete = true
report_kind_eq incomplete incomplete = true
report_kind_eq _ _ = false

abbrev pub follow_up_kind_eq : FollowUpKind → FollowUpKind → Bool
follow_up_kind_eq clarification clarification = true
follow_up_kind_eq FollowUpKind.depth FollowUpKind.depth = true
follow_up_kind_eq _ _ = false

abbrev pub is_active : InterviewStatus → Bool
is_active active = true
is_active _ = false

abbrev pub is_report_pending : InterviewStatus → Bool
is_report_pending report_pending = true
is_report_pending _ = false

abbrev pub is_irrelevant : ResponseClassification → Bool
is_irrelevant ResponseClassification.irrelevant = true
is_irrelevant _ = false

pub record RubricItemSnapshot : Type 0 where
  pub id : Text
  pub description : Text
  pub weight : Num

pub record FollowUpGoalSnapshot : Type 0 where
  pub id : Text
  pub kind : FollowUpKind
  pub goal : Text

pub record QuestionSnapshot : Type 0 where
  pub question_id : Text
  pub question_version : Num
  pub domain : KnowledgeDomain
  pub source_wording : Text
  pub displayed_wording : Text
  pub rubric : List RubricItemSnapshot
  pub follow_up_goals : List FollowUpGoalSnapshot
  pub knowledge_explanation : Text

pub record InterviewBlueprintItem : Type 0 where
  pub position : ℕ
  pub question : QuestionSnapshot

pub record InterviewBlueprint : Type 0 where
  pub selection_seed : Text
  pub unassessed_domain : Option KnowledgeDomain
  pub questions : List InterviewBlueprintItem

pub record AnswerMaterial : Type 0 where
  pub id : Text
  pub kind : AnswerMaterialKind
  pub text : Text
  pub submitted_at : Date

pub record RubricItemEvaluation : Type 0 where
  pub rubric_item_id : Text
  pub evidence_material_ids : List Text
  pub awarded_points : Num
  pub missing_or_incorrect_points : List Text

-- `QuestionOutcome`: a positive score, or zero with its reason.
pub data QuestionOutcome : Type 0 where
  scored : ℕ → QuestionOutcome
  zero_score : ZeroScoreReason → QuestionOutcome

-- `outcome.score`
abbrev pub outcome_score : QuestionOutcome → ℕ
outcome_score (scored n) = n
outcome_score (zero_score r) = 0

pub record QuestionEvaluationInput : Type 0 where
  pub id : Text
  pub classification : ResponseClassification
  pub rubric_items : List RubricItemEvaluation

pub record QuestionEvaluation : Type 0 where
  pub id : Text
  pub classification : ResponseClassification
  pub rubric_items : List RubricItemEvaluation
  pub outcome : QuestionOutcome

-- `InvalidQuestionScoreError`
pub data InvalidQuestionScore : Type 0 where
  invalid_question_score : Num → InvalidQuestionScore

unfoldable pub parse_positive_question_score : Num → Result InvalidQuestionScore ℕ
parse_positive_question_score score =
    if not (is_integer score) || below score 1 || above score 100
    then err (invalid_question_score score)
    else ok (value score)

unfoldable pub is_terminal_interview_status : InterviewStatus → Bool
is_terminal_interview_status completed = true
is_terminal_interview_status early_ended = true
is_terminal_interview_status abandoned = true
is_terminal_interview_status deleting = true
is_terminal_interview_status _ = false

unfoldable pub is_supported_question_count : ℕ → Bool
is_supported_question_count n = n == 5 || n == 10 || n == 15
