-- ===== src/Selection.antt =====
-- packages/domain/src/blueprint-selection.ts: the choice of an interview's questions.
pub mod Ranks
pub mod Choice
pub mod Interleave
pub mod Select
pub mod Eligible
pub mod Rounds
pub mod Covers
pub mod Tests
use interview_agent.Common.{ℕ, List, Text}
use interview_agent.Interview.{KnowledgeDomain, QuestionSnapshot}
use interview_agent.Coverage.{CoverageError}

-- The identifiers of the recent questions are the members of a `Set`.
pub record BlueprintSelectionInput : Type 0 where
  pub question_count : ℕ
  pub selection_seed : Text
  pub eligible_questions : List QuestionSnapshot
  pub recent_question_ids : List Text

pub record BlueprintDomainShortage : Type 0 where
  pub domain : KnowledgeDomain
  pub required : ℕ
  pub available : ℕ

-- The reasons of an `InvalidBlueprintSelectionInputError`. `queues_not_emptied` is of the model: the loop of
-- `interleaveSelectedQuestions` ran out of fuel.
pub data SelectionReason : Type 0 where
  unsupported_question_count blank_selection_seed empty_catalog empty_queues queues_not_emptied :
      SelectionReason
  duplicate_candidate : Text → SelectionReason
  missing_queue empty_queue : KnowledgeDomain → SelectionReason

-- What `select` throws.
pub data SelectionError : Type 0 where
  invalid_selection_input : SelectionReason → SelectionError
  selection_shortage : List BlueprintDomainShortage → ℕ → ℕ → SelectionError
  invalid_coverage : CoverageError → SelectionError
