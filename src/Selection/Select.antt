-- ===== src/Selection/Select.antt =====
-- packages/domain/src/blueprint-selection.ts: `DeterministicBlueprintSelector.select`.
use interview_agent.Common.{
  ℕ, ◌+◌, ◌-◌, not, ◌||◌, ◌==◌, ltb, List, [], ◌∷◌, ◌++◌, map, length, has, Text, Result, ok, ◌>>=◌,
  ◌>>◌, throw_if, rethrow,
}
use interview_agent.Interview.{
  KnowledgeDomain, knowledge_domains, QuestionSnapshot, InterviewBlueprint, InterviewBlueprintItem,
}
use interview_agent.Coverage.{derive_unassessed_domain, validate_interview_blueprint_coverage}
use interview_agent.Selection.{
  BlueprintSelectionInput, SelectionError, selection_shortage, invalid_coverage,
}
use interview_agent.Selection.Ranks.{flexible_purpose}
use interview_agent.Selection.Choice.{
  Groups, group_candidates, blueprint_domain_minimums, domain_shortages, selection_loop, filter,
  pick, push,
}
use interview_agent.Selection.Interleave.{interleave_selected_questions, total}

-- `selectedQuestionIds`
unfoldable pub selected_ids : Groups → List Text
selected_ids [] = []
selected_ids ((domain, questions) ∷ rest) =
    map (λ question. question.question_id) questions ++ selected_ids rest

-- The loop that adds the flexible questions to their domains.
unfoldable pub push_all : Groups → List QuestionSnapshot → Groups
unfolding push
push_all groups [] = groups
push_all groups (question ∷ rest) = push_all (push groups question) rest

-- The questions with their positions.
unfoldable pub blueprint_items : ℕ → List QuestionSnapshot → List InterviewBlueprintItem
blueprint_items position [] = []
blueprint_items position (question ∷ rest) =
    record { position = position; question = question } ∷ blueprint_items (position + 1) rest

-- The candidates that are left for the flexible slots. There is a slot for every question that the minimums
-- leave out, and the minimums sum to no more than the question count.
unfoldable pub flexible_questions : BlueprintSelectionInput → Groups → List QuestionSnapshot
unfolding pick filter selected_ids total
flexible_questions input selected =
    pick input.selection_seed flexible_purpose input.recent_question_ids
      (input.question_count - total selected)
      (filter (λ candidate. not (has (selected_ids selected) candidate.question_id))
        input.eligible_questions)

-- From the shortages to the order of the questions.
unfoldable pub arranged_questions :
    BlueprintSelectionInput
    → Groups
    → (KnowledgeDomain → ℕ)
    → Result SelectionError (List QuestionSnapshot)
unfolding selection_loop flexible_questions push_all domain_shortages interleave_selected_questions
arranged_questions input groups minimums = do
  let shortages = domain_shortages minimums groups knowledge_domains
  throw_if (ltb 0 (length shortages) || ltb (length input.eligible_questions) input.question_count)
      (selection_shortage shortages input.question_count (length input.eligible_questions))
  let selected =
      selection_loop input.selection_seed input.recent_question_ids minimums groups []
        knowledge_domains
  let flexible = flexible_questions input selected
  throw_if (not (length flexible == input.question_count - total selected))
      (selection_shortage [] input.question_count (length input.eligible_questions))
  interleave_selected_questions input.selection_seed (push_all selected flexible)

-- The blueprint of the ordered questions.
unfoldable pub finished_blueprint :
    BlueprintSelectionInput → List QuestionSnapshot → Result SelectionError InterviewBlueprint
unfolding blueprint_items
finished_blueprint input ordered = do
  let questions = blueprint_items 1 ordered
  unassessed ← rethrow invalid_coverage (derive_unassessed_domain questions input.question_count)
  rethrow invalid_coverage
      (validate_interview_blueprint_coverage input.question_count questions unassessed)
  ok (record {
    selection_seed = input.selection_seed;
    unassessed_domain = unassessed;
    questions = questions;
  })

unfoldable pub select : BlueprintSelectionInput → Result SelectionError InterviewBlueprint
unfolding arranged_questions finished_blueprint blueprint_domain_minimums
select input = do
  groups ← group_candidates input.eligible_questions
  minimums ←
      blueprint_domain_minimums input.question_count input.selection_seed groups
        input.recent_question_ids
  ordered ← arranged_questions input groups minimums
  finished_blueprint input ordered
