-- ===== src/Scoring.antt =====
-- packages/domain/src/scoring.ts: rubric validation, the score of an evaluated question, and the
-- aggregation of scores. A thrown error is the error's code with the identifiers that it names.
pub mod Rubric
pub mod Average
pub mod Awards
pub mod Score
pub mod Totals
pub mod Accepts
pub mod Domains
pub mod Tests
use interview_agent.Common.{
  ℕ, ◌+◌, ◌*◌, ◌/◌, not, ◌&&◌, ◌||◌, ltb, ◌==◌, if◌then◌else◌, Option, none, some, List, [], ◌∷◌,
  map, length, Text, text_eq, has, whole, is_integer, below, above, value, Result, ok, err, ◌>>=◌,
  ◌>>◌, throw_if, rethrow,
}
use interview_agent.Interview.{
  RubricItemSnapshot, RubricItemEvaluation, QuestionEvaluationInput, QuestionEvaluation,
  QuestionOutcome, scored, zero_score, outcome_score, ZeroScoreReason, irrelevant, incorrect,
  ResponseClassification, is_irrelevant, KnowledgeDomain, knowledge_domains, domain_eq,
  InvalidQuestionScore, parse_positive_question_score,
}

pub data RubricError : Type 0 where
  rubric_empty : RubricError
  duplicate_rubric_item : Text → RubricError
  invalid_rubric_weight : Text → RubricError
  invalid_rubric_total : ℕ → RubricError

pub data AwardError : Type 0 where
  award_count_mismatch : AwardError
  invalid_rubric_item : Text → AwardError
  duplicate_rubric_award : Text → AwardError
  invalid_awarded_points : Text → AwardError
  invalid_total_points : AwardError
  missing_evidence : Text → AwardError
  invalid_evidence_reference : Text → Text → AwardError
  irrelevant_awarded_points : AwardError

pub data ScoringError : Type 0 where
  invalid_rubric : RubricError → ScoringError
  invalid_award : AwardError → ScoringError
  invalid_score : InvalidQuestionScore → ScoringError

-- The loop of `validateRubric`: the identifiers seen, the weight so far, the items left.
unfoldable pub rubric_loop : List Text → ℕ → List RubricItemSnapshot → Result RubricError ℕ
rubric_loop seen total [] = ok total
rubric_loop seen total (item ∷ rest) = do
  throw_if (has seen item.id) (duplicate_rubric_item item.id)
  throw_if (not (is_integer item.weight) || below item.weight 1 || above item.weight 100)
      (invalid_rubric_weight item.id)
  rubric_loop (item.id ∷ seen) (total + value item.weight) rest

-- The result is the item count; the total weight is 100.
unfoldable pub validate_rubric : List RubricItemSnapshot → Result RubricError ℕ
validate_rubric rubric = do
  throw_if (length rubric == 0) rubric_empty
  total ← rubric_loop [] 0 rubric
  throw_if (not (total == 100)) (invalid_rubric_total total)
  ok (length rubric)

unfoldable pub create_zero_question_outcome : ZeroScoreReason → QuestionOutcome
create_zero_question_outcome reason = zero_score reason

-- The loop of `deriveEvaluatedQuestionOutcome`.
unfoldable pub award_loop : List Text → ℕ → List RubricItemEvaluation → Result AwardError ℕ
award_loop seen score [] = ok score
award_loop seen score (award ∷ rest) = do
  throw_if (has seen award.rubric_item_id) (duplicate_rubric_award award.rubric_item_id)
  throw_if
      (not (is_integer award.awarded_points)
        || below award.awarded_points 0
        || above award.awarded_points 100)
      (invalid_awarded_points award.rubric_item_id)
  award_loop (award.rubric_item_id ∷ seen) (score + value award.awarded_points) rest

-- What follows the loop.
unfoldable pub outcome_of_score : ResponseClassification → ℕ → Result ScoringError QuestionOutcome
unfolding create_zero_question_outcome
outcome_of_score classification score =
    if is_irrelevant classification
    then (do
      throw_if (not (score == 0)) (invalid_award irrelevant_awarded_points)
      ok (create_zero_question_outcome irrelevant))
    else if score == 0
    then ok (create_zero_question_outcome incorrect)
    else (do
      throw_if (ltb 100 score) (invalid_award invalid_total_points)
      points ← rethrow invalid_score (parse_positive_question_score (whole score))
      ok (scored points))

unfoldable pub derive_evaluated_question_outcome :
    ResponseClassification → List RubricItemEvaluation → Result ScoringError QuestionOutcome
unfolding outcome_of_score
derive_evaluated_question_outcome classification rubric_items = do
  score ← rethrow invalid_award (award_loop [] 0 rubric_items)
  outcome_of_score classification score

-- `new Map(rubric.map((item) => [item.id, item])).get(id)`: a later entry replaces an earlier one.
unfoldable pub rubric_by_id : List RubricItemSnapshot → Text → Option RubricItemSnapshot
rubric_by_id [] id = none
rubric_by_id (item ∷ rest) id = elim (rubric_by_id rest id) [
  | some later ↦ some later
  | none ↦ if text_eq item.id id then some item else none
]

-- The inner loop of `scoreQuestion`, over the evidence of one award.
unfoldable pub evidence_loop : List Text → Text → List Text → Result AwardError (Unit {0})
evidence_loop valid item_id [] = ok tt
evidence_loop valid item_id (evidence ∷ rest) = do
  throw_if (not (has valid evidence)) (invalid_evidence_reference item_id evidence)
  evidence_loop valid item_id rest

-- One round of the loop of `scoreQuestion`.
unfoldable pub check_award :
    List RubricItemSnapshot → List Text → RubricItemEvaluation → Result AwardError (Unit {0})
unfolding evidence_loop
check_award rubric valid award = elim (rubric_by_id rubric award.rubric_item_id) [
  | none ↦ err (invalid_rubric_item award.rubric_item_id)
  | some item ↦ do
    throw_if
        (not (is_integer award.awarded_points)
          || below award.awarded_points 0
          || above award.awarded_points (value item.weight))
        (invalid_awarded_points award.rubric_item_id)
    throw_if (above award.awarded_points 0 && length award.evidence_material_ids == 0)
        (missing_evidence award.rubric_item_id)
    evidence_loop valid award.rubric_item_id award.evidence_material_ids
]

unfoldable pub check_awards :
    List RubricItemSnapshot → List Text → List RubricItemEvaluation → Result AwardError (Unit {0})
check_awards rubric valid [] = ok tt
check_awards rubric valid (award ∷ rest) = do
  check_award rubric valid award
  check_awards rubric valid rest

unfoldable pub score_question :
    List RubricItemSnapshot
    → QuestionEvaluationInput
    → List Text
    → Result ScoringError QuestionEvaluation
score_question rubric evaluation valid = do
  _ ← rethrow invalid_rubric (validate_rubric rubric)
  throw_if (not (length evaluation.rubric_items == length rubric))
      (invalid_award award_count_mismatch)
  rethrow invalid_award (check_awards rubric valid evaluation.rubric_items)
  outcome ← derive_evaluated_question_outcome evaluation.classification evaluation.rubric_items
  ok (record {
    id = evaluation.id;
    classification = evaluation.classification;
    rubric_items = evaluation.rubric_items;
    outcome = outcome;
  })

pub record SelectedQuestionScore : Type 0 where
  pub domain : KnowledgeDomain
  pub outcome : QuestionOutcome

pub data DomainScoreResult : Type 0 where
  assessed : KnowledgeDomain → ℕ → ℕ → DomainScoreResult
  unassessed : KnowledgeDomain → DomainScoreResult

unfoldable pub sum : List ℕ → ℕ
sum [] = 0
sum (x ∷ xs) = x + sum xs

-- `Math.round(sum / length)`: the exact floor of sum / length + 1/2. For at most 15 scores from 0 through
-- 100, as the callers give, the floating-point quotient is exact or lies far from a half, so that both
-- agree. The callers give at least one score.
unfoldable pub rounded_average : List ℕ → ℕ
rounded_average scores = (2 * sum scores + length scores) / (2 * length scores)

-- The scores of one domain: the `filter` and `map` of `aggregateDomainScores`.
unfoldable pub scores_in : KnowledgeDomain → List SelectedQuestionScore → List ℕ
scores_in domain [] = []
scores_in domain (q ∷ qs) =
    let rest = scores_in domain qs in
    if domain_eq q.domain domain then outcome_score q.outcome ∷ rest else rest

unfoldable pub domain_score : List SelectedQuestionScore → KnowledgeDomain → DomainScoreResult
domain_score questions domain =
    let scores = scores_in domain questions in
    if length scores == 0
    then unassessed domain
    else assessed domain (rounded_average scores) (length scores)

unfoldable pub aggregate_domain_scores : List SelectedQuestionScore → List DomainScoreResult
unfolding domain_score
aggregate_domain_scores questions = map (domain_score questions) knowledge_domains

-- `InvalidScoreAggregationError`
pub data AggregationError : Type 0 where
  question_count_mismatch : ℕ → ℕ → AggregationError

pub record CompleteInterviewScore : Type 0 where
  pub overall_score : ℕ
  pub domains : List DomainScoreResult

unfoldable pub aggregate_complete_interview_score :
    List SelectedQuestionScore → ℕ → Result AggregationError CompleteInterviewScore
aggregate_complete_interview_score questions expected = do
  throw_if (not (length questions == expected))
      (question_count_mismatch expected (length questions))
  ok (record {
    overall_score = rounded_average (map (λ q. outcome_score q.outcome) questions);
    domains = aggregate_domain_scores questions;
  })
