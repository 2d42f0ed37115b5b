-- ===== src/Scoring/Score.antt =====
-- packages/domain/src/scoring.ts: the outcome that `scoreQuestion` gives.
use interview_agent.Common.{
  ℕ, ◌≤◌, ◌≡◌, true, List, [], length, Text, Distinct, All, ok, Result-cases, arith, inl, inr, ◌==◌,
  if◌then◌else◌,
}
use interview_agent.Interview.{
  RubricItemSnapshot, QuestionEvaluation, QuestionEvaluationInput, QuestionOutcome, scored,
  zero_score, irrelevant, incorrect, is_irrelevant, ResponseClassification,
  parse_positive_question_score,
}
use interview_agent.Scoring.{
  award_loop, outcome_of_score, derive_evaluated_question_outcome, check_awards, score_question,
  validate_rubric,
}
use interview_agent.Scoring.Rubric.{IsRubric, validate_rubric-IsRubric}
use interview_agent.Scoring.Awards.{
  award_ids, points_sum, HasPoints, IsAward, award_loop_sound, check_awards_sound,
}

-- The outcome of a number of points, as the glossary of outcomes has it.
abbrev pub outcome_for : ResponseClassification → ℕ → QuestionOutcome
outcome_for classification points =
    if is_irrelevant classification
    then zero_score irrelevant
    else if points == 0
    then zero_score incorrect
    else scored points

outcome_of_score_sound :
    (c : ResponseClassification) (n : ℕ) {o : QuestionOutcome}
    → outcome_of_score c n ≡ ok o
    → (o ≡ outcome_for c n) × (n ≤ 100) × (is_irrelevant c ≡ true → n ≡ 0)
unfolding outcome_of_score parse_positive_question_score
outcome_of_score_sound c n h = (ground arith, ground arith, λ e. ground arith)

pub outcome_of_score_complete :
    (c : ResponseClassification) (n : ℕ)
    → n ≤ 100
    → (is_irrelevant c ≡ true → n ≡ 0)
    → outcome_of_score c n ≡ ok (outcome_for c n)
unfolding outcome_of_score parse_positive_question_score
outcome_of_score_complete c n high none_awarded = ground arith

-- What `scoreQuestion` has checked, and what it returns.
pub record IsScored (rubric : List RubricItemSnapshot) (input : QuestionEvaluationInput)
    (e : QuestionEvaluation) : Type 0 where
  pub is_rubric : IsRubric rubric
  pub as_many : length input.rubric_items ≡ length rubric
  pub distinct : Distinct (award_ids input.rubric_items)
  pub whole_points : All HasPoints input.rubric_items
  pub awards : All (IsAward rubric) input.rubric_items
  pub irrelevant_points :
      is_irrelevant input.classification ≡ true → points_sum input.rubric_items ≡ 0
  pub at_most_100 : points_sum input.rubric_items ≤ 100
  pub result : e ≡ record {
    id = input.id;
    classification = input.classification;
    rubric_items = input.rubric_items;
    outcome = outcome_for input.classification (points_sum input.rubric_items);
  }

-- The stages of a run that returns.
score_stages :
    (rubric : List RubricItemSnapshot) (input : QuestionEvaluationInput) (valid : List Text) (s : ℕ)
    {e : QuestionEvaluation} {o : QuestionOutcome}
    → score_question rubric input valid ≡ ok e
    → award_loop [] 0 input.rubric_items ≡ ok s
    → outcome_of_score input.classification s ≡ ok o
    → (n : ℕ) × (validate_rubric rubric ≡ ok n)
      × (length input.rubric_items ≡ length rubric)
      × (check_awards rubric valid input.rubric_items ≡ ok tt)
      × (e ≡ record {
        id = input.id;
        classification = input.classification;
        rubric_items = input.rubric_items;
        outcome = o;
      })
unfolding score_question derive_evaluated_question_outcome
score_stages rubric input valid s h a o = elim (Result-cases (validate_rubric rubric)) [
  | inl (n, v) ↦ (n, v, ground arith, ground arith, ground arith)
  | inr (x, bad) ↦ absurd (ground arith)
]

assembled :
    (rubric : List RubricItemSnapshot) (input : QuestionEvaluationInput) (valid : List Text) (s : ℕ)
    (o : QuestionOutcome) {e : QuestionEvaluation}
    → score_question rubric input valid ≡ ok e
    → award_loop [] 0 input.rubric_items ≡ ok s
    → outcome_of_score input.classification s ≡ ok o
    → IsScored rubric input e
assembled rubric input valid s o h a oc =
    let (n, v, len, checked, e) = score_stages rubric input valid s h a oc in
    let (u, d, w, total) = award_loop_sound [] 0 input.rubric_items a in
    let (is, high, irr) = outcome_of_score_sound input.classification s oc in
    record {
      is_rubric = validate_rubric-IsRubric rubric v;
      as_many = len;
      distinct = d;
      whole_points = w;
      awards = check_awards_sound rubric valid input.rubric_items checked;
      irrelevant_points = λ i. omega (arith, irr i, total);
      at_most_100 = omega arith;
      result = ground (arith, e, is, total);
    }

-- Whenever `scoreQuestion` returns, the rubric is valid; there are as many awards as rubric items,
-- for distinct items of the rubric, each of whole points within the item's weight; an irrelevant
-- answer has no points; and the outcome is zero for the reason "irrelevant" or "incorrect", or the sum
-- of the points, which is at most 100.
pub score_question-IsScored :
    (rubric : List RubricItemSnapshot) (input : QuestionEvaluationInput) (valid : List Text)
    {e : QuestionEvaluation}
    → score_question rubric input valid ≡ ok e
    → IsScored rubric input e
unfolding score_question derive_evaluated_question_outcome
score_question-IsScored rubric input valid h =
    elim (Result-cases (award_loop [] 0 input.rubric_items)) [
      | inl (s, a) ↦ elim (Result-cases (outcome_of_score input.classification s)) [
        | inl (o, oc) ↦ assembled rubric input valid s o h a oc
        | inr (x, bad) ↦ absurd (ground arith)
      ]
      | inr (x, bad) ↦ absurd (ground arith)
    ]
