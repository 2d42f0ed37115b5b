-- ===== src/Scoring/Totals.antt =====
-- packages/domain/src/scoring.ts: which errors `scoreQuestion` cannot throw, and when it throws none.
use interview_agent.Common.{
  ℕ, ◌+◌, ◌≤◌, ◌≡◌, Bool, true, false, List, [], ◌∷◌, Text, value, ok, err, Result-cases, arith,
  inl, inr,
}
use interview_agent.Interview.{
  RubricItemSnapshot, RubricItemEvaluation, QuestionEvaluationInput, ResponseClassification,
  parse_positive_question_score,
}
use interview_agent.Scoring.{
  award_loop, outcome_of_score, derive_evaluated_question_outcome, check_award, check_awards,
  evidence_loop, score_question, validate_rubric, ScoringError, AwardError, invalid_award,
  invalid_total_points, invalid_score,
}
use interview_agent.Scoring.Rubric.{validate_rubric-IsRubric}
use interview_agent.Scoring.Awards.{award_loop_sound, check_awards_sound, points_sum-le}

-- The error for a total above 100, and that of `parsePositiveQuestionScore`.
abbrev pub is_total_error : ScoringError → Bool
is_total_error (invalid_award invalid_total_points) = true
is_total_error (invalid_score x) = true
is_total_error _ = false

evidence_loop-error :
    (valid : List Text) (id : Text) (evidence : List Text) {x : AwardError}
    → evidence_loop valid id evidence ≡ err x
    → is_total_error (invalid_award x) ≡ false
unfolding evidence_loop
evidence_loop-error valid id [] h = cc
evidence_loop-error valid id (e ∷ rest) {x} h =
    ground (arith, evidence_loop-error valid id rest {x = x})

check_awards-error :
    (rubric : List RubricItemSnapshot) (valid : List Text) (awards : List RubricItemEvaluation)
    {x : AwardError}
    → check_awards rubric valid awards ≡ err x
    → is_total_error (invalid_award x) ≡ false
unfolding check_awards check_award
check_awards-error rubric valid [] h = cc
check_awards-error rubric valid (award ∷ rest) {x} h = ground (
  arith,
  check_awards-error rubric valid rest {x = x},
  evidence_loop-error valid award.rubric_item_id award.evidence_material_ids {x = x},
)

award_loop-error :
    (seen : List Text) (score : ℕ) (awards : List RubricItemEvaluation) {x : AwardError}
    → award_loop seen score awards ≡ err x
    → is_total_error (invalid_award x) ≡ false
unfolding award_loop
award_loop-error seen score [] h = cc
award_loop-error seen score (award ∷ rest) {x} h = ground (
  arith,
  award_loop-error (award.rubric_item_id ∷ seen) (score + value award.awarded_points) rest {x = x},
)

outcome_of_score-error :
    (c : ResponseClassification) (n : ℕ) {x : ScoringError}
    → n ≤ 100
    → outcome_of_score c n ≡ err x
    → is_total_error x ≡ false
unfolding outcome_of_score parse_positive_question_score
outcome_of_score-error c n h e = ground arith

-- Awards that pass the checks against a valid rubric sum to at most 100.
checked_total :
    (rubric : List RubricItemSnapshot) (valid : List Text) (awards : List RubricItemEvaluation)
    {n s : ℕ}
    → validate_rubric rubric ≡ ok n
    → check_awards rubric valid awards ≡ ok tt
    → award_loop [] 0 awards ≡ ok s
    → s ≤ 100
checked_total rubric valid awards v k a =
    let (u, d, w, total) = award_loop_sound [] 0 awards a in
    let r = validate_rubric-IsRubric rubric v in
    omega (
      arith,
      points_sum-le rubric awards d (check_awards_sound rubric valid awards k),
      total,
      r.total,
    )

-- The checks of `scoreQuestion` keep the total within 100: whatever it throws, it is neither the error
-- for a total above 100 nor `InvalidQuestionScoreError`.
pub score_question-error :
    (rubric : List RubricItemSnapshot) (input : QuestionEvaluationInput) (valid : List Text)
    {x : ScoringError}
    → score_question rubric input valid ≡ err x
    → is_total_error x ≡ false
unfolding score_question derive_evaluated_question_outcome
score_question-error rubric input valid {x} h = elim (Result-cases (validate_rubric rubric)) [
  | inr (y, bad) ↦ ground arith
  | inl (n, v) ↦ elim (Result-cases (check_awards rubric valid input.rubric_items)) [
    | inr (y, bad) ↦ ground (arith, check_awards-error rubric valid input.rubric_items {x = y} bad)
    | inl (u, k) ↦ elim (Result-cases (award_loop [] 0 input.rubric_items)) [
      | inr (y, bad) ↦ ground (arith, award_loop-error [] 0 input.rubric_items {x = y} bad)
      | inl (s, a) ↦ ground (
        arith,
        outcome_of_score-error input.classification s {x = x}
            (checked_total rubric valid input.rubric_items v k a),
      )
    ]
  ]
]
