-- ===== src/Scoring/Accepts.antt =====
-- packages/domain/src/scoring.ts: exactly when `scoreQuestion` returns an evaluation.
use interview_agent.Common.{
  ℕ, ◌+◌, ◌≤◌, ◌≡◌, ◌↔◌, refl, true, false, ◌&&◌, ◌==◌, List, [], ◌∷◌, length, Text, has, Distinct,
  value, above, All, ok, arith, inl, inr, Option-cases, Result-cases,
}
use interview_agent.Interview.{
  RubricItemSnapshot, RubricItemEvaluation, QuestionEvaluation, QuestionEvaluationInput,
}
use interview_agent.Scoring.{
  evidence_loop, check_award, check_awards, award_loop, derive_evaluated_question_outcome,
  score_question, rubric_by_id, validate_rubric,
}
use interview_agent.Scoring.Rubric.{Unseen, Unseen-cons_intro, Unseen-nil, validated}
use interview_agent.Scoring.Awards.{award_ids, points_sum, HasPoints, IsAward}
use interview_agent.Scoring.Score.{IsScored, score_question-IsScored, outcome_of_score_complete}

-- The evidence of an award is answer material of the question, and there is some if it has points.
pub record IsEvidenced (valid : List Text) (award : RubricItemEvaluation) : Type 0 where
  pub some_evidence :
      (above award.awarded_points 0 && length award.evidence_material_ids == 0) ≡ false
  pub known : All (λ id. has valid id ≡ true) award.evidence_material_ids

evidence_loop_sound :
    (valid : List Text) (item : Text) (ids : List Text)
    → evidence_loop valid item ids ≡ ok tt
    → All (λ id. has valid id ≡ true) ids
unfolding evidence_loop
evidence_loop_sound valid item [] h = tt
evidence_loop_sound valid item (id ∷ ids) h =
    (ground arith, evidence_loop_sound valid item ids (ground arith))

evidence_loop_complete :
    (valid : List Text) (item : Text) (ids : List Text)
    → All (λ id. has valid id ≡ true) ids
    → evidence_loop valid item ids ≡ ok tt
unfolding evidence_loop
evidence_loop_complete valid item [] h = refl
evidence_loop_complete valid item (id ∷ ids) h =
    ground (arith, h.0, evidence_loop_complete valid item ids h.1)

check_awards-IsEvidenced :
    (rubric : List RubricItemSnapshot) (valid : List Text) (awards : List RubricItemEvaluation)
    → check_awards rubric valid awards ≡ ok tt
    → All (IsEvidenced valid) awards
unfolding check_awards check_award
check_awards-IsEvidenced rubric valid [] h = tt
check_awards-IsEvidenced rubric valid (award ∷ rest) h =
    elim (Option-cases (rubric_by_id rubric award.rubric_item_id)) [
      | inl e ↦ absurd (ground arith)
      | inr (item, e) ↦ (
        record {
          some_evidence = ground arith;
          known =
              evidence_loop_sound valid award.rubric_item_id award.evidence_material_ids
                (ground arith);
        },
        check_awards-IsEvidenced rubric valid rest (ground arith),
      )
    ]

check_award_complete :
    (rubric : List RubricItemSnapshot) (valid : List Text) (award : RubricItemEvaluation)
    → HasPoints award
    → IsAward rubric award
    → IsEvidenced valid award
    → check_award rubric valid award ≡ ok tt
unfolding check_award
check_award_complete rubric valid award p a e = ground (
  arith,
  a.named,
  a.within,
  e.some_evidence,
  evidence_loop_complete valid award.rubric_item_id award.evidence_material_ids e.known,
)

check_awards_complete :
    (rubric : List RubricItemSnapshot) (valid : List Text) (awards : List RubricItemEvaluation)
    → All HasPoints awards
    → All (IsAward rubric) awards
    → All (IsEvidenced valid) awards
    → check_awards rubric valid awards ≡ ok tt
unfolding check_awards
check_awards_complete rubric valid [] p a e = refl
check_awards_complete rubric valid (award ∷ rest) p a e =
    rw (check_award_complete rubric valid award p.0 a.0 e.0)
      (check_awards_complete rubric valid rest p.1 a.1 e.1)

award_loop_complete :
    (seen : List Text) (score : ℕ) (awards : List RubricItemEvaluation)
    → Unseen seen (award_ids awards)
    → Distinct (award_ids awards)
    → All HasPoints awards
    → points_sum awards ≤ 100
    → award_loop seen score awards ≡ ok (score + points_sum awards)
unfolding award_loop
award_loop_complete seen score [] u d p high = ground arith
award_loop_complete seen score (award ∷ rest) u d p high = ground (
  arith,
  Unseen-cons_intro award.rubric_item_id seen (award_ids rest) d.0 u.1,
  award_loop_complete (award.rubric_item_id ∷ seen) (score + value award.awarded_points) rest,
)

scored_complete :
    (rubric : List RubricItemSnapshot) (input : QuestionEvaluationInput) (valid : List Text)
    {e : QuestionEvaluation}
    → IsScored rubric input e
    → All (IsEvidenced valid) input.rubric_items
    → score_question rubric input valid ≡ ok e
unfolding score_question derive_evaluated_question_outcome
scored_complete rubric input valid s v =
    rw
      (
        s.result,
        validated rubric s.is_rubric,
        check_awards_complete rubric valid input.rubric_items s.whole_points s.awards v,
        award_loop_complete [] 0 input.rubric_items (Unseen-nil (award_ids input.rubric_items))
            s.distinct s.whole_points s.at_most_100,
      )
      (ground (
        arith,
        s.as_many,
        outcome_of_score_complete input.classification (points_sum input.rubric_items) s.at_most_100
            s.irrelevant_points,
      ))

scored_evidence :
    (rubric : List RubricItemSnapshot) (input : QuestionEvaluationInput) (valid : List Text)
    {e : QuestionEvaluation}
    → score_question rubric input valid ≡ ok e
    → All (IsEvidenced valid) input.rubric_items
unfolding score_question
scored_evidence rubric input valid h =
    elim (Result-cases (check_awards rubric valid input.rubric_items)) [
      | inl (u, k) ↦ check_awards-IsEvidenced rubric valid input.rubric_items k
      | inr (x, bad) ↦ elim (Result-cases (validate_rubric rubric)) [
        | inl (n, v) ↦ absurd (ground arith)
        | inr (y, worse) ↦ absurd (ground arith)
      ]
    ]

-- `scoreQuestion` returns an evaluation exactly when the rubric is valid; there are as many awards as
-- rubric items, for distinct items of the rubric, each of whole points within the item's weight; the
-- evidence of every award is valid answer material, and there is some for positive points; an
-- irrelevant answer has no points; and the evaluation is the input with the outcome of the points.
pub score_question_iff :
    (rubric : List RubricItemSnapshot) (input : QuestionEvaluationInput) (valid : List Text)
    (e : QuestionEvaluation)
    → (score_question rubric input valid ≡ ok e)
      ↔ (IsScored rubric input e × All (IsEvidenced valid) input.rubric_items)
score_question_iff rubric input valid e = (
  λ h. (score_question-IsScored rubric input valid h, scored_evidence rubric input valid h),
  λ s. scored_complete rubric input valid s.0 s.1,
)
