-- ===== src/Scoring/Awards.antt =====
-- packages/domain/src/scoring.ts: what `scoreQuestion` accepts, and the score it gives.
use interview_agent.Common.{
  ℕ, ◌+◌, ◌≤◌, ◌≡◌, refl, true, false, some, List, [], ◌∷◌, map, Text, text_eq, text_eq_sound,
  text_eq_complete, has, Distinct, whole, value, All, ok, arith, inl, inr, Option-cases, ◌∙◌,
}
use interview_agent.Interview.{RubricItemSnapshot, RubricItemEvaluation}
use interview_agent.Scoring.{award_loop, rubric_by_id, check_award, check_awards}
use interview_agent.Scoring.Rubric.{weight_sum, Unseen, Unseen-cons, text_eq_symm}

abbrev pub award_ids : List RubricItemEvaluation → List Text
award_ids = map (λ award. award.rubric_item_id)

abbrev pub points_sum : List RubricItemEvaluation → ℕ
points_sum [] = 0
points_sum (award ∷ rest) = value award.awarded_points + points_sum rest

-- Whole points.
abbrev pub HasPoints : RubricItemEvaluation → Type 0
HasPoints award = award.awarded_points ≡ whole (value award.awarded_points)

pub award_loop_sound :
    (seen : List Text) (score : ℕ) (awards : List RubricItemEvaluation) {s : ℕ}
    → award_loop seen score awards ≡ ok s
    → Unseen seen (award_ids awards)
      × Distinct (award_ids awards)
      × All HasPoints awards
      × (s ≡ score + points_sum awards)
unfolding award_loop
award_loop_sound seen score [] h = (tt, tt, tt, ground arith)
award_loop_sound seen score (award ∷ rest) {s} h =
    let ih =
      award_loop_sound (award.rubric_item_id ∷ seen) (score + value award.awarded_points) rest
        {s = s} (ground arith) in
    let u = Unseen-cons award.rubric_item_id seen (award_ids rest) ih.0 in ground (arith, ih, u)

-- The rubric without the items of an identifier.
without : Text → List RubricItemSnapshot → List RubricItemSnapshot
without id [] = []
without id (item ∷ rest) =
    let kept = without id rest in elim (text_eq item.id id) [ true ↦ kept | false ↦ item ∷ kept ]

weight_sum-without-le :
    (id : Text) (rubric : List RubricItemSnapshot)
    → weight_sum (without id rubric) ≤ weight_sum rubric
unfolding without
weight_sum-without-le id [] = omega arith
weight_sum-without-le id (item ∷ rest) = ground (arith, weight_sum-without-le id rest)

-- Taking an item out takes at least its weight out.
weight_sum-without :
    (id : Text) (rubric : List RubricItemSnapshot) (item : RubricItemSnapshot)
    → rubric_by_id rubric id ≡ some item
    → weight_sum (without id rubric) + value item.weight ≤ weight_sum rubric
unfolding without rubric_by_id
weight_sum-without id [] item h = cc
weight_sum-without id (x ∷ rest) item h =
    ground (arith, weight_sum-without id rest item, weight_sum-without-le id rest)

rubric_by_id-without :
    (id other : Text) (rubric : List RubricItemSnapshot)
    → text_eq id other ≡ false
    → rubric_by_id (without id rubric) other ≡ rubric_by_id rubric other
unfolding without rubric_by_id
rubric_by_id-without id other [] h = refl
rubric_by_id-without id other (x ∷ rest) h = ground (
  arith,
  rubric_by_id-without id other rest h,
  text_eq_sound x.id id,
  text_eq_sound x.id other,
  text_eq_complete id other,
)

-- An award is within the weight of the item that it names.
pub record IsAward (rubric : List RubricItemSnapshot) (award : RubricItemEvaluation) : Type 0 where
  pub item : RubricItemSnapshot
  pub named : rubric_by_id rubric award.rubric_item_id ≡ some item
  pub within : value award.awarded_points ≤ value item.weight

IsAwards-without :
    (id : Text) (rubric : List RubricItemSnapshot) (awards : List RubricItemEvaluation)
    → has (award_ids awards) id ≡ false
    → All (IsAward rubric) awards
    → All (IsAward (without id rubric)) awards
unfolding has
IsAwards-without id rubric [] h a = tt
IsAwards-without id rubric (award ∷ rest) h a = (
  record {
    item = a.0.item;
    named =
        rubric_by_id-without id award.rubric_item_id rubric
          (text_eq_symm award.rubric_item_id id (ground arith))
        ∙ a.0.named;
    within = a.0.within;
  },
  IsAwards-without id rubric rest (ground arith) a.1,
)

-- Distinct awards within the weights of their items sum to no more than the rubric.
pub points_sum-le :
    (rubric : List RubricItemSnapshot) (awards : List RubricItemEvaluation)
    → Distinct (award_ids awards)
    → All (IsAward rubric) awards
    → points_sum awards ≤ weight_sum rubric
points_sum-le rubric [] d a = omega arith
points_sum-le rubric (award ∷ rest) d a = omega (
  arith,
  points_sum-le (without award.rubric_item_id rubric) rest d.1
      (IsAwards-without award.rubric_item_id rubric rest d.0 a.1),
  weight_sum-without award.rubric_item_id rubric a.0.item a.0.named,
  a.0.within,
)

pub check_awards_sound :
    (rubric : List RubricItemSnapshot) (valid : List Text) (awards : List RubricItemEvaluation)
    {u : Unit {0}}
    → check_awards rubric valid awards ≡ ok u
    → All (IsAward rubric) awards
unfolding check_awards check_award
check_awards_sound rubric valid [] h = tt
check_awards_sound rubric valid (award ∷ rest) h =
    elim (Option-cases (rubric_by_id rubric award.rubric_item_id)) [
      | inl e ↦ absurd (ground arith)
      | inr (item, e) ↦ (
        record { item = item; named = e; within = ground arith },
        check_awards_sound rubric valid rest (ground arith),
      )
    ]
