-- ===== src/Scoring/Rubric.antt =====
-- packages/domain/src/scoring.ts: what `validateRubric` accepts.
use interview_agent.Common.{
  ℕ, ◌+◌, ◌≤◌, ◌≡◌, ◌↔◌, refl, false, List, [], ◌∷◌, map, length, Text, text_eq, text_eq_sound,
  text_eq_complete, has, Distinct, whole, value, All, ok, arith, inl, inr, Bool-cases, sym, ap,
  Result-cases,
}
use interview_agent.Interview.{RubricItemSnapshot}
use interview_agent.Scoring.{rubric_loop, validate_rubric}

abbrev pub rubric_ids : List RubricItemSnapshot → List Text
rubric_ids = map (λ item. item.id)

-- A whole weight from 1 through 100.
abbrev pub HasWeight : RubricItemSnapshot → Type 0
HasWeight item =
    (item.weight ≡ whole (value item.weight)) × (1 ≤ value item.weight) × (value item.weight ≤ 100)

abbrev pub weight_sum : List RubricItemSnapshot → ℕ
weight_sum [] = 0
weight_sum (item ∷ rest) = value item.weight + weight_sum rest

pub record IsRubric (rubric : List RubricItemSnapshot) : Type 0 where
  pub distinct : Distinct (rubric_ids rubric)
  pub weights : All HasWeight rubric
  pub total : weight_sum rubric ≡ 100

-- No text of a list is among those seen.
abbrev pub Unseen : List Text → List Text → Type 0
Unseen seen [] = Unit {0}
Unseen seen (x ∷ xs) = (has seen x ≡ false) × Unseen seen xs

pub text_eq_symm : (a b : Text) → text_eq a b ≡ false → text_eq b a ≡ false
text_eq_symm a b h = elim (Bool-cases (text_eq b a)) [
  | inl e ↦ absurd (ground (arith, text_eq_complete a b (sym (text_eq_sound b a e))))
  | inr e ↦ e
]

pub Unseen-cons :
    (x : Text) (seen xs : List Text) → Unseen (x ∷ seen) xs → (has xs x ≡ false) × Unseen seen xs
unfolding has
Unseen-cons x seen [] h = (refl, tt)
Unseen-cons x seen (y ∷ ys) h = ground (arith, Unseen-cons x seen ys h.1, text_eq_symm x y)

pub Unseen-cons_intro :
    (x : Text) (seen xs : List Text) → has xs x ≡ false → Unseen seen xs → Unseen (x ∷ seen) xs
unfolding has
Unseen-cons_intro x seen [] h u = tt
Unseen-cons_intro x seen (y ∷ ys) h u =
    ground (arith, Unseen-cons_intro x seen ys, text_eq_symm y x)

rubric_loop_sound :
    (seen : List Text) (total : ℕ) (items : List RubricItemSnapshot) {t : ℕ}
    → rubric_loop seen total items ≡ ok t
    → Unseen seen (rubric_ids items)
      × Distinct (rubric_ids items)
      × All HasWeight items
      × (t ≡ total + weight_sum items)
unfolding rubric_loop
rubric_loop_sound seen total [] h = (tt, tt, tt, ground arith)
rubric_loop_sound seen total (item ∷ rest) {t} h =
    let ih =
      rubric_loop_sound (item.id ∷ seen) (total + value item.weight) rest {t = t} (ground arith) in
    let u = Unseen-cons item.id seen (rubric_ids rest) ih.0 in ground (arith, ih, u)

rubric_loop_complete :
    (seen : List Text) (total : ℕ) (items : List RubricItemSnapshot)
    → Unseen seen (rubric_ids items)
    → Distinct (rubric_ids items)
    → All HasWeight items
    → rubric_loop seen total items ≡ ok (total + weight_sum items)
unfolding rubric_loop
rubric_loop_complete seen total [] u d w = ap ok (omega arith)
rubric_loop_complete seen total (item ∷ rest) u d w = ground (
  arith,
  rubric_loop_complete (item.id ∷ seen) (total + value item.weight) rest
      (Unseen-cons_intro item.id seen (rubric_ids rest) d.0 u.1) d.1 w.1,
)

pub Unseen-nil : (xs : List Text) → Unseen [] xs
unfolding has
Unseen-nil [] = tt
Unseen-nil (x ∷ xs) = (refl, Unseen-nil xs)

-- An accepted rubric has the properties, whatever is returned.
pub validate_rubric-IsRubric :
    (rubric : List RubricItemSnapshot) {n : ℕ} → validate_rubric rubric ≡ ok n → IsRubric rubric
unfolding validate_rubric
validate_rubric-IsRubric rubric h = elim (Result-cases (rubric_loop [] 0 rubric)) [
  | inl (t, e) ↦
      let (u, d, w, total) = rubric_loop_sound [] 0 rubric e in
      record { distinct = d; weights = w; total = ground arith }
  | inr (x, e) ↦ absurd (ground arith)
]

pub validated :
    (rubric : List RubricItemSnapshot)
    → IsRubric rubric
    → validate_rubric rubric ≡ ok (length rubric)
unfolding validate_rubric
validated [] r = absurd (omega (arith, r.total))
validated (item ∷ rest) r = ground (
  arith,
  r.total,
  rubric_loop_complete [] 0 (item ∷ rest) (Unseen-nil (rubric_ids (item ∷ rest))) r.distinct
      r.weights,
)

-- `validateRubric` accepts exactly the rubrics whose items have distinct identifiers and whole weights
-- from 1 through 100 that sum to 100, and returns the number of items.
pub validate_rubric_iff :
    (rubric : List RubricItemSnapshot)
    → (validate_rubric rubric ≡ ok (length rubric)) ↔ IsRubric rubric
validate_rubric_iff rubric = (validate_rubric-IsRubric rubric, validated rubric)
