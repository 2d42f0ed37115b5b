-- ===== src/Engine/Theorems/Current.antt =====
-- packages/domain/src/engine.ts: the question that `replaceCurrentQuestion` stores is the current one.
use interview_agent.Common.{
  ℕ, ◌≡◌, refl, true, ◌==◌, eq→==, some, List, [], ◌∷◌, map, get_elem?, at_position, ok, arith,
  zero, suc, inl, inr, Option-cases,
}
use interview_agent.Engine.{Interview, InterviewQuestionState}
use interview_agent.Engine.Guards.{replaced_by, get_current_question_state}

get_elem?-replaced :
    (q c : InterviewQuestionState) (qs : List InterviewQuestionState) (k : ℕ)
    → get_elem? qs k ≡ some c
    → c.position ≡ q.position
    → get_elem? (map (replaced_by q) qs) k ≡ some q
get_elem?-replaced q c [] k h same = cc
get_elem?-replaced q c (x ∷ qs) zero h same = ground (arith, eq→== c.position q.position same)
get_elem?-replaced q c (x ∷ qs) (suc k) h same = get_elem?-replaced q c qs k h same

at_position-replaced :
    (q c : InterviewQuestionState) (qs : List InterviewQuestionState) (n : ℕ)
    → at_position qs n ≡ some c
    → c.position ≡ q.position
    → at_position (map (replaced_by q) qs) n ≡ some q
at_position-replaced q c qs zero h same = absurd (ground arith)
at_position-replaced q c qs (suc k) h same = get_elem?-replaced q c qs k h same

-- After the current question was replaced by a state for the same position, that state is found.
pub current_replaced :
    (i j : Interview) (q q' : InterviewQuestionState)
    → get_current_question_state i ≡ ok q
    → q'.position ≡ q.position
    → j.current_question_position ≡ i.current_question_position
    → j.questions ≡ map (replaced_by q') i.questions
    → get_current_question_state j ≡ ok q'
unfolding get_current_question_state
current_replaced i j q q' found same here changed =
    elim (Option-cases (at_position i.questions i.current_question_position)) [
      | inl e ↦ absurd (ground arith)
      | inr (c, e) ↦
          let is_c : c ≡ q = ground arith in
          let at_c : (q.position == i.current_question_position) ≡ true = ground arith in
          let place =
            at_position-replaced q' c i.questions i.current_question_position e
              (rw (is_c, same) refl) in
          rw (here, changed) (ground (arith, place, same, at_c))
    ]
