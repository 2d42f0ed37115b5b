-- ===== src/Engine/Preserve/Questions.antt =====
-- packages/domain/src/engine.ts: a completion keeps the current question as it must be.
use interview_agent.Common.{
  ◌≤◌, ◌≡◌, ◌⊎◌, inl, inr, refl, Bool, false, none, some, List, [], ◌∷◌, count_if, count_if-append,
  arith, any,
}
use interview_agent.Interview.{
  active, InterviewPhase, AnswerMaterial, FollowUpKind, clarification, follow_up_kind_eq,
}
use interview_agent.Engine.{RecordSystemFollowUpCommand, Interview, InterviewQuestionState}
use interview_agent.Engine.Validation.{uses_kind}
use interview_agent.Engine.Completion.{followed_up, evaluated, new_follow_up}
use interview_agent.Engine.Invariant.{QuestionOk, follow_ups_of}
use interview_agent.Engine.Step.{Revision, clarified, follow_up, evaluation}

none-count_if {ℓ} : {A : Type ℓ} (p : A → Bool) (xs : List A) → any p xs ≡ false → count_if p xs ≡ 0
unfolding any count_if
none-count_if p [] h = refl
none-count_if p (x ∷ xs) h = ground (arith, none-count_if p xs)

kind_cases : (a b : FollowUpKind) → (a ≡ b) ⊎ (follow_up_kind_eq b a ≡ false)
kind_cases clarification clarification = inl refl
kind_cases FollowUpKind.depth FollowUpKind.depth = inl refl
kind_cases clarification FollowUpKind.depth = inr refl
kind_cases FollowUpKind.depth clarification = inr refl

-- A follow-up is added only if the question has none of its kind.
followed_up-count :
    (kind : FollowUpKind) (q : InterviewQuestionState) (m : AnswerMaterial)
    (c : RecordSystemFollowUpCommand)
    → uses_kind q c.kind ≡ false
    → follow_ups_of kind q.system_follow_ups ≤ 1
    → follow_ups_of kind (followed_up q m c).system_follow_ups ≤ 1
unfolding followed_up uses_kind count_if
followed_up-count kind q m c unused h = ground (
  arith,
  count_if-append (λ follow_up. follow_up_kind_eq follow_up.kind kind) q.system_follow_ups
      (new_follow_up c ∷ []),
  none-count_if (λ follow_up. follow_up_kind_eq follow_up.kind c.kind) q.system_follow_ups,
  kind_cases kind c.kind,
)

pub revised-QuestionOk :
    (i j : Interview) (q q' : InterviewQuestionState) (next : InterviewPhase)
    → Revision q q' next
    → i.status ≡ active
    → j.status ≡ active
    → j.phase ≡ some next
    → j.pending_operation ≡ none
    → j.question_count ≡ i.question_count
    → j.current_question_position ≡ i.current_question_position
    → q.position ≡ i.current_question_position
    → QuestionOk i q
    → QuestionOk j q'
unfolding followed_up evaluated
revised-QuestionOk i j q q' next (clarified c e) act act' ph p count cur pos h = rw e (record {
  earlier_frozen = λ lt. ground arith;
  earlier_outcome = λ lt. ground arith;
  later_open = λ lt. ground arith;
  later_empty = λ lt. ground arith;
  current_open = λ a b. ground arith;
  current_answered = λ a b. ground arith;
  complete_frozen = λ a. ground arith;
  complete_outcome = λ a. ground arith;
  in_range = rw count h.in_range;
  agree = h.agree;
  one_clarification = h.one_clarification;
  one_depth = h.one_depth;
})
revised-QuestionOk i j q q' next (follow_up m c unused e) act act' ph p count cur pos h =
    rw e (record {
      earlier_frozen = λ lt. ground arith;
      earlier_outcome = λ lt. ground arith;
      later_open = λ lt. ground arith;
      later_empty = λ lt. ground arith;
      current_open = λ a b. ground arith;
      current_answered = λ a b. ground arith;
      complete_frozen = λ a. ground arith;
      complete_outcome = λ a. ground arith;
      in_range = rw count h.in_range;
      agree = tt;
      one_clarification = followed_up-count clarification q m c unused h.one_clarification;
      one_depth = followed_up-count FollowUpKind.depth q m c unused h.one_depth;
    })
revised-QuestionOk i j q q' next (evaluation m v e) act act' ph p count cur pos h = ground arith
