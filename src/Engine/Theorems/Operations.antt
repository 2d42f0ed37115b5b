-- ===== src/Engine/Theorems/Operations.antt =====
-- packages/domain/src/engine.ts: the plans that the engine makes, and that they are accepted.
use interview_agent.Common.{
  ◌≡◌, refl, some, ok, err, arith, true, false, inl, inr, Result, Result-cases, is_valid,
  text_eq_refl, clone_date, is_blank,
}
use interview_agent.Interview.{active, awaiting_response, phase_eq}
use interview_agent.Engine.{
  CommandBase, AnswerCommand, AnswerCommandType, submit_answer, submit_supplement, PlannedCommand,
  answer, request_question_clarification, Interview, InterviewQuestionState, InterviewOperationPlan,
  answer_analysis, question_clarification, answer_analysis_plan, question_clarification_plan,
  DomainError,
}
use interview_agent.Engine.Guards.{get_current_question_state, uses_material_id}
use interview_agent.Engine.Plans.{
  accept_operation, plan_answer_analysis, plan_question_clarification, answer_phase, plan_base,
  material_kind,
}
use interview_agent.Engine.Accepted.{
  assert_accepted_operation, is_accepted_operation, is_accepted_state,
}
use interview_agent.Engine.Refine.{planned_interview}

-- `plan_answer_analysis` and `plan_question_clarification`, as `handleInterviewCommand` calls them.
abbrev pub plan_command : Interview → PlannedCommand → Result DomainError InterviewOperationPlan
plan_command i (answer c) = plan_answer_analysis i c
plan_command i (request_question_clarification c) = plan_question_clarification i c

-- The plan that `planAnswerAnalysis` makes.
abbrev pub answer_plan : Interview → AnswerCommand → InterviewQuestionState → InterviewOperationPlan
answer_plan i c q =
    answer_analysis_plan
      (plan_base i c.base
        (accept_operation i c.base.operation_id answer_analysis (clone_date c.base.occurred_at)
          (answer_phase c.type))
        (clone_date c.base.occurred_at))
      c
      (record {
        id = c.answer_material_id;
        kind = material_kind c.type q;
        text = c.text;
        submitted_at = clone_date c.base.occurred_at;
      })

-- The plan that `planQuestionClarification` makes.
abbrev pub clarification_plan : Interview → CommandBase → InterviewOperationPlan
clarification_plan i c =
    question_clarification_plan
      (plan_base i c
        (accept_operation i c.operation_id question_clarification (clone_date c.occurred_at)
          awaiting_response)
        (clone_date c.occurred_at))
      c

pub plan_answer_analysis_inv :
    (i : Interview) (c : AnswerCommand) (q : InterviewQuestionState) {p : InterviewOperationPlan}
    → get_current_question_state i ≡ ok q
    → plan_answer_analysis i c ≡ ok p
    → (p ≡ answer_plan i c q)
      × (i.status ≡ active)
      × (i.phase ≡ some (answer_phase c.type))
      × (is_valid c.base.occurred_at ≡ true)
      × (is_blank c.text ≡ false)
      × (uses_material_id q c.answer_material_id ≡ false)
unfolding plan_answer_analysis
plan_answer_analysis_inv i c q found h = ground arith

pub plan_question_clarification_inv :
    (i : Interview) (c : CommandBase) {p : InterviewOperationPlan}
    → plan_question_clarification i c ≡ ok p
    → (p ≡ clarification_plan i c)
      × (i.status ≡ active)
      × (i.phase ≡ some awaiting_response)
      × (is_valid c.occurred_at ≡ true)
unfolding plan_question_clarification
plan_question_clarification_inv i c h = ground arith

pub no_question :
    (i : Interview) (c : AnswerCommand) {x : DomainError} {p : InterviewOperationPlan}
    → get_current_question_state i ≡ err x
    → plan_answer_analysis i c ≡ ok p
    → ⊥
unfolding plan_answer_analysis
no_question i c bad h = ground arith

pub phase_eq_refl : (t : AnswerCommandType) → phase_eq (answer_phase t) (answer_phase t) ≡ true
phase_eq_refl submit_answer = refl
phase_eq_refl submit_supplement = refl

pub accepted_answer :
    (i : Interview) (c : AnswerCommand) (q : InterviewQuestionState)
    → i.status ≡ active
    → is_valid c.base.occurred_at ≡ true
    → assert_accepted_operation (planned_interview (answer_plan i c q)) (answer_plan i c q) ≡ ok tt
unfolding accept_operation assert_accepted_operation is_accepted_operation is_accepted_state
accepted_answer i c q act valid =
    ground (arith, text_eq_refl i.id, text_eq_refl c.base.operation_id, phase_eq_refl c.type)

pub accepted_clarification :
    (i : Interview) (c : CommandBase)
    → i.status ≡ active
    → is_valid c.occurred_at ≡ true
    → assert_accepted_operation
        (planned_interview (clarification_plan i c))
        (clarification_plan i c)
      ≡ ok tt
unfolding accept_operation assert_accepted_operation is_accepted_operation is_accepted_state
accepted_clarification i c act valid =
    ground (arith, text_eq_refl i.id, text_eq_refl c.operation_id)

-- A plan is accepted in the interview that it holds, whose last activity is the plan's acceptance.
pub plan-accepted :
    (i : Interview) (c : PlannedCommand) {p : InterviewOperationPlan}
    → plan_command i c ≡ ok p
    → assert_accepted_operation (planned_interview p) p ≡ ok tt
plan-accepted i (answer c) h = elim (Result-cases (get_current_question_state i)) [
  | inl (q, found) ↦
      let (e, act, ph, valid, _, _) = plan_answer_analysis_inv i c q found h in
      rw e (accepted_answer i c q act valid)
  | inr (x, bad) ↦ absurd (no_question i c bad h)
]
plan-accepted i (request_question_clarification c) h =
    let (e, act, ph, valid) = plan_question_clarification_inv i c h in
    rw e (accepted_clarification i c act valid)
