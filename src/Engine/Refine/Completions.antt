-- ===== src/Engine/Refine/Completions.antt =====
-- packages/domain/src/engine.ts: a completed or cancelled operation is one of the changes.
use interview_agent.Common.{
  ◌≡◌, refl, true, inl, inr, ok, Result-cases, Bool-cases, Option-cases, arith, ◌++◌, ◌∷◌, [],
}
use interview_agent.Interview.{awaiting_response, awaiting_continue, AnswerMaterial}
use interview_agent.Engine.{
  CommandBase, Interview, InterviewTransition, InterviewOperationPlan, answer_analysis_plan,
  question_clarification_plan, InterviewOperationCompletion, record_question_clarification,
  record_system_follow_up, record_question_evaluation, PlanBase, RecordQuestionClarificationCommand,
  RecordSystemFollowUpCommand, RecordQuestionEvaluationCommand,
}
use interview_agent.Engine.Guards.{get_current_question_state, inactive_at}
use interview_agent.Engine.Immediate.{abandoned_state}
use interview_agent.Engine.Accepted.{
  cancel_interview_operation, assert_accepted_operation, completion_base, expire_accepted_operation,
}
use interview_agent.Engine.Validation.{
  validate_follow_up, check_follow_up, validate_question_evaluation,
}
use interview_agent.Engine.Completion.{
  complete_question_clarification, new_clarification, complete_with_system_follow_up, followed_up,
  complete_with_question_evaluation, evaluated, complete_planned, complete_interview_operation,
}
use interview_agent.Engine.Step.{
  Step, cancel, revise, expire_accepted, clarified, follow_up, evaluation,
}

pub cancel_interview_operation-Step :
    (i : Interview) (p : InterviewOperationPlan) {j : Interview}
    → cancel_interview_operation i p ≡ ok j
    → Step i j
unfolding cancel_interview_operation assert_accepted_operation
cancel_interview_operation-Step i p h = elim (Option-cases i.pending_operation) [
  | inl e ↦ absurd (ground arith)
  | inr (pending, e) ↦ cancel pending (ground arith) (ground arith) e (ground arith)
]

complete_question_clarification-Step :
    (i : Interview) (b : PlanBase) (c : CommandBase) (r : RecordQuestionClarificationCommand)
    {t : InterviewTransition}
    → complete_question_clarification i b c r ≡ ok t
    → Step i t.interview
unfolding complete_question_clarification
complete_question_clarification-Step i b c r h =
    elim (Result-cases (get_current_question_state i)) [
      | inl (q, found) ↦
          revise q _ awaiting_response (ground arith) (ground arith) found
            (clarified (new_clarification c r) refl) (ground arith)
      | inr (x, bad) ↦ absurd (ground arith)
    ]

complete_with_system_follow_up-Step :
    (i : Interview) (b : PlanBase) (m : AnswerMaterial) (r : RecordSystemFollowUpCommand)
    {t : InterviewTransition}
    → complete_with_system_follow_up i b m r ≡ ok t
    → Step i t.interview
unfolding complete_with_system_follow_up validate_follow_up check_follow_up
complete_with_system_follow_up-Step i b m r h = elim (Result-cases (get_current_question_state i)) [
  | inl (q, found) ↦
      revise q (followed_up q m r) awaiting_response (ground arith) (ground arith) found
        (follow_up m r (ground arith) refl) (ground arith)
  | inr (x, bad) ↦ absurd (ground arith)
]

complete_with_question_evaluation-Step :
    (i : Interview) (b : PlanBase) (m : AnswerMaterial) (r : RecordQuestionEvaluationCommand)
    {t : InterviewTransition}
    → complete_with_question_evaluation i b m r ≡ ok t
    → Step i t.interview
unfolding complete_with_question_evaluation
complete_with_question_evaluation-Step i b m r h =
    elim (Result-cases (get_current_question_state i)) [
      | inl (q, found) ↦
          elim (Result-cases
            (validate_question_evaluation i q (q.answer_material ++ m ∷ []) r.evaluation)) [
              | inl (e, valid) ↦
                  revise q (evaluated q m e) awaiting_continue (ground arith) (ground arith) found
                    (evaluation m e refl) (ground arith)
              | inr (x, bad) ↦ absurd (ground arith)
            ]
      | inr (x, bad) ↦ absurd (ground arith)
    ]

complete_planned-Step :
    (i : Interview) (p : InterviewOperationPlan) (c : InterviewOperationCompletion)
    {t : InterviewTransition}
    → complete_planned i p c ≡ ok t
    → Step i t.interview
unfolding complete_planned
complete_planned-Step i (question_clarification_plan b k) (record_question_clarification r) h =
    complete_question_clarification-Step i b k r h
complete_planned-Step i (question_clarification_plan b k) (record_system_follow_up r) h = cc
complete_planned-Step i (question_clarification_plan b k) (record_question_evaluation r) h = cc
complete_planned-Step i (answer_analysis_plan b k m) (record_question_clarification r) h = cc
complete_planned-Step i (answer_analysis_plan b k m) (record_system_follow_up r) h =
    complete_with_system_follow_up-Step i b m r h
complete_planned-Step i (answer_analysis_plan b k m) (record_question_evaluation r) h =
    complete_with_question_evaluation-Step i b m r h

complete_interview_operation-inactive :
    (i : Interview) (p : InterviewOperationPlan) (c : InterviewOperationCompletion)
    {t : InterviewTransition}
    → inactive_at i (completion_base c).occurred_at ≡ true
    → complete_interview_operation i p c ≡ ok t
    → t.interview ≡ abandoned_state i
unfolding complete_interview_operation expire_accepted_operation
complete_interview_operation-inactive i p c inactive h = ground arith

pub complete_interview_operation-Step :
    (i : Interview) (p : InterviewOperationPlan) (c : InterviewOperationCompletion)
    {t : InterviewTransition}
    → complete_interview_operation i p c ≡ ok t
    → Step i t.interview
unfolding complete_interview_operation
complete_interview_operation-Step i p c {t} h =
    elim (Bool-cases (inactive_at i (completion_base c).occurred_at)) [
      | inl inactive ↦
          expire_accepted (ground arith) (complete_interview_operation-inactive i p c inactive h)
      | inr in_time ↦ complete_planned-Step i p c {t = t} (ground arith)
    ]
