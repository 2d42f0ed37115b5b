-- ===== src/Engine/Refine/Handle.antt =====
-- packages/domain/src/engine.ts: a handled command is one of the changes.
use interview_agent.Common.{◌≡◌, ◌⊎◌, inl, inr, ok, Result, arith, map_ok-eq-ok, subst, map_ok}
use interview_agent.Interview.{unknown, skipped}
use interview_agent.Engine.{
  answer, request_question_clarification, ExistingCommand, planned, mark_question_unknown,
  skip_question, continue_interview, end_interview_early, abandon_interview, expire_interview,
  record_report, Interview, InterviewTransition, InterviewCommandResult, transition_result,
  plan_result, InterviewOperationPlan, DomainError,
}
use interview_agent.Engine.Immediate
use interview_agent.Engine.Immediate.{record_unevaluated_outcome}
use interview_agent.Engine.Handle.{
  dispatch, handle_current, handle_existing, expire_command, command_base,
}
use interview_agent.Engine.Step.{Step}
use interview_agent.Engine.Refine.Plans.{
  planned_interview, plan_answer_analysis-Step, plan_question_clarification-Step,
}
use interview_agent.Engine.Refine.Commands.{
  record_unevaluated_outcome-Step, continue_interview-Step, end_interview_early-Step,
  abandon_interview-Step, expire_interview-Step, record_report-Step,
}

-- The interview that a command leaves.
abbrev pub result_interview : InterviewCommandResult → Interview
result_interview (transition_result t) = t.interview
result_interview (plan_result p) = planned_interview p

of_transition :
    (i : Interview) {m : Result DomainError InterviewTransition} {r : InterviewCommandResult}
    → map_ok transition_result m ≡ ok r
    → ((t : InterviewTransition) → m ≡ ok t → Step i t.interview)
    → Step i (result_interview r)
of_transition i {m} h step =
    let (t, e, f) = map_ok-eq-ok transition_result m h in
    subst (λ r. Step i (result_interview r)) f (step t e)

of_plan :
    (i : Interview) {m : Result DomainError InterviewOperationPlan} {r : InterviewCommandResult}
    → map_ok plan_result m ≡ ok r
    → ((p : InterviewOperationPlan) → m ≡ ok p → Step i (planned_interview p))
    → Step i (result_interview r)
of_plan i {m} h step =
    let (p, e, f) = map_ok-eq-ok plan_result m h in
    subst (λ r. Step i (result_interview r)) f (step p e)

dispatch-Step :
    (i : Interview) (c : ExistingCommand) {r : InterviewCommandResult}
    → dispatch i c ≡ ok r
    → Step i (result_interview r)
unfolding dispatch
dispatch-Step i (planned (answer c)) h = of_plan i h (λ p e. plan_answer_analysis-Step i c e)
dispatch-Step i (planned (request_question_clarification c)) h =
    of_plan i h (λ p e. plan_question_clarification-Step i c e)
dispatch-Step i (mark_question_unknown c) h =
    of_transition i h (λ t e. record_unevaluated_outcome-Step i c unknown e)
dispatch-Step i (skip_question c) h =
    of_transition i h (λ t e. record_unevaluated_outcome-Step i c skipped e)
dispatch-Step i (continue_interview c) h = of_transition i h (λ t e. continue_interview-Step i c e)
dispatch-Step i (end_interview_early c) h =
    of_transition i h (λ t e. end_interview_early-Step i c e)
dispatch-Step i (abandon_interview c) h = of_transition i h (λ t e. abandon_interview-Step i c e)
dispatch-Step i (expire_interview c) h = of_transition i h (λ t e. expire_interview-Step i c e)
dispatch-Step i (record_report c) h = of_transition i h (λ t e. record_report-Step i c e)

-- A command is dispatched, or the interview expires in its place.
pub handle_existing-cases :
    (i : Interview) (c : ExistingCommand) {r : InterviewCommandResult}
    → handle_existing i c ≡ ok r
    → (dispatch i c ≡ ok r)
      ⊎ (map_ok transition_result (Immediate.expire_interview i (expire_command i (command_base c)))
          ≡ ok r)
unfolding handle_existing handle_current
handle_existing-cases i c h = ground arith

-- Whatever a command does to an interview is one of the changes.
pub handle_existing-Step :
    (i : Interview) (c : ExistingCommand) {r : InterviewCommandResult}
    → handle_existing i c ≡ ok r
    → Step i (result_interview r)
handle_existing-Step i c h = elim (handle_existing-cases i c h) [
  | inl e ↦ dispatch-Step i c e
  | inr e ↦ of_transition i e (λ t f. expire_interview-Step i _ f)
]
