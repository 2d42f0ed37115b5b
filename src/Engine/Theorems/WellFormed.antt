-- ===== src/Engine/Theorems/WellFormed.antt =====
-- packages/domain/src/engine.ts: the invariant of an interview, from its creation on.
use interview_agent.Common.{◌≡◌, none, some, Text, Date, ok, map_ok-eq-ok, subst}
use interview_agent.Engine.{
  CreateInterviewCommand, ExistingCommand, Interview, InterviewTransition, InterviewCommandResult,
  InterviewOperationPlan, InterviewOperationCompletion, PlannedCommand, existing, create_interview,
  transition_result,
}
use interview_agent.Engine.Blueprints.{create}
use interview_agent.Engine.Plans.{
  retry_interview_operation, refresh_interview_operation, refresh_report_retry_activity,
}
use interview_agent.Engine.Accepted.{cancel_interview_operation}
use interview_agent.Engine.Completion.{complete_interview_operation}
use interview_agent.Engine.Handle.{handle_interview_command}
use interview_agent.Engine.Invariant.{IsWellFormed}
use interview_agent.Engine.Preserve.Steps.{Step-IsWellFormed}
use interview_agent.Engine.Refine.{
  planned_interview, result_interview, handle_existing-Step, complete_interview_operation-Step,
  cancel_interview_operation-Step, retry_interview_operation-Step, refresh_interview_operation-Step,
  refresh_report_retry_activity-Step,
}
use interview_agent.Engine.Step.{Step}
use interview_agent.Engine.Theorems.Creation.{create-IsWellFormed}

-- One call of the engine on an interview, and the interview that it leaves.
pub data Call (i : Interview) : Interview → Type 0 where
  handled :
      {j : Interview} (c : ExistingCommand) {r : InterviewCommandResult}
      → handle_interview_command (some i) (existing c) ≡ ok r
      → j ≡ result_interview r
      → Call i j
  completed_operation :
      {j : Interview} (p : InterviewOperationPlan) (c : InterviewOperationCompletion)
      {t : InterviewTransition}
      → complete_interview_operation i p c ≡ ok t
      → j ≡ t.interview
      → Call i j
  cancelled :
      {j : Interview} (p : InterviewOperationPlan)
      → cancel_interview_operation i p ≡ ok j
      → Call i j
  retried :
      {j : Interview} (c : PlannedCommand) (d : Date) {p : InterviewOperationPlan}
      → retry_interview_operation i c d ≡ ok p
      → j ≡ planned_interview p
      → Call i j
  refreshed :
      {j : Interview} (op : Text) (d : Date) → refresh_interview_operation i op d ≡ ok j → Call i j
  report_retried : {j : Interview} (d : Date) → refresh_report_retry_activity i d ≡ ok j → Call i j

-- Every call makes one of the changes.
pub Call-Step : {i j : Interview} → Call i j → Step i j
unfolding handle_interview_command
Call-Step {i} (handled c h e) = rw e (handle_existing-Step i c h)
Call-Step {i} (completed_operation p c h e) = rw e (complete_interview_operation-Step i p c h)
Call-Step {i} (cancelled p h) = cancel_interview_operation-Step i p h
Call-Step {i} (retried c d h e) = rw e (retry_interview_operation-Step i c d h)
Call-Step {i} (refreshed op d h) = refresh_interview_operation-Step i op d h
Call-Step {i} (report_retried d h) = refresh_report_retry_activity-Step i d h

-- The interviews that calls can reach from one that was created.
pub data Reachable : Interview → Type 0 where
  created :
      {j : Interview} (c : CreateInterviewCommand) {r : InterviewCommandResult}
      → handle_interview_command none (create_interview c) ≡ ok r
      → j ≡ result_interview r
      → Reachable j
  called : {i j : Interview} → Reachable i → Call i j → Reachable j

created-IsWellFormed :
    (c : CreateInterviewCommand) {r : InterviewCommandResult}
    → handle_interview_command none (create_interview c) ≡ ok r
    → IsWellFormed (result_interview r)
unfolding handle_interview_command
created-IsWellFormed c h =
    let (t, e, f) = map_ok-eq-ok transition_result (create c) h in
    subst (λ r. IsWellFormed (result_interview r)) f (create-IsWellFormed c e)

-- Every interview that the engine's exported operations can reach from a created one is well-formed:
-- positions count up from 1, as many as the question count, in the questions and in the blueprint;
-- the current position is in range; exactly the optional fields that belong to its status and phase
-- are set, and a pending operation is about the current question; questions before the current one
-- are frozen with an outcome, later ones open without; once a complete report is due, all are frozen
-- with an outcome; and no question has two follow-ups of a kind.
pub Reachable-IsWellFormed : {i : Interview} → Reachable i → IsWellFormed i
Reachable-IsWellFormed (created c h e) = rw e (created-IsWellFormed c h)
Reachable-IsWellFormed (called r c) = Step-IsWellFormed (Call-Step c) (Reachable-IsWellFormed r)
