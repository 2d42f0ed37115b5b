-- ===== src/Engine/Refine/Plans.antt =====
-- packages/domain/src/engine.ts: an accepted operation is one of the changes.
use interview_agent.Common.{◌≡◌, true, inl, inr, Text, Date, ok, Option-cases, arith, is_valid}
use interview_agent.Interview.{awaiting_response}
use interview_agent.Engine.{
  CommandBase, AnswerCommand, PlannedCommand, answer, request_question_clarification, Interview,
  InterviewOperationPlan, answer_analysis, question_clarification, submit_answer, submit_supplement,
  AnswerCommandType,
}
use interview_agent.Engine.Plans.{
  plan_answer_analysis, plan_question_clarification, retry_planned, answer_phase,
  refresh_interview_operation, refresh_report_retry_activity, retry_interview_operation,
}
use interview_agent.Engine.Accepted.{base_of_plan}
use interview_agent.Engine.Invariant.{analyse_answer, analyse_supplement, clarify_question, Accepts}
use interview_agent.Engine.Step.{Step, accept, accept_again, refresh, retry_report}

-- The interview in which a plan was accepted.
abbrev pub planned_interview : InterviewOperationPlan → Interview
planned_interview plan = (base_of_plan plan).interview

accepts : (t : AnswerCommandType) → Accepts answer_analysis (answer_phase t)
accepts submit_answer = analyse_answer
accepts submit_supplement = analyse_supplement

pub plan_answer_analysis-Step :
    (i : Interview) (c : AnswerCommand) {p : InterviewOperationPlan}
    → plan_answer_analysis i c ≡ ok p
    → Step i (planned_interview p)
unfolding plan_answer_analysis
plan_answer_analysis-Step i c h =
    accept c.base.operation_id answer_analysis c.base.occurred_at (answer_phase c.type)
      (ground arith) (ground arith) (accepts c.type) (ground arith) (ground arith)

pub plan_question_clarification-Step :
    (i : Interview) (c : CommandBase) {p : InterviewOperationPlan}
    → plan_question_clarification i c ≡ ok p
    → Step i (planned_interview p)
unfolding plan_question_clarification
plan_question_clarification-Step i c h =
    accept c.operation_id question_clarification c.occurred_at awaiting_response (ground arith)
      (ground arith) clarify_question (ground arith) (ground arith)

retry_planned-Step :
    (i : Interview) (c : PlannedCommand) (d : Date) {p : InterviewOperationPlan}
    → is_valid d ≡ true
    → retry_planned i c d ≡ ok p
    → Step i (planned_interview p)
unfolding retry_planned
retry_planned-Step i (answer c) d vd h =
    accept_again c.base.operation_id answer_analysis d (answer_phase c.type) (ground arith)
      (ground arith) (accepts c.type) vd (ground arith)
retry_planned-Step i (request_question_clarification c) d vd h =
    accept_again c.operation_id question_clarification d awaiting_response (ground arith)
      (ground arith) clarify_question vd (ground arith)

-- A retried operation is accepted again under the same version.
pub retry_interview_operation-Step :
    (i : Interview) (c : PlannedCommand) (d : Date) {p : InterviewOperationPlan}
    → retry_interview_operation i c d ≡ ok p
    → Step i (planned_interview p)
unfolding retry_interview_operation
retry_interview_operation-Step i c d {p} h =
    retry_planned-Step i c d {p = p} (ground arith) (ground arith)

pub refresh_interview_operation-Step :
    (i : Interview) (op : Text) (d : Date) {j : Interview}
    → refresh_interview_operation i op d ≡ ok j
    → Step i j
unfolding refresh_interview_operation
refresh_interview_operation-Step i op d h = elim (Option-cases i.pending_operation) [
  | inl e ↦ absurd (ground arith)
  | inr (p, e) ↦ refresh d p (ground arith) (ground arith) e (ground arith) (ground arith)
]

pub refresh_report_retry_activity-Step :
    (i : Interview) (d : Date) {j : Interview} → refresh_report_retry_activity i d ≡ ok j → Step i j
unfolding refresh_report_retry_activity
refresh_report_retry_activity-Step i d h =
    retry_report d (ground arith) (ground arith) (ground arith)
