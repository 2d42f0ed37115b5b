-- ===== src/Engine/Theorems/Settlement.antt =====
-- packages/domain/src/engine.ts: an accepted operation is completed, or cancelled and retried.
use interview_agent.Common.{
  ◌+◌, ◌≡◌, none, some, ok, arith, true, false, inl, inr, Result-cases, is_valid, text_eq,
  clone_date, is_blank, ◌>>=◌,
}
use interview_agent.Interview.{active, awaiting_response}
use interview_agent.Engine.{
  CommandBase, AnswerCommand, PlannedCommand, answer, request_question_clarification, Interview,
  InterviewQuestionState, InterviewOperationPlan, planned, existing, plan_result,
}
use interview_agent.Engine.Guards.{get_current_question_state, uses_material_id}
use interview_agent.Engine.Plans.{
  accept_operation, retry_interview_operation, retry_planned, planned_base, answer_phase,
}
use interview_agent.Engine.Accepted.{cancel_interview_operation}
use interview_agent.Engine.Refine.{planned_interview}
use interview_agent.Engine.Theorems.Operations.{
  plan_command, answer_plan, clarification_plan, plan_answer_analysis_inv,
  plan_question_clarification_inv, accepted_answer, accepted_clarification, no_question,
  phase_eq_refl,
}
use interview_agent.Engine.Handle.{
  handle_interview_command, handle_existing, handle_current, dispatch,
}

pub handle_planned :
    (i : Interview) (c : PlannedCommand) {p : InterviewOperationPlan}
    → handle_interview_command (some i) (existing (planned c)) ≡ ok (plan_result p)
    → (plan_command i c ≡ ok p)
      × (i.pending_operation ≡ none)
      × (text_eq (planned_base c).interview_id i.id ≡ true)
      × ((planned_base c).expected_version ≡ i.version)
unfolding handle_interview_command handle_existing handle_current dispatch
handle_planned i (answer c) h = ground arith
handle_planned i (request_question_clarification c) h = ground arith

-- The interview after an operation was accepted and cancelled.
abbrev pub resumed : Interview → PlannedCommand → Interview
resumed i c = record i {
  version = i.version + 1;
  pending_operation = none;
  last_effective_activity_at = clone_date (planned_base c).occurred_at;
}

cancel_answer :
    (i : Interview) (c : AnswerCommand) (q : InterviewQuestionState)
    → i.status ≡ active
    → i.phase ≡ some (answer_phase c.type)
    → is_valid c.base.occurred_at ≡ true
    → cancel_interview_operation (planned_interview (answer_plan i c q)) (answer_plan i c q)
      ≡ ok (resumed i (answer c))
unfolding cancel_interview_operation accept_operation
cancel_answer i c q act ph valid = ground (arith, accepted_answer i c q act valid)

cancel_clarification :
    (i : Interview) (c : CommandBase)
    → i.status ≡ active
    → i.phase ≡ some awaiting_response
    → is_valid c.occurred_at ≡ true
    → cancel_interview_operation
        (planned_interview (clarification_plan i c))
        (clarification_plan i c)
      ≡ ok (resumed i (request_question_clarification c))
unfolding cancel_interview_operation accept_operation
cancel_clarification i c act ph valid = ground (arith, accepted_clarification i c act valid)

-- Cancelling an operation as soon as it is accepted puts the interview back into the phase that the
-- command found, with no pending operation; the version stays one higher and the last activity is
-- the command's time.
pub cancel_resumes :
    (i : Interview) (c : PlannedCommand) {p : InterviewOperationPlan}
    → handle_interview_command (some i) (existing (planned c)) ≡ ok (plan_result p)
    → cancel_interview_operation (planned_interview p) p ≡ ok (resumed i c)
cancel_resumes i (answer c) h = elim (Result-cases (get_current_question_state i)) [
  | inl (q, found) ↦
      let (e, act, ph, valid, _, _) =
        plan_answer_analysis_inv i c q found (handle_planned i (answer c) h).0 in
      rw e (cancel_answer i c q act ph valid)
  | inr (x, bad) ↦ absurd (no_question i c bad (handle_planned i (answer c) h).0)
]
cancel_resumes i (request_question_clarification c) h =
    let (e, act, ph, valid) =
      plan_question_clarification_inv i c
        (handle_planned i (request_question_clarification c) h).0 in
    rw e (cancel_clarification i c act ph valid)

retry_answer :
    (i : Interview) (c : AnswerCommand) (q : InterviewQuestionState)
    → get_current_question_state i ≡ ok q
    → i.status ≡ active
    → i.phase ≡ some (answer_phase c.type)
    → is_valid c.base.occurred_at ≡ true
    → is_blank c.text ≡ false
    → uses_material_id q c.answer_material_id ≡ false
    → i.pending_operation ≡ none
    → text_eq c.base.interview_id i.id ≡ true
    → c.base.expected_version ≡ i.version
    → retry_interview_operation (resumed i (answer c)) (answer c) (clone_date c.base.occurred_at)
      ≡ ok (answer_plan i c q)
unfolding retry_interview_operation retry_planned accept_operation get_current_question_state
retry_answer i c q found act ph valid text fresh none_pending same version =
    ground (arith, phase_eq_refl c.type)

retry_clarification :
    (i : Interview) (c : CommandBase)
    → i.status ≡ active
    → i.phase ≡ some awaiting_response
    → is_valid c.occurred_at ≡ true
    → i.pending_operation ≡ none
    → text_eq c.interview_id i.id ≡ true
    → c.expected_version ≡ i.version
    → retry_interview_operation
        (resumed i (request_question_clarification c))
        (request_question_clarification c)
        (clone_date c.occurred_at)
      ≡ ok (clarification_plan i c)
unfolding retry_interview_operation retry_planned accept_operation
retry_clarification i c act ph valid none_pending same version = ground arith

-- A command whose operation was accepted and cancelled can be retried at the time of acceptance, and
-- the retry makes the same plan again, the accepted interview included.
pub retry_replans :
    (i : Interview) (c : PlannedCommand) {p : InterviewOperationPlan}
    → handle_interview_command (some i) (existing (planned c)) ≡ ok (plan_result p)
    → (cancel_interview_operation (planned_interview p) p >>= λ j.
        retry_interview_operation j c (clone_date (planned_base c).occurred_at))
      ≡ ok p
retry_replans i (answer c) h = elim (Result-cases (get_current_question_state i)) [
  | inl (q, found) ↦
      let (made, pend, same, version) = handle_planned i (answer c) h in
      let (e, act, ph, valid, text, fresh) = plan_answer_analysis_inv i c q found made in
      rw (cancel_resumes i (answer c) h)
        (rw e (retry_answer i c q found act ph valid text fresh pend same version))
  | inr (x, bad) ↦ absurd (no_question i c bad (handle_planned i (answer c) h).0)
]
retry_replans i (request_question_clarification c) h =
    let (made, pend, same, version) = handle_planned i (request_question_clarification c) h in
    let (e, act, ph, valid) = plan_question_clarification_inv i c made in
    rw (cancel_resumes i (request_question_clarification c) h)
      (rw e (retry_clarification i c act ph valid pend same version))
