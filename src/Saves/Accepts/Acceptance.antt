-- ===== src/Saves/Accepts/Acceptance.antt =====
-- packages/db/src/repositories/transition-validation.ts: the acceptance of an operation is accepted.
use interview_agent.Common.{
  ◌≡◌, refl, true, false, [], none, some, ok, arith, inl, inr, Result-cases, Text, Date, invalid,
  clone_date, before, sym,
}
use interview_agent.Interview.{active, awaiting_response, phase_eq}
use interview_agent.Engine.{
  answer, request_question_clarification, PlannedCommand, planned, existing, plan_result, Interview,
  InterviewOperationPlan, AnswerCommandType, submit_answer, submit_supplement,
}
use interview_agent.Engine.Guards.{get_current_question_state}
use interview_agent.Engine.Plans.{
  accept_operation, accept_retried_operation, answer_phase, planned_base, retry_planned,
  retry_interview_operation,
}
use interview_agent.Engine.Handle.{handle_interview_command, handle_existing, handle_current}
use interview_agent.Engine.Refine.{planned_interview}
use interview_agent.Interview.{InterviewPhase, processing, awaiting_continue}
use interview_agent.Engine.{OperationName, answer_analysis, question_clarification}
use interview_agent.Engine.Accepted.{operation_eq}
use interview_agent.Engine.Invariant.{Accepts, analyse_answer, analyse_supplement, clarify_question}
use interview_agent.Engine.Theorems.Settlement.{handle_planned}
use interview_agent.Engine.Theorems.Operations.{
  plan_question_clarification_inv, plan_answer_analysis_inv, no_question,
}
use interview_agent.Saves.{InterviewSave}
use interview_agent.Saves.Validate.{
  assert_event_identity, assert_persistence_payloads, recorded_evaluations, stored_reports,
  assert_evaluation_payload, assert_report_payload, sequence_of,
}
use interview_agent.Saves.Eventless.{
  is_open_phase, is_wrong_phase, validate_eventless_transition, validate_pending_change,
  validate_acceptance,
}
use interview_agent.Saves.Transitions.{validate_sequence, validate_interview_save}
use interview_agent.Saves.Accepts.{IsComparable, canonical, SameIdentity, saved, clone_date_same}

-- The save of a change without events.
abbrev pub quiet_save : Interview → Interview → InterviewSave
quiet_save i j = record { previous = i; current = j; events = []; evaluations = []; report = none }

pub quiet :
    (i j : Interview)
    → SameIdentity i j
    → IsComparable j
    → validate_eventless_transition i j ≡ ok tt
    → validate_interview_save (quiet_save i j) ≡ ok tt
unfolding validate_sequence sequence_of assert_event_identity assert_persistence_payloads
    recorded_evaluations stored_reports assert_evaluation_payload assert_report_payload
quiet i j same comparable h = saved (quiet_save i j) same comparable refl h refl

-- An accepted operation, under the next version or the same.
acceptance-saved :
    (i j : Interview)
    → SameIdentity i j
    → IsComparable j
    → i.pending_operation ≡ none
    → i.status ≡ active
    → validate_pending_change i j none j.pending_operation ≡ ok tt
    → validate_interview_save (quiet_save i j) ≡ ok tt
unfolding validate_eventless_transition
acceptance-saved i j same comparable pend act h = quiet i j same comparable (ground (arith, h))

pub phase_eq_same : (p : InterviewPhase) → phase_eq p p ≡ true
phase_eq_same awaiting_response = refl
phase_eq_same processing = refl
phase_eq_same awaiting_continue = refl

pub operation_eq_same : (o : OperationName) → operation_eq o o ≡ true
operation_eq_same answer_analysis = refl
operation_eq_same question_clarification = refl

-- An operation is accepted in an open phase that suits it.
Accepts-open :
    {name : OperationName} {prev : InterviewPhase}
    → Accepts name prev
    → (is_open_phase prev ≡ true)
      × (is_wrong_phase (record {
        operation_id = [];
        operation = name;
        question_position = 0;
        accepted_at = invalid;
        previous_phase = prev;
      })
          ≡ false)
Accepts-open analyse_answer = (refl, refl)
Accepts-open analyse_supplement = (refl, refl)
Accepts-open clarify_question = (refl, refl)

-- An operation accepted by `acceptOperation` or by `acceptRetriedOperation`.
accepted-saved :
    (i : Interview) (op : Text) (name : OperationName) (d : Date) (prev : InterviewPhase)
    → i.status ≡ active
    → i.phase ≡ some prev
    → i.pending_operation ≡ none
    → Accepts name prev
    → before d i.last_effective_activity_at ≡ false
    → IsComparable (accept_operation i op name d prev)
    → validate_interview_save (quiet_save i (accept_operation i op name d prev)) ≡ ok tt
unfolding accept_operation validate_eventless_transition validate_pending_change validate_acceptance
accepted-saved i op name d prev act ph pend acc order comparable =
    quiet i (accept_operation i op name d prev)
      (record {
        id = refl;
        account_id = refl;
        question_count = refl;
        blueprint = refl;
        created_at = refl;
      })
      comparable
      (ground (
        arith,
        clone_date_same d,
        clone_date_same (clone_date d),
        Accepts-open acc,
        phase_eq_same prev,
        canonical (accept_operation i op name d prev) (accept_operation i op name d prev) refl
            comparable,
      ))

retried-saved :
    (i : Interview) (op : Text) (name : OperationName) (d : Date) (prev : InterviewPhase)
    → i.status ≡ active
    → i.phase ≡ some prev
    → i.pending_operation ≡ none
    → Accepts name prev
    → before d i.last_effective_activity_at ≡ false
    → IsComparable (accept_retried_operation i op name d prev)
    → validate_interview_save (quiet_save i (accept_retried_operation i op name d prev)) ≡ ok tt
unfolding accept_retried_operation validate_eventless_transition validate_pending_change
    validate_acceptance
retried-saved i op name d prev act ph pend acc order comparable =
    quiet i (accept_retried_operation i op name d prev)
      (record {
        id = refl;
        account_id = refl;
        question_count = refl;
        blueprint = refl;
        created_at = refl;
      })
      comparable
      (ground (
        arith,
        clone_date_same d,
        clone_date_same (clone_date d),
        Accepts-open acc,
        phase_eq_same prev,
        canonical (accept_retried_operation i op name d prev)
            (accept_retried_operation i op name d prev) refl comparable,
      ))

-- What the engine returns for a planned command on an interview, or for its retry.
pub data Accepted (i : Interview) : Interview → Type 0 where
  first :
      {j : Interview} (op : Text) (name : OperationName) (d : Date) (prev : InterviewPhase)
      → i.status ≡ active
      → i.phase ≡ some prev
      → i.pending_operation ≡ none
      → Accepts name prev
      → before d i.last_effective_activity_at ≡ false
      → j ≡ accept_operation i op name d prev
      → Accepted i j
  again :
      {j : Interview} (op : Text) (name : OperationName) (d : Date) (prev : InterviewPhase)
      → i.status ≡ active
      → i.phase ≡ some prev
      → i.pending_operation ≡ none
      → Accepts name prev
      → before d i.last_effective_activity_at ≡ false
      → j ≡ accept_retried_operation i op name d prev
      → Accepted i j

pub Accepted-saved :
    {i j : Interview}
    → Accepted i j
    → IsComparable j
    → validate_interview_save (quiet_save i j) ≡ ok tt
Accepted-saved {i} (first op name d prev act ph pend acc order e) comparable =
    rw e (accepted-saved i op name d prev act ph pend acc order (rw (sym e) comparable))
Accepted-saved {i} (again op name d prev act ph pend acc order e) comparable =
    rw e (retried-saved i op name d prev act ph pend acc order (rw (sym e) comparable))

handled_in_time :
    (i : Interview) (c : PlannedCommand) {p : InterviewOperationPlan}
    → handle_interview_command (some i) (existing (planned c)) ≡ ok (plan_result p)
    → before (planned_base c).occurred_at i.last_effective_activity_at ≡ false
unfolding handle_interview_command handle_existing handle_current
handled_in_time i c h = ground arith

answer-Accepts : (t : AnswerCommandType) → Accepts answer_analysis (answer_phase t)
answer-Accepts submit_answer = analyse_answer
answer-Accepts submit_supplement = analyse_supplement

pub handled-Accepted :
    (i : Interview) (c : PlannedCommand) {p : InterviewOperationPlan}
    → handle_interview_command (some i) (existing (planned c)) ≡ ok (plan_result p)
    → Accepted i (planned_interview p)
handled-Accepted i (request_question_clarification c) h =
    let (made, pend, _, _) = handle_planned i (request_question_clarification c) h in
    let (e, act, ph, _) = plan_question_clarification_inv i c made in
    first c.operation_id question_clarification c.occurred_at awaiting_response act ph pend
      clarify_question (handled_in_time i (request_question_clarification c) h)
      (rw (e, clone_date_same c.occurred_at) refl)
handled-Accepted i (answer c) h = elim (Result-cases (get_current_question_state i)) [
  | inl (q, found) ↦
      let (made, pend, _, _) = handle_planned i (answer c) h in
      let (e, act, ph, _, _, _) = plan_answer_analysis_inv i c q found made in
      first c.base.operation_id answer_analysis c.base.occurred_at (answer_phase c.type) act ph pend
        (answer-Accepts c.type) (handled_in_time i (answer c) h)
        (rw (e, clone_date_same c.base.occurred_at) refl)
  | inr (x, bad) ↦ absurd (no_question i c bad (handle_planned i (answer c) h).0)
]

retry_in_time :
    (i : Interview) (c : PlannedCommand) (d : Date) {p : InterviewOperationPlan}
    → retry_interview_operation i c d ≡ ok p
    → (before d i.last_effective_activity_at ≡ false)
      × (i.pending_operation ≡ none)
      × (retry_planned i c d ≡ ok p)
unfolding retry_interview_operation
retry_in_time i c d h = ground arith

pub retry-Accepted :
    (i : Interview) (c : PlannedCommand) (d : Date) {p : InterviewOperationPlan}
    → retry_interview_operation i c d ≡ ok p
    → Accepted i (planned_interview p)
unfolding retry_planned
retry-Accepted i (request_question_clarification c) d h =
    let (order, pend, made) = retry_in_time i (request_question_clarification c) d h in
    again c.operation_id question_clarification d awaiting_response (ground arith) (ground arith)
      pend clarify_question order (ground arith)
retry-Accepted i (answer c) d h =
    let (order, pend, made) = retry_in_time i (answer c) d h in
    again c.base.operation_id answer_analysis d (answer_phase c.type) (ground arith) (ground arith)
      pend (answer-Accepts c.type) order (ground arith)
