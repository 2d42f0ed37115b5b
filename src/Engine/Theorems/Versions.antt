-- ===== src/Engine/Theorems/Versions.antt =====
-- packages/domain/src/engine.ts: versions, and what a command does to an interview that has expired.
use interview_agent.Common.{
  refl, ◌⊎◌, ◌&&◌, not, is_some, before, exceeds, Bool-cases, clone_date, none, ◌+◌, ◌≡◌, some, [],
  ◌∷◌, ok, arith, true, false, inl, inr, map_ok-eq-ok, subst, is_valid, text_eq,
}
use interview_agent.Interview.{unknown, skipped, ZeroScoreReason, active, abandoned, is_active}
use interview_agent.Engine.{
  CommandBase, ExistingCommand, existing, planned, answer, request_question_clarification,
  mark_question_unknown, skip_question, continue_interview, end_interview_early, abandon_interview,
  expire_interview, record_report, AnswerCommand, Interview, InterviewTransition,
  InterviewOperationPlan, InterviewCommandResult, transition_result, plan_result,
  interview_abandoned, expired,
}
use interview_agent.Engine.Guards.{advance_version, inactivity_limit_ms}
use interview_agent.Engine.Plans.{
  accept_operation, plan_answer_analysis, plan_question_clarification,
}
use interview_agent.Engine.Immediate.{
  finish_questions, next_question, abandoned_state, reported_status, event_base,
  record_unevaluated_outcome,
}
use interview_agent.Engine.Immediate
use interview_agent.Engine.Handle.{
  handle_interview_command, handle_existing, handle_current, dispatch, command_base,
  is_expire_command,
}
use interview_agent.Engine.Refine.{result_interview, planned_interview, handle_existing-cases}

record_unevaluated_outcome-version :
    (i : Interview) (c : CommandBase) (k : ZeroScoreReason) {t : InterviewTransition}
    → record_unevaluated_outcome i c k ≡ ok t
    → t.interview.version ≡ i.version + 1
unfolding record_unevaluated_outcome
record_unevaluated_outcome-version i c k h = ground arith

continue_interview-version :
    (i : Interview) (c : CommandBase) {t : InterviewTransition}
    → Immediate.continue_interview i c ≡ ok t
    → t.interview.version ≡ i.version + 1
unfolding Immediate.continue_interview
continue_interview-version i c h = ground arith

plan_answer_analysis-version :
    (i : Interview) (c : AnswerCommand) {p : InterviewOperationPlan}
    → plan_answer_analysis i c ≡ ok p
    → (planned_interview p).version ≡ i.version + 1
unfolding plan_answer_analysis accept_operation
plan_answer_analysis-version i c h = ground arith

dispatch-version :
    (i : Interview) (c : ExistingCommand) {r : InterviewCommandResult}
    → dispatch i c ≡ ok r
    → (result_interview r).version ≡ i.version + 1
unfolding dispatch Immediate.end_interview_early Immediate.abandon_interview
    Immediate.expire_interview Immediate.record_report plan_question_clarification accept_operation
dispatch-version i (planned (answer c)) h =
    let (p, e, f) = map_ok-eq-ok plan_result _ h in
    subst (λ r. (result_interview r).version ≡ i.version + 1) f (plan_answer_analysis-version i c e)
dispatch-version i (planned (request_question_clarification c)) h = ground arith
dispatch-version i (mark_question_unknown c) h =
    let (t, e, f) = map_ok-eq-ok transition_result _ h in
    subst (λ r. (result_interview r).version ≡ i.version + 1) f
      (record_unevaluated_outcome-version i c unknown e)
dispatch-version i (skip_question c) h =
    let (t, e, f) = map_ok-eq-ok transition_result _ h in
    subst (λ r. (result_interview r).version ≡ i.version + 1) f
      (record_unevaluated_outcome-version i c skipped e)
dispatch-version i (continue_interview c) h =
    let (t, e, f) = map_ok-eq-ok transition_result _ h in
    subst (λ r. (result_interview r).version ≡ i.version + 1) f (continue_interview-version i c e)
dispatch-version i (end_interview_early c) h = ground arith
dispatch-version i (abandon_interview c) h = ground arith
dispatch-version i (expire_interview c) h = ground arith
dispatch-version i (record_report c) h = ground arith

-- Every command that `handleInterviewCommand` accepts on an existing interview, also one that expires
-- it, raises the version by exactly one.
pub handle-version :
    (i : Interview) (c : ExistingCommand) {r : InterviewCommandResult}
    → handle_interview_command (some i) (existing c) ≡ ok r
    → (result_interview r).version ≡ i.version + 1
unfolding handle_interview_command Immediate.expire_interview
handle-version i c h = elim (handle_existing-cases i c h) [
  | inl e ↦ dispatch-version i c e
  | inr e ↦ ground arith
]

handle_current_checks :
    (i : Interview) (c : ExistingCommand) {r : InterviewCommandResult}
    → handle_current i c ≡ ok r
    → ((command_base c).expected_version ≡ i.version)
      × (before (command_base c).occurred_at i.last_effective_activity_at ≡ false)
      × (is_some i.pending_operation && not (is_expire_command c) ≡ false)
unfolding handle_current
handle_current_checks i c h = (ground arith, ground arith, ground arith)

-- A command that `handleInterviewCommand` accepts on an existing interview names that interview and has a
-- valid date. Beyond that, either it names the interview's version, is not dated before the last effective
-- activity and finds no pending operation unless it is `expire_interview`; or the interview was active,
-- the command's date is more than 24 hours after the last effective activity, and the interview is
-- abandoned.
pub accepted_checks :
    (i : Interview) (c : ExistingCommand) {r : InterviewCommandResult}
    → handle_interview_command (some i) (existing c) ≡ ok r
    → (text_eq (command_base c).interview_id i.id ≡ true)
      × (is_valid (command_base c).occurred_at ≡ true)
      × (((command_base c).expected_version ≡ i.version)
            × (before (command_base c).occurred_at i.last_effective_activity_at ≡ false)
            × (is_some i.pending_operation && not (is_expire_command c) ≡ false)
          ⊎ (i.status ≡ active)
            × (exceeds (command_base c).occurred_at i.last_effective_activity_at inactivity_limit_ms
                ≡ true)
            × ((result_interview r).status ≡ abandoned))
unfolding handle_interview_command handle_existing Immediate.expire_interview abandoned_state
accepted_checks i c {r} h = (
  ground arith,
  ground arith,
  elim (Bool-cases (
      is_active i.status
      && not (is_expire_command c)
      && exceeds (command_base c).occurred_at i.last_effective_activity_at inactivity_limit_ms)) [
        | inl late ↦ inr (ground arith, ground arith, ground arith)
        | inr in_time ↦ inl (handle_current_checks i c {r = r} (ground arith))
      ],
)

-- Any command that names an active interview and has a valid date more than 24 hours after its last
-- effective activity abandons it, whatever the command asks for, whatever operation is pending and, but
-- for `expire_interview`, whatever version the command names. The version rises by one, and the one event
-- has the command's operation and date and the reason "expired".
pub expired_abandons :
    (i : Interview) (c : ExistingCommand)
    → text_eq (command_base c).interview_id i.id ≡ true
    → is_valid (command_base c).occurred_at ≡ true
    → i.status ≡ active
    → exceeds (command_base c).occurred_at i.last_effective_activity_at inactivity_limit_ms ≡ true
    → (is_expire_command c ≡ true → (command_base c).expected_version ≡ i.version)
    → handle_interview_command (some i) (existing c)
      ≡ ok (
          transition_result (record {
            interview = record i {
              version = i.version + 1;
              status = abandoned;
              phase = none;
              pending_operation = none;
              pending_report_kind = none;
              report_requested_at = none;
            };
            events =
                interview_abandoned
                  (record {
                    interview_id = i.id;
                    operation_id = (command_base c).operation_id;
                    occurred_at = clone_date (command_base c).occurred_at;
                  })
                  expired
                ∷ [];
          }))
unfolding handle_interview_command handle_existing handle_current dispatch
    Immediate.expire_interview abandoned_state advance_version
expired_abandons i (expire_interview c) same valid act late version =
    let current = version refl in ground arith
expired_abandons i c same valid act late version = ground arith
