-- ===== src/Saves/Accepts/Eventless.antt =====
-- packages/db/src/repositories/transition-validation.ts: a change without events is accepted.
use interview_agent.Common.{
  ℕ, ◌≡◌, refl, true, Option, none, some, ok, arith, inl, inr, Option-cases, is_some, text_eq_refl,
  is_valid, Text, Date, clone_date, before,
}
use interview_agent.Interview.{InterviewStatus, ReportKind, report_pending, active}
use interview_agent.Engine.{
  PlannedCommand, planned, existing, plan_result, Interview, InterviewOperationPlan,
}
use interview_agent.Engine.Plans.{
  retry_interview_operation, refresh_interview_operation, refresh_report_retry_activity,
}
use interview_agent.Engine.Accepted.{cancel_interview_operation}
use interview_agent.Engine.Handle.{handle_interview_command}
use interview_agent.Engine.Refine.{planned_interview}
use interview_agent.Engine.Theorems.WellFormed.{Reachable, Reachable-IsWellFormed}
use interview_agent.Interview.{InterviewPhase, processing}
use interview_agent.Engine.{PendingInterviewOperation}
use interview_agent.Engine.Invariant.{IsWellFormed, Fields}
use interview_agent.Engine.Preserve.Steps.{IsPending-Fields}
use interview_agent.Saves.Eventless.{
  validate_eventless_transition, validate_pending_change, validate_refresh,
}
use interview_agent.Saves.Transitions.{validate_interview_save}
use interview_agent.Saves.Accepts.{IsComparable, canonical, clone_date_same}
use interview_agent.Saves.Accepts.Acceptance.{
  quiet_save, quiet, phase_eq_same, operation_eq_same, Accepted-saved, handled-Accepted,
  retry-Accepted,
}
use interview_agent.Saves.Equal.Same.{IsDated, interview_eq-same}

cancel_interview_operation-saved :
    (i : Interview) (p : InterviewOperationPlan) {j : Interview}
    → cancel_interview_operation i p ≡ ok j
    → IsComparable j
    → validate_interview_save (quiet_save i j) ≡ ok tt
unfolding cancel_interview_operation validate_eventless_transition validate_pending_change
cancel_interview_operation-saved i p {j} h comparable = elim (Option-cases i.pending_operation) [
  | inl e ↦ absurd (ground arith)
  | inr (pending, e) ↦
      quiet i j
        (record {
          id = ground arith;
          account_id = ground arith;
          question_count = ground arith;
          blueprint = ground arith;
          created_at = ground arith;
        })
        comparable (ground (arith, canonical j j refl comparable))
]

-- The last activity of an interview with a pending operation is its acceptance.
pending_last :
    (i : Interview) (p : PendingInterviewOperation)
    → IsWellFormed i
    → i.status ≡ active
    → i.phase ≡ some processing
    → i.pending_operation ≡ some p
    → i.last_effective_activity_at ≡ p.accepted_at
pending_last i p w act ph pend = (IsPending-Fields i w act ph p pend).0.is_last_activity

refresh_interview_operation-saved :
    (i : Interview) (op : Text) (d : Date) {j : Interview}
    → Reachable i
    → refresh_interview_operation i op d ≡ ok j
    → IsComparable j
    → validate_interview_save (quiet_save i j) ≡ ok tt
unfolding refresh_interview_operation validate_eventless_transition validate_pending_change
    validate_refresh
refresh_interview_operation-saved i op d {j} r h comparable =
    elim (Option-cases i.pending_operation) [
      | inl e ↦ absurd (ground arith)
      | inr (pending, e) ↦
          let last =
            pending_last i pending (Reachable-IsWellFormed r) (ground arith) (ground arith) e in
          quiet i j
            (record {
              id = ground arith;
              account_id = ground arith;
              question_count = ground arith;
              blueprint = ground arith;
              created_at = ground arith;
            })
            comparable
            (ground (
              arith,
              clone_date_same d,
              clone_date_same (clone_date d),
              phase_eq_same pending.previous_phase,
              operation_eq_same pending.operation,
              text_eq_refl pending.operation_id,
              last,
              canonical j j refl comparable,
            ))
    ]

of_Fields :
    (n : ℕ) (d : Date) (s : InterviewStatus) (ph : Option InterviewPhase)
    (p : Option PendingInterviewOperation) (k : Option ReportKind) (r : Option Date)
    (id : Option Text)
    → Fields n d s ph p k r id
    → s ≡ report_pending
    → (ph ≡ none) × (p ≡ none) × (is_some k ≡ true) × (is_some r ≡ true) × (id ≡ none)
of_Fields n d s ph p k r id f e = ground arith

-- The optional fields of an interview that awaits its report.
report_pending_fields :
    (i : Interview)
    → IsWellFormed i
    → i.status ≡ report_pending
    → (i.phase ≡ none)
      × (i.pending_operation ≡ none)
      × (is_some i.pending_report_kind ≡ true)
      × (is_some i.report_requested_at ≡ true)
      × (i.report_id ≡ none)
report_pending_fields i w st =
    of_Fields i.current_question_position i.last_effective_activity_at i.status i.phase
      i.pending_operation i.pending_report_kind i.report_requested_at i.report_id w.fields st

report_retried :
    (i : Interview) (d : Date) {j : Interview}
    → refresh_report_retry_activity i d ≡ ok j
    → i.status ≡ report_pending
unfolding refresh_report_retry_activity
report_retried i d h = ground arith

report_advanced :
    (i : Interview) (d : Date) {j : Interview}
    → is_valid i.last_effective_activity_at ≡ true
    → refresh_report_retry_activity i d ≡ ok j
    → before i.last_effective_activity_at d ≡ true
unfolding refresh_report_retry_activity
report_advanced i d valid h = ground arith

refresh_report_retry_activity-saved :
    (i : Interview) (d : Date) {j : Interview}
    → Reachable i
    → refresh_report_retry_activity i d ≡ ok j
    → IsComparable j
    → validate_interview_save (quiet_save i j) ≡ ok tt
unfolding refresh_report_retry_activity validate_eventless_transition
refresh_report_retry_activity-saved i d {j} r h comparable =
    let st = report_retried i d h in
    quiet i j
      (record {
        id = ground arith;
        account_id = ground arith;
        question_count = ground arith;
        blueprint = ground arith;
        created_at = ground arith;
      })
      comparable
      (ground (
        arith,
        clone_date_same d,
        clone_date_same (clone_date d),
        report_advanced i d (Reachable-IsWellFormed r).active_valid h,
        report_pending_fields i (Reachable-IsWellFormed r) st,
        canonical j j refl comparable,
      ))

-- A change that the engine makes without events: the acceptance of an operation, its retry, refresh or
-- cancellation, and the refresh for a report that is retried.
pub data Quiet (i : Interview) : Interview → Type 0 where
  planned_first :
      {j : Interview} (c : PlannedCommand) {p : InterviewOperationPlan}
      → handle_interview_command (some i) (existing (planned c)) ≡ ok (plan_result p)
      → j ≡ planned_interview p
      → Quiet i j
  planned_again :
      {j : Interview} (c : PlannedCommand) (d : Date) {p : InterviewOperationPlan}
      → retry_interview_operation i c d ≡ ok p
      → j ≡ planned_interview p
      → Quiet i j
  operation_refreshed :
      {j : Interview} (op : Text) (d : Date) → refresh_interview_operation i op d ≡ ok j → Quiet i j
  operation_cancelled :
      {j : Interview} (p : InterviewOperationPlan)
      → cancel_interview_operation i p ≡ ok j
      → Quiet i j
  report_refreshed :
      {j : Interview} (d : Date) → refresh_report_retry_activity i d ≡ ok j → Quiet i j

-- The repository's guard accepts, without events or payloads, every change that the engine makes
-- without events to a reachable interview, if all dates of the interview that it leaves are valid.
pub Quiet-saved :
    {i j : Interview}
    → Reachable i
    → Quiet i j
    → IsDated j
    → validate_interview_save (quiet_save i j) ≡ ok tt
Quiet-saved {i} {j} r (planned_first c h e) dated =
    Accepted-saved (rw e (handled-Accepted i c h)) (interview_eq-same j dated)
Quiet-saved {i} {j} r (planned_again c d h e) dated =
    Accepted-saved (rw e (retry-Accepted i c d h)) (interview_eq-same j dated)
Quiet-saved {i} {j} r (operation_refreshed op d h) dated =
    refresh_interview_operation-saved i op d r h (interview_eq-same j dated)
Quiet-saved {i} {j} r (operation_cancelled p h) dated =
    cancel_interview_operation-saved i p h (interview_eq-same j dated)
Quiet-saved {i} {j} r (report_refreshed d h) dated =
    refresh_report_retry_activity-saved i d r h (interview_eq-same j dated)
