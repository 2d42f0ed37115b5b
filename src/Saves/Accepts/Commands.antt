-- ===== src/Saves/Accepts/Commands.antt =====
-- packages/db/src/repositories/transition-validation.ts: a command that took effect at once is accepted.
use interview_agent.Common.{
  ◌≡◌, refl, false, List, [], ◌∷◌, Option, none, some, ok, arith, inl, inr, Result-cases,
  Bool-cases, text_eq_refl, ◌==◌, map_ok-eq-ok,
}
use interview_agent.Interview.{ZeroScoreReason, unknown, skipped}
use interview_agent.Engine.{
  InterviewEvent, report_stored, ExistingCommand, existing, transition_result, answer,
  request_question_clarification, planned, mark_question_unknown, skip_question, continue_interview,
  end_interview_early, abandon_interview, expire_interview, record_report, CommandBase,
  RecordReportCommand, Interview, InterviewQuestionState, InterviewTransition,
}
use interview_agent.Engine.Guards.{get_current_question_state}
use interview_agent.Engine.Immediate
use interview_agent.Engine.Immediate.{
  record_unevaluated_outcome, finish_questions, next_question, abandoned_state,
}
use interview_agent.Common.{Result, map_ok}
use interview_agent.Engine.{DomainError}
use interview_agent.Engine.Handle.{dispatch, handle_interview_command}
use interview_agent.Engine.Refine.{handle_existing-cases}
use interview_agent.Engine.Theorems.WellFormed.{Reachable, Reachable-IsWellFormed}
use interview_agent.Engine.Preserve.{current_found, current-QuestionOk}
use interview_agent.Saves.{InterviewSave, ReportPersistence}
use interview_agent.Saves.Validate.{
  assert_event_identity, assert_persistence_payloads, recorded_evaluations, stored_reports,
  assert_evaluation_payload, assert_report_payload, sequence_of,
}
use interview_agent.Saves.Commands.{
  validate_unevaluated_outcome, validate_continue, validate_early_end, validate_report_stored,
  validate_abandonment, continued,
}
use interview_agent.Saves.Transitions.{validate_sequence, validate_interview_save}
use interview_agent.Saves.Accepts.{IsComparable, canonical, saved, question_found}
use interview_agent.Saves.Equal.Same.{IsDated, interview_eq-same}

-- The report that goes with a transition's events.
abbrev pub reported : List InterviewEvent → Option ReportPersistence
reported (report_stored base id kind ∷ []) =
    some (record { id = id; kind = kind; created_at = base.occurred_at })
reported _ = none

-- The save of a transition that records no evaluation.
abbrev pub save_of : Interview → InterviewTransition → InterviewSave
save_of i t = record {
  previous = i;
  current = t.interview;
  events = t.events;
  evaluations = [];
  report = reported t.events;
}

record_unevaluated_outcome-saved :
    (i : Interview) (c : CommandBase) (k : ZeroScoreReason) {t : InterviewTransition}
    → i.pending_operation ≡ none
    → record_unevaluated_outcome i c k ≡ ok t
    → IsComparable t.interview
    → validate_interview_save (save_of i t) ≡ ok tt
unfolding record_unevaluated_outcome validate_sequence validate_unevaluated_outcome sequence_of
    assert_event_identity assert_persistence_payloads recorded_evaluations stored_reports
    assert_evaluation_payload assert_report_payload
record_unevaluated_outcome-saved i c k {t} pend h comparable =
    elim (Result-cases (get_current_question_state i)) [
      | inl (q, found) ↦
          saved (save_of i t)
            (record {
              id = ground arith;
              account_id = ground arith;
              question_count = ground arith;
              blueprint = ground arith;
              created_at = ground arith;
            })
            comparable (ground (arith, text_eq_refl i.id))
            (ground
              (arith, question_found i found, canonical t.interview t.interview refl comparable))
            (ground arith)
      | inr (x, bad) ↦ absurd (ground arith)
    ]

continue_interview-saved :
    (i : Interview) (c : CommandBase) {q : InterviewQuestionState} {t : InterviewTransition}
    → i.pending_operation ≡ none
    → get_current_question_state i ≡ ok q
    → q.frozen ≡ false
    → Immediate.continue_interview i c ≡ ok t
    → IsComparable t.interview
    → validate_interview_save (save_of i t) ≡ ok tt
unfolding Immediate.continue_interview validate_continue continued validate_sequence sequence_of
    assert_event_identity assert_persistence_payloads recorded_evaluations stored_reports
    assert_evaluation_payload assert_report_payload
continue_interview-saved i c {q} {t} pend found unfrozen h comparable =
    elim (Bool-cases (i.current_question_position == i.question_count)) [
      | inl last ↦
          saved (save_of i t)
            (record {
              id = ground arith;
              account_id = ground arith;
              question_count = ground arith;
              blueprint = ground arith;
              created_at = ground arith;
            })
            comparable (ground (arith, text_eq_refl i.id))
            (ground (
              arith,
              question_found i found,
              text_eq_refl c.operation_id,
              canonical t.interview t.interview refl comparable,
            ))
            (ground arith)
      | inr more ↦
          saved (save_of i t)
            (record {
              id = ground arith;
              account_id = ground arith;
              question_count = ground arith;
              blueprint = ground arith;
              created_at = ground arith;
            })
            comparable (ground (arith, text_eq_refl i.id))
            (ground
              (arith, question_found i found, canonical t.interview t.interview refl comparable))
            (ground arith)
    ]

end_interview_early-saved :
    (i : Interview) (c : CommandBase) {t : InterviewTransition}
    → i.pending_operation ≡ none
    → Immediate.end_interview_early i c ≡ ok t
    → IsComparable t.interview
    → validate_interview_save (save_of i t) ≡ ok tt
unfolding Immediate.end_interview_early validate_early_end validate_sequence sequence_of
    assert_event_identity assert_persistence_payloads recorded_evaluations stored_reports
    assert_evaluation_payload assert_report_payload
end_interview_early-saved i c {t} pend h comparable =
    saved (save_of i t)
      (record {
        id = ground arith;
        account_id = ground arith;
        question_count = ground arith;
        blueprint = ground arith;
        created_at = ground arith;
      })
      comparable (ground (arith, text_eq_refl i.id))
      (ground (arith, canonical t.interview t.interview refl comparable)) (ground arith)

abandon_interview-saved :
    (i : Interview) (c : CommandBase) {t : InterviewTransition}
    → i.pending_operation ≡ none
    → Immediate.abandon_interview i c ≡ ok t
    → IsComparable t.interview
    → validate_interview_save (save_of i t) ≡ ok tt
unfolding Immediate.abandon_interview validate_abandonment validate_sequence sequence_of
    assert_event_identity assert_persistence_payloads recorded_evaluations stored_reports
    assert_evaluation_payload assert_report_payload
abandon_interview-saved i c {t} pend h comparable =
    saved (save_of i t)
      (record {
        id = ground arith;
        account_id = ground arith;
        question_count = ground arith;
        blueprint = ground arith;
        created_at = ground arith;
      })
      comparable (ground (arith, text_eq_refl i.id))
      (ground (arith, canonical t.interview t.interview refl comparable)) (ground arith)

expire_interview-saved :
    (i : Interview) (c : CommandBase) {t : InterviewTransition}
    → i.pending_operation ≡ none
    → Immediate.expire_interview i c ≡ ok t
    → IsComparable t.interview
    → validate_interview_save (save_of i t) ≡ ok tt
unfolding Immediate.expire_interview validate_abandonment validate_sequence sequence_of
    assert_event_identity assert_persistence_payloads recorded_evaluations stored_reports
    assert_evaluation_payload assert_report_payload
expire_interview-saved i c {t} pend h comparable =
    saved (save_of i t)
      (record {
        id = ground arith;
        account_id = ground arith;
        question_count = ground arith;
        blueprint = ground arith;
        created_at = ground arith;
      })
      comparable (ground (arith, text_eq_refl i.id))
      (ground (arith, canonical t.interview t.interview refl comparable)) (ground arith)

record_report-saved :
    (i : Interview) (c : RecordReportCommand) {t : InterviewTransition}
    → Immediate.record_report i c ≡ ok t
    → IsComparable t.interview
    → validate_interview_save (save_of i t) ≡ ok tt
unfolding Immediate.record_report validate_report_stored validate_sequence sequence_of
    assert_event_identity assert_persistence_payloads recorded_evaluations stored_reports
    assert_evaluation_payload assert_report_payload
record_report-saved i c {t} h comparable =
    saved (save_of i t)
      (record {
        id = ground arith;
        account_id = ground arith;
        question_count = ground arith;
        blueprint = ground arith;
        created_at = ground arith;
      })
      comparable (ground (arith, text_eq_refl i.id))
      (ground (arith, canonical t.interview t.interview refl comparable))
      (ground (arith, text_eq_refl c.report_id))

pub transition_of :
    {m : Result DomainError InterviewTransition} {t : InterviewTransition}
    → map_ok transition_result m ≡ ok (transition_result t)
    → m ≡ ok t
transition_of {m} h = elim (Result-cases m) [
  | inl (u, e) ↦ ground arith
  | inr (x, e) ↦ absurd (ground arith)
]

-- The current question of a reachable interview that can be continued is not frozen.
continued_question :
    (i : Interview) (c : CommandBase) {t : InterviewTransition}
    → Reachable i
    → Immediate.continue_interview i c ≡ ok t
    → (q : InterviewQuestionState) × (get_current_question_state i ≡ ok q) × (q.frozen ≡ false)
unfolding Immediate.continue_interview
continued_question i c r h = elim (Result-cases (get_current_question_state i)) [
  | inl (q, found) ↦ (
    q,
    found,
    (current-QuestionOk i q (Reachable-IsWellFormed r) found).current_open (ground arith)
        (current_found i q found).1,
  )
  | inr (x, bad) ↦ absurd (ground arith)
]

-- The transition of a command, in an interview that can go on.
dispatch-saved :
    (i : Interview) (c : ExistingCommand) {t : InterviewTransition}
    → Reachable i
    → i.pending_operation ≡ none
    → dispatch i c ≡ ok (transition_result t)
    → IsComparable t.interview
    → validate_interview_save (save_of i t) ≡ ok tt
unfolding dispatch
dispatch-saved i (planned (answer c)) r pend h comparable =
    let (p, e, f) = map_ok-eq-ok _ _ h in absurd (cc)
dispatch-saved i (planned (request_question_clarification c)) r pend h comparable =
    let (p, e, f) = map_ok-eq-ok _ _ h in absurd (cc)
dispatch-saved i (mark_question_unknown c) r pend h comparable =
    record_unevaluated_outcome-saved i c unknown pend (transition_of h) comparable
dispatch-saved i (skip_question c) r pend h comparable =
    record_unevaluated_outcome-saved i c skipped pend (transition_of h) comparable
dispatch-saved i (continue_interview c) r pend h comparable =
    let (q, found, unfrozen) = continued_question i c r (transition_of h) in
    continue_interview-saved i c pend found unfrozen (transition_of h) comparable
dispatch-saved i (end_interview_early c) r pend h comparable =
    end_interview_early-saved i c pend (transition_of h) comparable
dispatch-saved i (abandon_interview c) r pend h comparable =
    abandon_interview-saved i c pend (transition_of h) comparable
dispatch-saved i (expire_interview c) r pend h comparable =
    expire_interview-saved i c pend (transition_of h) comparable
dispatch-saved i (record_report c) r pend h comparable =
    record_report-saved i c (transition_of h) comparable

-- The repository's guard accepts what any command but an acceptance does to a reachable interview, if it
-- has no pending operation and all dates of the interview that the command leaves are valid.
pub handle-saved :
    (i : Interview) (c : ExistingCommand) {t : InterviewTransition}
    → Reachable i
    → i.pending_operation ≡ none
    → handle_interview_command (some i) (existing c) ≡ ok (transition_result t)
    → IsDated t.interview
    → validate_interview_save (save_of i t) ≡ ok tt
unfolding handle_interview_command
handle-saved i c {t} r pend h dated =
    let comparable = interview_eq-same t.interview dated in
    elim (handle_existing-cases i c h) [
      | inl e ↦ dispatch-saved i c r pend e comparable
      | inr e ↦ expire_interview-saved i _ pend (transition_of e) comparable
    ]
