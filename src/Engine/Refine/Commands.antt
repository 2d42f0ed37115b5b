-- ===== src/Engine/Refine/Commands.antt =====
-- packages/domain/src/engine.ts: an immediate command is one of the changes.
use interview_agent.Common.{◌≡◌, inl, inr, ok, Result-cases, Bool-cases, arith, ◌==◌}
use interview_agent.Interview.{ZeroScoreReason}
use interview_agent.Engine.{CommandBase, RecordReportCommand, Interview, InterviewTransition}
use interview_agent.Engine.Guards.{get_current_question_state}
use interview_agent.Engine.Immediate
use interview_agent.Engine.Immediate.{record_unevaluated_outcome}
use interview_agent.Engine.Step.{Step, mark, move_on, finish, end_early, abandon, report}

pub record_unevaluated_outcome-Step :
    (i : Interview) (c : CommandBase) (reason : ZeroScoreReason) {t : InterviewTransition}
    → record_unevaluated_outcome i c reason ≡ ok t
    → Step i t.interview
unfolding record_unevaluated_outcome
record_unevaluated_outcome-Step i c reason h = elim (Result-cases (get_current_question_state i)) [
  | inl (q, found) ↦
      mark q reason c.occurred_at (ground arith) (ground arith) found (ground arith) (ground arith)
  | inr (x, bad) ↦ absurd (ground arith)
]

pub continue_interview-Step :
    (i : Interview) (c : CommandBase) {t : InterviewTransition}
    → Immediate.continue_interview i c ≡ ok t
    → Step i t.interview
unfolding Immediate.continue_interview
continue_interview-Step i c h = elim (Result-cases (get_current_question_state i)) [
  | inl (q, found) ↦ elim (Bool-cases (i.current_question_position == i.question_count)) [
    | inl last ↦
        finish q c.occurred_at (ground arith) (ground arith) found (ground arith) (ground arith)
          (ground arith) (ground arith)
    | inr more ↦
        move_on q c.occurred_at (ground arith) (ground arith) found (ground arith) (ground arith)
          (ground arith) (ground arith)
  ]
  | inr (x, bad) ↦ absurd (ground arith)
]

pub end_interview_early-Step :
    (i : Interview) (c : CommandBase) {t : InterviewTransition}
    → Immediate.end_interview_early i c ≡ ok t
    → Step i t.interview
unfolding Immediate.end_interview_early
end_interview_early-Step i c h =
    end_early c.occurred_at (ground arith) (ground arith) (ground arith) (ground arith)

pub abandon_interview-Step :
    (i : Interview) (c : CommandBase) {t : InterviewTransition}
    → Immediate.abandon_interview i c ≡ ok t
    → Step i t.interview
unfolding Immediate.abandon_interview
abandon_interview-Step i c h = abandon (ground arith) (ground arith)

pub expire_interview-Step :
    (i : Interview) (c : CommandBase) {t : InterviewTransition}
    → Immediate.expire_interview i c ≡ ok t
    → Step i t.interview
unfolding Immediate.expire_interview
expire_interview-Step i c h = abandon (ground arith) (ground arith)

pub record_report-Step :
    (i : Interview) (c : RecordReportCommand) {t : InterviewTransition}
    → Immediate.record_report i c ≡ ok t
    → Step i t.interview
unfolding Immediate.record_report
record_report-Step i c h =
    report c.report_id c.report_kind (ground arith) (ground arith) (ground arith)
