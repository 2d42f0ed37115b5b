-- ===== src/Engine/Theorems/Lifecycle.antt =====
-- packages/domain/src/engine.ts: how calls move an interview through its statuses and versions.
use interview_agent.Common.{◌≡◌, List, [], ◌∷◌, arith, true, All, is_some, length}
use interview_agent.Interview.{
  InterviewStatus, active, report_pending, completed, early_ended, abandoned,
  is_terminal_interview_status, ReportKind, complete, incomplete,
}
use interview_agent.Engine.{Interview, InterviewQuestionState}
use interview_agent.Engine.Guards.{advance_version, replace_current_question}
use interview_agent.Engine.Plans.{accept_operation, accept_retried_operation}
use interview_agent.Engine.Immediate.{
  finish_questions, next_question, abandoned_state, reported_status,
}
use interview_agent.Engine.Invariant.{QuestionOk}
use interview_agent.Engine.Step.{
  Step, accept, accept_again, refresh, cancel, revise, mark, move_on, finish, end_early, abandon,
  expire_accepted, report, retry_report,
}
use interview_agent.Engine.Theorems.WellFormed.{Call, Call-Step, Reachable, Reachable-IsWellFormed}

-- The diagram of statuses.
infix 40 ◌⟶◌
pub data ◌⟶◌ : InterviewStatus → InterviewStatus → Type 0 where
  stay_active : active ⟶ active
  stay_pending : report_pending ⟶ report_pending
  ask : active ⟶ report_pending
  give_up : active ⟶ abandoned
  store_complete : report_pending ⟶ completed
  store_incomplete : report_pending ⟶ early_ended

stored : (kind : ReportKind) → report_pending ⟶ reported_status kind
stored complete = store_complete
stored incomplete = store_incomplete

Step-⟶ : {i j : Interview} → Step i j → i.status ⟶ j.status
unfolding accept_operation accept_retried_operation advance_version replace_current_question
    finish_questions next_question abandoned_state
Step-⟶ (accept op name d prev act ph acc vd e) = rw (e, act) stay_active
Step-⟶ (accept_again op name d prev act ph acc vd e) = rw (e, act) stay_active
Step-⟶ (refresh d p act ph pend vd e) = rw (e, act) stay_active
Step-⟶ (cancel p act ph pend e) = rw (e, act) stay_active
Step-⟶ (revise q q' next act ph found r e) = rw (e, act) stay_active
Step-⟶ (mark q reason d act ph found vd e) = rw (e, act) stay_active
Step-⟶ (move_on q d act ph found out more vd e) = rw (e, act) stay_active
Step-⟶ (finish q d act ph found out last vd e) = rw (e, act) ask
Step-⟶ (end_early d act out vd e) = rw (e, act) ask
Step-⟶ (abandon act e) = rw (e, act) give_up
Step-⟶ (expire_accepted act e) = rw (e, act) give_up
Step-⟶ (report id kind st k e) = rw (e, st) (stored kind)
Step-⟶ (retry_report d st vd e) = rw (e, st) stay_pending

-- Every call of the engine moves the status along an edge of the diagram: from active it stays, asks
-- for a report, or gives the interview up; from report_pending it stays or stores the report.
pub Call-⟶ : {i j : Interview} → Call i j → i.status ⟶ j.status
Call-⟶ call = Step-⟶ (Call-Step call)

terminal_stuck : {s t : InterviewStatus} → s ⟶ t → is_terminal_interview_status s ≡ true → ⊥
unfolding is_terminal_interview_status
terminal_stuck stay_active h = cc
terminal_stuck stay_pending h = cc
terminal_stuck ask h = cc
terminal_stuck give_up h = cc
terminal_stuck store_complete h = cc
terminal_stuck store_incomplete h = cc

-- A terminal interview is read-only: no call of the engine on it returns an interview.
pub terminal_refuses : {i j : Interview} → is_terminal_interview_status i.status ≡ true → ¬ Call i j
terminal_refuses h call = terminal_stuck (Call-⟶ call) h

complete_questions :
    (i : Interview) (qs : List InterviewQuestionState)
    → i.status ≡ completed
    → All (QuestionOk i) qs
    → All (λ q. (q.frozen ≡ true) × (is_some q.outcome ≡ true)) qs
complete_questions i [] st h = tt
complete_questions i (q ∷ qs) st h =
    ((ground (arith, h.0), ground (arith, h.0)), complete_questions i qs st h.1)

-- A completed interview that the engine can reach has as many questions as it was created for, and
-- every one of them is frozen with an outcome.
pub completed_answers_each :
    {i : Interview}
    → Reachable i
    → i.status ≡ completed
    → (length i.questions ≡ i.question_count)
      × All (λ q. (q.frozen ≡ true) × (is_some q.outcome ≡ true)) i.questions
completed_answers_each {i} r st =
    let w = Reachable-IsWellFormed r in
    (w.counted, complete_questions i i.questions st w.questions_ok)
