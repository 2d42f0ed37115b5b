-- ===== src/Engine/Step.antt =====
-- packages/domain/src/engine.ts: the changes that an interview can undergo, as a relation. It leaves
-- out identities, events and the order of the checks.
use interview_agent.Common.{
  ◌≡◌, ◌≢◌, true, false, none, some, [], ◌∷◌, ◌++◌, Text, Date, is_valid, is_some, clone_date,
}
use interview_agent.Interview.{
  InterviewPhase, active, report_pending, awaiting_response, awaiting_continue, processing,
  ReportKind, incomplete, ZeroScoreReason, AnswerMaterial, QuestionEvaluation,
}
use interview_agent.Scoring.{create_zero_question_outcome}
use interview_agent.Engine.{
  Interview, InterviewQuestionState, OperationName, PendingInterviewOperation,
  QuestionClarification, RecordSystemFollowUpCommand,
}
use interview_agent.Common.{ok}
use interview_agent.Engine.Guards.{
  get_current_question_state, replace_current_question, advance_version,
}
use interview_agent.Engine.Plans.{accept_operation, accept_retried_operation}
use interview_agent.Engine.Immediate.{
  finish_questions, next_question, has_outcome, abandoned_state, reported_status,
}
use interview_agent.Engine.Validation.{uses_kind}
use interview_agent.Engine.Completion.{followed_up, evaluated}
use interview_agent.Engine.Invariant.{Accepts}

-- What a completion does to the current question, and the phase that follows.
pub data Revision (q : InterviewQuestionState)
    : InterviewQuestionState → InterviewPhase → Type 0 where
  clarified :
      {q' : InterviewQuestionState} (c : QuestionClarification)
      → q' ≡ record q { question_clarifications = q.question_clarifications ++ c ∷ [] }
      → Revision q q' awaiting_response
  follow_up :
      {q' : InterviewQuestionState} (m : AnswerMaterial) (c : RecordSystemFollowUpCommand)
      → uses_kind q c.kind ≡ false
      → q' ≡ followed_up q m c
      → Revision q q' awaiting_response
  evaluation :
      {q' : InterviewQuestionState} (m : AnswerMaterial) (e : QuestionEvaluation)
      → q' ≡ evaluated q m e
      → Revision q q' awaiting_continue

pub data Step (i : Interview) : Interview → Type 0 where
  accept :
      {j : Interview} (op : Text) (name : OperationName) (d : Date) (prev : InterviewPhase)
      → i.status ≡ active
      → i.phase ≡ some prev
      → Accepts name prev
      → is_valid d ≡ true
      → j ≡ accept_operation i op name d prev
      → Step i j
  accept_again :
      {j : Interview} (op : Text) (name : OperationName) (d : Date) (prev : InterviewPhase)
      → i.status ≡ active
      → i.phase ≡ some prev
      → Accepts name prev
      → is_valid d ≡ true
      → j ≡ accept_retried_operation i op name d prev
      → Step i j
  refresh :
      {j : Interview} (d : Date) (p : PendingInterviewOperation)
      → i.status ≡ active
      → i.phase ≡ some processing
      → i.pending_operation ≡ some p
      → is_valid d ≡ true
      → j ≡ record i {
        pending_operation = some (record p { accepted_at = clone_date d });
        last_effective_activity_at = clone_date d;
      }
      → Step i j
  cancel :
      {j : Interview} (p : PendingInterviewOperation)
      → i.status ≡ active
      → i.phase ≡ some processing
      → i.pending_operation ≡ some p
      → j ≡ record i { phase = some p.previous_phase; pending_operation = none }
      → Step i j
  revise :
      {j : Interview} (q q' : InterviewQuestionState) (next : InterviewPhase)
      → i.status ≡ active
      → i.phase ≡ some processing
      → get_current_question_state i ≡ ok q
      → Revision q q' next
      → j ≡ record (replace_current_question i q') { phase = some next; pending_operation = none }
      → Step i j
  mark :
      {j : Interview} (q : InterviewQuestionState) (reason : ZeroScoreReason) (d : Date)
      → i.status ≡ active
      → i.phase ≡ some awaiting_response
      → get_current_question_state i ≡ ok q
      → is_valid d ≡ true
      → j
        ≡ advance_version
            (record (replace_current_question i (record q {
              evaluation = none;
              outcome = some (create_zero_question_outcome reason);
            })) { phase = some awaiting_continue; last_effective_activity_at = clone_date d })
      → Step i j
  move_on :
      {j : Interview} (q : InterviewQuestionState) (d : Date)
      → i.status ≡ active
      → i.phase ≡ some awaiting_continue
      → get_current_question_state i ≡ ok q
      → is_some q.outcome ≡ true
      → i.current_question_position ≢ i.question_count
      → is_valid d ≡ true
      → j ≡ advance_version (next_question i (record q { frozen = true }) d)
      → Step i j
  finish :
      {j : Interview} (q : InterviewQuestionState) (d : Date)
      → i.status ≡ active
      → i.phase ≡ some awaiting_continue
      → get_current_question_state i ≡ ok q
      → is_some q.outcome ≡ true
      → i.current_question_position ≡ i.question_count
      → is_valid d ≡ true
      → j ≡ advance_version (finish_questions i (record q { frozen = true }) d)
      → Step i j
  end_early :
      {j : Interview} (d : Date)
      → i.status ≡ active
      → has_outcome i.questions ≡ true
      → is_valid d ≡ true
      → j
        ≡ advance_version (record i {
          status = report_pending;
          phase = none;
          pending_operation = none;
          pending_report_kind = some incomplete;
          report_requested_at = some (clone_date d);
          last_effective_activity_at = clone_date d;
        })
      → Step i j
  abandon : {j : Interview} → i.status ≡ active → j ≡ advance_version (abandoned_state i) → Step i j
  expire_accepted : {j : Interview} → i.status ≡ active → j ≡ abandoned_state i → Step i j
  report :
      {j : Interview} (id : Text) (kind : ReportKind)
      → i.status ≡ report_pending
      → i.pending_report_kind ≡ some kind
      → j
        ≡ advance_version (record i {
          status = reported_status kind;
          pending_operation = none;
          pending_report_kind = none;
          report_id = some id;
        })
      → Step i j
  retry_report :
      {j : Interview} (d : Date)
      → i.status ≡ report_pending
      → is_valid d ≡ true
      → j ≡ record i { last_effective_activity_at = clone_date d }
      → Step i j
