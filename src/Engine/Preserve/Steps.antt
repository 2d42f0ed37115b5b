-- ===== src/Engine/Preserve/Steps.antt =====
-- packages/domain/src/engine.ts: every change keeps an interview well-formed.
use interview_agent.Common.{
  ℕ, ◌≡◌, refl, true, Option, none, some, is_some, Date, is_valid, Text, arith, ok, clone_date, ◌≢◌,
}
use interview_agent.Interview.{
  InterviewStatus, active, report_pending, InterviewPhase, awaiting_response, processing,
  awaiting_continue, ReportKind, incomplete, QuestionOutcome,
}
use interview_agent.Engine.{
  Interview, OperationName, InterviewQuestionState, PendingInterviewOperation,
}
use interview_agent.Engine.Guards.{
  get_current_question_state, replace_current_question, advance_version,
}
use interview_agent.Engine.Plans.{accept_operation}
use interview_agent.Engine.Immediate.{
  finish_questions, next_question, abandoned_state, reported_status,
}
use interview_agent.Engine.Completion.{followed_up, evaluated}
use interview_agent.Engine.Invariant.{
  Accepts, IsWellFormed, Fields, IsPending, analyse_answer, analyse_supplement, clarify_question,
}
use interview_agent.Engine.Step.{
  Step, accept, accept_again, refresh, cancel, revise, mark, move_on, finish, end_early, abandon,
  expire_accepted, report, retry_report, Revision, clarified, follow_up, evaluation,
}
use interview_agent.Scoring.{create_zero_question_outcome}
use interview_agent.Engine.Preserve.{
  current_found, current-QuestionOk, keep-IsWellFormed, replace-IsWellFormed, active_fields,
  retried-IsWellFormed,
}
use interview_agent.Engine.Preserve.Questions.{revised-QuestionOk}

abbrev refreshed : Interview → PendingInterviewOperation → Date → Interview
refreshed i p d = record i {
  pending_operation = some (record p { accepted_at = clone_date d });
  last_effective_activity_at = clone_date d;
}

abbrev ended_early : Interview → Date → Interview
ended_early i d = advance_version (record i {
  status = report_pending;
  phase = none;
  pending_operation = none;
  pending_report_kind = some incomplete;
  report_requested_at = some (clone_date d);
  last_effective_activity_at = clone_date d;
})

Fields-processing :
    (n : ℕ) (d : Date) (s : InterviewStatus) (ph : Option InterviewPhase)
    (p : Option PendingInterviewOperation) (k : Option ReportKind) (r : Option Date)
    (id : Option Text) (x : PendingInterviewOperation)
    → Fields n d s ph p k r id
    → s ≡ active
    → ph ≡ some processing
    → p ≡ some x
    → IsPending n d x
Fields-processing n d s ph p k r id x f e h g = ground arith

pub IsPending-Fields :
    (i : Interview)
    → IsWellFormed i
    → i.status ≡ active
    → i.phase ≡ some processing
    → (p : PendingInterviewOperation) → i.pending_operation ≡ some p
    → IsPending i.current_question_position i.last_effective_activity_at p
      × (i.pending_report_kind ≡ none)
      × (i.report_requested_at ≡ none)
      × (i.report_id ≡ none)
IsPending-Fields i w act ph p pend =
    let (k, r, s) = active_fields i w act in
    (
      Fields-processing i.current_question_position i.last_effective_activity_at i.status i.phase
          i.pending_operation i.pending_report_kind i.report_requested_at i.report_id p w.fields act
          ph pend,
      k,
      r,
      s,
    )

resumed-Fields :
    (n : ℕ) (d : Date) {name : OperationName} {prev : InterviewPhase}
    → Accepts name prev
    → Fields n d active (some prev) none none none none
resumed-Fields n d analyse_answer = tt
resumed-Fields n d analyse_supplement = tt
resumed-Fields n d clarify_question = tt

revised-Fields :
    (n : ℕ) (d : Date) {q q' : InterviewQuestionState} {next : InterviewPhase}
    → Revision q q' next
    → Fields n d active (some next) none none none none
revised-Fields n d (clarified c e) = tt
revised-Fields n d (follow_up m c unused e) = tt
revised-Fields n d (evaluation m v e) = tt

pub revised_position :
    {q q' : InterviewQuestionState} {next : InterviewPhase}
    → Revision q q' next
    → q'.position ≡ q.position
unfolding followed_up evaluated
revised_position (clarified c e) = rw e
revised_position (follow_up m c unused e) = rw e
revised_position (evaluation m v e) = rw e

revise-IsWellFormed :
    (i : Interview) (q q' : InterviewQuestionState) (next : InterviewPhase)
    → i.status ≡ active
    → i.phase ≡ some processing
    → get_current_question_state i ≡ ok q
    → Revision q q' next
    → IsWellFormed i
    → IsWellFormed
        (record (replace_current_question i q') { phase = some next; pending_operation = none })
unfolding replace_current_question
revise-IsWellFormed i q q' next act ph found r w =
    let (k, r', s) = active_fields i w act in
    let pos = (current_found i q found).1 in
    let ok_q = current-QuestionOk i q w found in
    replace-IsWellFormed i
      (record (replace_current_question i q') { phase = some next; pending_operation = none }) q' w
      refl refl refl (w.current_from, w.current_to) w.active_valid
      (rw (act, k, r', s) (revised-Fields _ _ r))
      (revised-QuestionOk i _ q q' next r act act refl refl refl refl pos ok_q)
      (λ c h ne. ground (arith, revised_position r))

Fields-awaiting_response :
    (n : ℕ) (d : Date) (s : InterviewStatus) (ph : Option InterviewPhase)
    (p : Option PendingInterviewOperation) (k : Option ReportKind) (r : Option Date)
    (id : Option Text)
    → Fields n d s ph p k r id
    → s ≡ active
    → ph ≡ some awaiting_response
    → p ≡ none
Fields-awaiting_response n d s ph p k r id f e h = ground arith

mark-IsWellFormed :
    (i : Interview) (q : InterviewQuestionState) (o : QuestionOutcome) (d : Date)
    → i.status ≡ active
    → i.phase ≡ some awaiting_response
    → get_current_question_state i ≡ ok q
    → is_valid d ≡ true
    → IsWellFormed i
    → IsWellFormed (
        advance_version
          (record (replace_current_question i (record q { evaluation = none; outcome = some o })) {
            phase = some awaiting_continue;
            last_effective_activity_at = clone_date d;
          }))
unfolding replace_current_question advance_version
mark-IsWellFormed i q o d act ph found vd w =
    let (k, r, s) = active_fields i w act in
    let p =
      Fields-awaiting_response i.current_question_position i.last_effective_activity_at i.status
        i.phase i.pending_operation i.pending_report_kind i.report_requested_at i.report_id w.fields
        act ph in
    let pos = (current_found i q found).1 in
    let ok_q = current-QuestionOk i q w found in
    replace-IsWellFormed i _ (record q { evaluation = none; outcome = some o }) w refl refl refl
      (w.current_from, w.current_to) (ground arith) (rw (act, p, k, r, s) tt) (ground arith)
      (λ c h ne. ground arith)

next_question-IsWellFormed :
    (i : Interview) (q : InterviewQuestionState) (d : Date)
    → i.status ≡ active
    → get_current_question_state i ≡ ok q
    → is_some q.outcome ≡ true
    → i.current_question_position ≢ i.question_count
    → is_valid d ≡ true
    → IsWellFormed i
    → IsWellFormed (advance_version (next_question i (record q { frozen = true }) d))
unfolding next_question advance_version
next_question-IsWellFormed i q d act found out more vd w =
    let s = (active_fields i w act).2 in
    let pos = (current_found i q found).1 in
    let ok_q = current-QuestionOk i q w found in
    replace-IsWellFormed i _ (record q { frozen = true }) w refl refl refl
      (omega (arith, w.current_from, w.current_to)) (ground arith) (rw s tt) (ground arith)
      (λ c h ne. ground arith)

finish_questions-IsWellFormed :
    (i : Interview) (q : InterviewQuestionState) (d : Date)
    → i.status ≡ active
    → get_current_question_state i ≡ ok q
    → is_some q.outcome ≡ true
    → i.current_question_position ≡ i.question_count
    → is_valid d ≡ true
    → IsWellFormed i
    → IsWellFormed (advance_version (finish_questions i (record q { frozen = true }) d))
unfolding finish_questions advance_version
finish_questions-IsWellFormed i q d act found out last vd w =
    let s = (active_fields i w act).2 in
    let pos = (current_found i q found).1 in
    let ok_q = current-QuestionOk i q w found in
    replace-IsWellFormed i _ (record q { frozen = true }) w refl refl refl
      (w.current_from, w.current_to) (ground arith) (rw s (ground arith)) (ground arith)
      (λ c h ne. ground arith)

abandoned-IsWellFormed :
    (i : Interview) → i.status ≡ active → IsWellFormed i → IsWellFormed (abandoned_state i)
unfolding abandoned_state
abandoned-IsWellFormed i act w =
    let s = (active_fields i w act).2 in
    keep-IsWellFormed i _ w refl refl refl refl w.active_valid (rw s tt) (λ c h. ground arith)

reported-Fields :
    (kind : ReportKind) (n : ℕ) (d : Date) (s : InterviewStatus) (ph : Option InterviewPhase)
    (p : Option PendingInterviewOperation) (k : Option ReportKind) (r : Option Date)
    (id : Option Text)
    → Fields n d s ph p k r id
    → s ≡ report_pending
    → (stored : Text) → Fields n d (reported_status kind) ph none none r (some stored)
reported-Fields kind n d s ph p k r id f e stored = ground arith

report-IsWellFormed :
    (i : Interview) (id : Text) (kind : ReportKind)
    → i.status ≡ report_pending
    → i.pending_report_kind ≡ some kind
    → IsWellFormed i
    → IsWellFormed (
        advance_version (record i {
          status = reported_status kind;
          pending_operation = none;
          pending_report_kind = none;
          report_id = some id;
        }))
unfolding advance_version
report-IsWellFormed i id kind st k w =
    keep-IsWellFormed i _ w refl refl refl refl w.active_valid
      (reported-Fields kind _ _ i.status i.phase i.pending_operation i.pending_report_kind
        i.report_requested_at i.report_id w.fields st id)
      (λ c h. ground arith)

retried-Fields :
    (n : ℕ) (d d' : Date) (s : InterviewStatus) (ph : Option InterviewPhase)
    (p : Option PendingInterviewOperation) (k : Option ReportKind) (r : Option Date)
    (id : Option Text)
    → Fields n d s ph p k r id
    → s ≡ report_pending
    → Fields n d' s ph p k r id
retried-Fields n d d' s ph p k r id f e = ground arith

advance-IsWellFormed : (i : Interview) → IsWellFormed i → IsWellFormed (advance_version i)
unfolding advance_version
advance-IsWellFormed i w =
    keep-IsWellFormed i (advance_version i) w refl refl refl refl w.active_valid w.fields
      (λ c h. ground arith)

-- Every change keeps an interview well-formed.
pub Step-IsWellFormed : {i j : Interview} → Step i j → IsWellFormed i → IsWellFormed j
unfolding accept_operation advance_version replace_current_question finish_questions next_question
    abandoned_state
Step-IsWellFormed {i} (accept op name d prev act ph acc vd e) w =
    rw e (advance-IsWellFormed _ (retried-IsWellFormed i op name d prev act ph acc vd w))
Step-IsWellFormed {i} (accept_again op name d prev act ph acc vd e) w =
    rw e (retried-IsWellFormed i op name d prev act ph acc vd w)
Step-IsWellFormed {i} (refresh d p act ph pend vd e) w =
    let (ok_p, k, r, s) = IsPending-Fields i w act ph p pend in
    rw e (
      keep-IsWellFormed i (refreshed i p d) w refl refl refl refl (ground arith)
        (rw (act, ph, k, r, s)
          (record {
            about_current = ok_p.about_current;
            is_last_activity = refl;
            accepted_in = ok_p.accepted_in;
          }))
        (λ c h. ground arith))
Step-IsWellFormed {i} (cancel p act ph pend e) w =
    let (ok_p, k, r, s) = IsPending-Fields i w act ph p pend in
    rw e (
      keep-IsWellFormed i (record i { phase = some p.previous_phase; pending_operation = none }) w
        refl refl refl refl w.active_valid (rw (act, k, r, s) (resumed-Fields _ _ ok_p.accepted_in))
        (λ c h. ground arith))
Step-IsWellFormed {i} (revise q q' next act ph found r e) w =
    rw e (revise-IsWellFormed i q q' next act ph found r w)
Step-IsWellFormed {i} (mark q reason d act ph found vd e) w =
    rw e (mark-IsWellFormed i q (create_zero_question_outcome reason) d act ph found vd w)
Step-IsWellFormed {i} (move_on q d act ph found out more vd e) w =
    rw e (next_question-IsWellFormed i q d act found out more vd w)
Step-IsWellFormed {i} (finish q d act ph found out last vd e) w =
    rw e (finish_questions-IsWellFormed i q d act found out last vd w)
Step-IsWellFormed {i} (end_early d act out vd e) w =
    let (k, r, s) = active_fields i w act in
    rw e (
      keep-IsWellFormed i (ended_early i d) w refl refl refl refl (ground arith)
        (rw s (ground arith)) (λ c h. ground arith))
Step-IsWellFormed {i} (abandon act e) w =
    rw e (advance-IsWellFormed _ (abandoned-IsWellFormed i act w))
Step-IsWellFormed {i} (expire_accepted act e) w = rw e (abandoned-IsWellFormed i act w)
Step-IsWellFormed {i} (report id kind st k e) w = rw e (report-IsWellFormed i id kind st k w)
Step-IsWellFormed {i} (retry_report d st vd e) w = rw e (
    keep-IsWellFormed i (record i { last_effective_activity_at = clone_date d }) w refl refl refl
      refl (ground arith)
      (retried-Fields _ i.last_effective_activity_at _ i.status i.phase i.pending_operation
        i.pending_report_kind i.report_requested_at i.report_id w.fields st)
      (λ c h. ground arith))
