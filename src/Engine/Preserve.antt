-- ===== src/Engine/Preserve.antt =====
-- packages/domain/src/engine.ts: every change keeps an interview well-formed.
pub mod Questions
pub mod Steps
use interview_agent.Common.{
  ℕ, zero, suc, ◌+◌, ◌≤◌, ◌<◌, ◌≡◌, ◌⊎◌, inl, inr, refl, subst, sym, ◌∙◌, Bool, true, false, Option,
  none, some, List, [], ◌∷◌, ◌++◌, map, length, is_some, All, ◌==◌, Date, is_valid, Text, count_if,
  count_if-append, arith, length-map, get_elem?, at_position, ok, err, Result, any,
}
use interview_agent.Interview.{
  InterviewStatus, active, report_pending, InterviewPhase, awaiting_response, processing,
  awaiting_continue, AnswerMaterial, ReportKind, complete, incomplete, FollowUpKind, clarification,
  follow_up_kind_eq,
}
use interview_agent.Engine.{
  RecordSystemFollowUpCommand, Interview, OperationName, InterviewQuestionState,
  PendingInterviewOperation, SystemFollowUp, DomainError,
}
use interview_agent.Engine.Guards.{
  replaced_by, get_current_question_state, question_at, replace_current_question, advance_version,
}
use interview_agent.Engine.Plans.{accept_operation, accept_retried_operation}
use interview_agent.Engine.Immediate.{
  finish_questions, next_question, abandoned_state, reported_status,
}
use interview_agent.Engine.Validation.{uses_kind}
use interview_agent.Engine.Completion.{followed_up, evaluated, new_follow_up}
use interview_agent.Engine.Invariant.{
  Accepts, IsWellFormed, QuestionOk, Fields, IsPending, Positions, Positions-replace, All-replace,
  All-map, follow_ups_of,
}
use interview_agent.Engine.Step.{
  Step, accept, accept_again, refresh, cancel, revise, mark, move_on, finish, end_early, abandon,
  expire_accepted, report, retry_report, Revision, clarified, follow_up, evaluation,
}

-- In an active interview no report is asked for or stored.
pub Fields-active :
    (n : ℕ) (d : Date) (s : InterviewStatus) (ph : Option InterviewPhase)
    (p : Option PendingInterviewOperation) (k : Option ReportKind) (r : Option Date)
    (id : Option Text)
    → Fields n d s ph p k r id
    → s ≡ active
    → (k ≡ none) × (r ≡ none) × (id ≡ none)
Fields-active n d s ph p k r id f e = ground arith

pub Fields-report_pending :
    (n : ℕ) (d : Date) (s : InterviewStatus) (ph : Option InterviewPhase)
    (p : Option PendingInterviewOperation) (k : Option ReportKind) (r : Option Date)
    (id : Option Text)
    → Fields n d s ph p k r id
    → s ≡ report_pending
    → (ph ≡ none) × (p ≡ none) × (id ≡ none) × (is_some r ≡ true)
Fields-report_pending n d s ph p k r id f e = ground arith

-- The entry of a list at an index has what all entries have.
pub All-get_elem? {ℓ κ} :
    {A : Type ℓ} (P : A → Type κ) (xs : List A) (k : ℕ) (x : A)
    → All P xs
    → get_elem? xs k ≡ some x
    → P x
All-get_elem? P [] k x h e = cc
All-get_elem? P (y ∷ xs) zero x h e = subst P (ground arith) h.0
All-get_elem? P (y ∷ xs) (suc k) x h e = All-get_elem? P xs k x h.1 e

pub All-at_position {ℓ κ} :
    {A : Type ℓ} (P : A → Type κ) (xs : List A) (k : ℕ) (x : A)
    → All P xs
    → at_position xs k ≡ some x
    → P x
All-at_position P xs zero x h e = cc
All-at_position P xs (suc k) x h e = All-get_elem? P xs k x h e

-- The current question is found under its position.
pub current_found :
    (i : Interview) (q : InterviewQuestionState)
    → get_current_question_state i ≡ ok q
    → (at_position i.questions i.current_question_position ≡ some q)
      × (q.position ≡ i.current_question_position)
unfolding get_current_question_state
current_found i q h = ground arith

pub current-QuestionOk :
    (i : Interview) (q : InterviewQuestionState)
    → IsWellFormed i
    → get_current_question_state i ≡ ok q
    → QuestionOk i q
current-QuestionOk i q w h =
    All-at_position (QuestionOk i) i.questions i.current_question_position q w.questions_ok
      (current_found i q h).0

-- A change that leaves the questions and the position alone.
pub keep-IsWellFormed :
    (i j : Interview)
    → IsWellFormed i
    → j.questions ≡ i.questions
    → j.question_count ≡ i.question_count
    → j.blueprint ≡ i.blueprint
    → j.current_question_position ≡ i.current_question_position
    → is_valid j.last_effective_activity_at ≡ true
    → Fields j.current_question_position j.last_effective_activity_at j.status j.phase
        j.pending_operation j.pending_report_kind j.report_requested_at j.report_id
    → ((c : InterviewQuestionState) → QuestionOk i c → QuestionOk j c)
    → IsWellFormed j
keep-IsWellFormed i j w same count blueprint current valid fields keep = record {
  positions = rw same w.positions;
  counted = ground arith;
  item_positions = rw blueprint w.item_positions;
  items_counted = rw (blueprint, count) w.items_counted;
  current_from = ground arith;
  current_to = ground arith;
  active_valid = valid;
  fields = fields;
  questions_ok = subst (All (QuestionOk j)) (sym same) (All-map i.questions w.questions_ok keep);
}

-- A change that replaces a question and moves to a position in range.
pub replace-IsWellFormed :
    (i j : Interview) (q : InterviewQuestionState)
    → IsWellFormed i
    → j.questions ≡ map (replaced_by q) i.questions
    → j.question_count ≡ i.question_count
    → j.blueprint ≡ i.blueprint
    → (1 ≤ j.current_question_position) × (j.current_question_position ≤ i.question_count)
    → is_valid j.last_effective_activity_at ≡ true
    → Fields j.current_question_position j.last_effective_activity_at j.status j.phase
        j.pending_operation j.pending_report_kind j.report_requested_at j.report_id
    → QuestionOk j q
    → ((c : InterviewQuestionState)
        → QuestionOk i c
        → (c.position == q.position) ≡ false
        → QuestionOk j c)
    → IsWellFormed j
replace-IsWellFormed i j q w same count blueprint range valid fields new keep = record {
  positions = rw same (Positions-replace 1 q i.questions w.positions);
  counted = rw (same, count) (length-map (replaced_by q) i.questions ∙ w.counted);
  item_positions = rw blueprint w.item_positions;
  items_counted = rw (blueprint, count) w.items_counted;
  current_from = range.0;
  current_to = rw count range.1;
  active_valid = valid;
  fields = fields;
  questions_ok =
      subst (All (QuestionOk j)) (sym same) (All-replace q i.questions w.questions_ok new keep);
}

pub active_fields :
    (i : Interview)
    → IsWellFormed i
    → i.status ≡ active
    → (i.pending_report_kind ≡ none) × (i.report_requested_at ≡ none) × (i.report_id ≡ none)
active_fields i w =
    Fields-active i.current_question_position i.last_effective_activity_at i.status i.phase
      i.pending_operation i.pending_report_kind i.report_requested_at i.report_id w.fields

pub retried-IsWellFormed :
    (i : Interview) (op : Text) (name : OperationName) (d : Date) (prev : InterviewPhase)
    → i.status ≡ active
    → i.phase ≡ some prev
    → Accepts name prev
    → is_valid d ≡ true
    → IsWellFormed i
    → IsWellFormed (accept_retried_operation i op name d prev)
unfolding accept_retried_operation
retried-IsWellFormed i op name d prev act ph acc vd w =
    let (k, r, s) = active_fields i w act in
    keep-IsWellFormed i (accept_retried_operation i op name d prev) w refl refl refl refl
      (ground arith)
      (rw (act, k, r, s)
        (record { about_current = refl; is_last_activity = refl; accepted_in = acc }))
      (λ c h. ground arith)
