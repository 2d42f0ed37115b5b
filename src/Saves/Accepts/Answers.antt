-- ===== src/Saves/Accepts/Answers.antt =====
-- packages/db/src/repositories/transition-validation.ts: the completion of an accepted answer is accepted.
use interview_agent.Common.{
  ◌⊎◌, ◌<◌, count_if, ℕ, ◌≡◌, refl, sym, true, false, [], ◌∷◌, ◌++◌, map, none, some, ok, err,
  arith, inl, inr, Result-cases, text_eq, text_eq_sound, is_valid, clone_date, before, is_blank,
  subst, ◌==◌, length, if◌then◌else◌, ap, ◌∙◌,
}
use interview_agent.Interview.{
  active, AnswerMaterial, QuestionEvaluation, supplement, main_answer, follow_up_answer,
}
use interview_agent.Engine.{
  AnswerCommand, answer, planned, existing, plan_result, Interview, InterviewQuestionState,
  InterviewTransition, InterviewOperationPlan, InterviewOperationCompletion,
  PendingInterviewOperation, EventBase, PlanBase, answer_analysis, record_question_clarification,
  RecordQuestionEvaluationCommand, record_question_evaluation, RecordSystemFollowUpCommand,
  record_system_follow_up, submit_answer, submit_supplement, AnswerCommandType, DomainError,
}
use interview_agent.Engine.Guards.{
  is_follow_up_answer, get_current_question_state, has_unanswered_system_follow_up,
}
use interview_agent.Engine.Plans.{accept_operation, material_kind, answer_phase}
use interview_agent.Engine.Accepted.{base_of_plan, completion_base, expire_accepted_operation}
use interview_agent.Engine.Completion.{
  complete_interview_operation, complete_planned, complete_with_question_evaluation,
  complete_with_system_follow_up,
}
use interview_agent.Engine.Validation.{validate_question_evaluation}
use interview_agent.Engine.Handle.{handle_interview_command}
use interview_agent.Engine.Refine.{planned_interview}
use interview_agent.Engine.Theorems.Settlement.{handle_planned}
use interview_agent.Engine.Theorems.Operations.{answer_plan, plan_answer_analysis_inv}
use interview_agent.Saves.{InterviewSave, EvaluationPersistence}
use interview_agent.Saves.Equal.{evaluation_eq, list_eq}
use interview_agent.Saves.Validate.{recorded_evaluations, is_continue_phase}
use interview_agent.Saves.Transitions.{validate_interview_save}
use interview_agent.Saves.Accepts.{IsComparable, clone_date_same}
use interview_agent.Saves.Accepts.Commands.{reported}
use interview_agent.Saves.Accepts.Completions.{
  plan_current, completed-cases, expire_accepted_operation-saved, recorded_evaluation-saved,
  recorded_follow_up-saved,
}
use interview_agent.Saves.Equal.Same.{
  IsDated, interview_eq-same, list_eq-always, evaluation_eq-same,
}

-- The payload for a recorded evaluation.
abbrev pub payload_of : EventBase × ℕ × QuestionEvaluation → EvaluationPersistence
payload_of (base, position, evaluation) = record {
  evaluation_id = evaluation.id;
  question_position = position;
  evaluation = evaluation;
  created_at = base.occurred_at;
}

-- The save of a transition with a payload for each evaluation that it records.
abbrev pub save_with_payloads : Interview → InterviewTransition → InterviewSave
save_with_payloads j t = record {
  previous = j;
  current = t.interview;
  events = t.events;
  evaluations = map payload_of (recorded_evaluations t.events);
  report = reported t.events;
}

abbrev evaluation_of : EventBase × ℕ × QuestionEvaluation → QuestionEvaluation
evaluation_of (base, position, evaluation) = evaluation

-- The recorded evaluations equal themselves under `deepEqual`.
abbrev pub HasComparable : InterviewTransition → Type 0
HasComparable t =
    let recorded = map evaluation_of (recorded_evaluations t.events) in
    list_eq evaluation_eq recorded recorded ≡ true

-- Of what kind an answer is, is settled: the question has had no follow-up, or has more follow-ups than
-- answers to them. A supplement is always one.
abbrev pub IsDue : AnswerCommandType → InterviewQuestionState → Type 0
IsDue submit_supplement q = Unit
IsDue submit_answer q =
    (length q.system_follow_ups ≡ 0)
    ⊎ (count_if is_follow_up_answer q.answer_material < length q.system_follow_ups)

abbrev pending_of : Interview → AnswerCommand → PendingInterviewOperation
pending_of i c = record {
  operation_id = c.base.operation_id;
  operation = answer_analysis;
  question_position = i.current_question_position;
  accepted_at = clone_date (clone_date c.base.occurred_at);
  previous_phase = answer_phase c.type;
}

IsExpected_kind :
    (type : AnswerCommandType) (q : InterviewQuestionState)
    → IsDue type q
    → material_kind type q ≡ (
        if is_continue_phase (answer_phase type)
        then supplement
        else if length q.system_follow_ups == 0
        then main_answer
        else follow_up_answer)
unfolding material_kind has_unanswered_system_follow_up
IsExpected_kind submit_supplement q h = refl
IsExpected_kind submit_answer q (inl none_yet) = ground arith
IsExpected_kind submit_answer q (inr more) = ground arith

abbrev pub material_of : AnswerCommand → InterviewQuestionState → AnswerMaterial
material_of c q = record {
  id = c.answer_material_id;
  kind = material_kind c.type q;
  text = c.text;
  submitted_at = clone_date c.base.occurred_at;
}

abbrev recorded_payload :
    Interview → RecordQuestionEvaluationCommand → QuestionEvaluation → EvaluationPersistence
recorded_payload j r e = record {
  evaluation_id = e.id;
  question_position = j.current_question_position;
  evaluation = e;
  created_at = clone_date r.base.occurred_at;
}

evaluation_payloads :
    (j : Interview) (b : PlanBase) (m : AnswerMaterial) (r : RecordQuestionEvaluationCommand)
    (q : InterviewQuestionState) (e : QuestionEvaluation) {t : InterviewTransition}
    → b.question_position ≡ j.current_question_position
    → get_current_question_state j ≡ ok q
    → validate_question_evaluation j q (q.answer_material ++ m ∷ []) r.evaluation ≡ ok e
    → complete_with_question_evaluation j b m r ≡ ok t
    → HasComparable t
    → (map payload_of (recorded_evaluations t.events) ≡ recorded_payload j r e ∷ [])
      × (reported t.events ≡ none)
      × (evaluation_eq e e ≡ true)
unfolding complete_with_question_evaluation recorded_evaluations list_eq
evaluation_payloads j b m r q e position found made h comparable =
    (ground arith, ground arith, ground arith)

follow_up_payloads :
    (j : Interview) (b : PlanBase) (m : AnswerMaterial) (r : RecordSystemFollowUpCommand)
    {t : InterviewTransition}
    → complete_with_system_follow_up j b m r ≡ ok t
    → map payload_of (recorded_evaluations t.events) ≡ []
unfolding complete_with_system_follow_up recorded_evaluations
follow_up_payloads j b m r h = ground arith

no_evaluation :
    (j : Interview) (b : PlanBase) (m : AnswerMaterial) (r : RecordQuestionEvaluationCommand)
    (q : InterviewQuestionState) (x : DomainError) {t : InterviewTransition}
    → get_current_question_state j ≡ ok q
    → validate_question_evaluation j q (q.answer_material ++ m ∷ []) r.evaluation ≡ err x
    → complete_with_question_evaluation j b m r ≡ ok t
    → ⊥
unfolding complete_with_question_evaluation
no_evaluation j b m r q x found bad h = ground arith

found_again :
    (i : Interview) (c : AnswerCommand) (q : InterviewQuestionState)
    → get_current_question_state i ≡ ok q
    → get_current_question_state (planned_interview (answer_plan i c q)) ≡ ok q
unfolding accept_operation get_current_question_state
found_again i c q found = found

-- A completion of an answer that is recorded.
recorded-saved :
    (i : Interview) (c : AnswerCommand) (q : InterviewQuestionState)
    (r : InterviewOperationCompletion) {t : InterviewTransition}
    → get_current_question_state i ≡ ok q
    → i.status ≡ active
    → is_valid c.base.occurred_at ≡ true
    → is_blank c.text ≡ false
    → IsDue c.type q
    → text_eq c.base.operation_id (completion_base r).operation_id ≡ true
    → before (completion_base r).occurred_at (clone_date c.base.occurred_at) ≡ false
    → is_valid (completion_base r).occurred_at ≡ true
    → complete_planned (planned_interview (answer_plan i c q)) (answer_plan i c q) r ≡ ok t
    → IsComparable t.interview
    → HasComparable t
    → validate_interview_save (save_with_payloads (planned_interview (answer_plan i c q)) t) ≡ ok tt
unfolding complete_planned accept_operation
recorded-saved i c q (record_question_clarification r) found act valid text last op order rvalid h
      comparable fine =
    absurd (ground arith)
recorded-saved i c q (record_system_follow_up r) found act valid text last op order rvalid h
      comparable fine =
    let j = planned_interview (answer_plan i c q) in
    rw (follow_up_payloads j (base_of_plan (answer_plan i c q)) (material_of c q) r h) (
      recorded_follow_up-saved j (base_of_plan (answer_plan i c q)) (material_of c q) r
        (pending_of i c) q refl act refl refl refl refl refl (sym (text_eq_sound _ _ op))
        (clone_date_same (clone_date c.base.occurred_at))
        (rw (clone_date_same c.base.occurred_at) valid) rvalid order text (found_again i c q found)
        (IsExpected_kind c.type q last) h comparable)
recorded-saved i c q (record_question_evaluation r) {t} found act valid text last op order rvalid h
      comparable fine =
    let j = planned_interview (answer_plan i c q) in
    let b = base_of_plan (answer_plan i c q) in
    let m = material_of c q in
    elim (Result-cases
      (validate_question_evaluation j q (q.answer_material ++ m ∷ []) r.evaluation)) [
        | inl (e, made) ↦
            let (payloads, unreported, equal) =
              evaluation_payloads j b m r q e refl (found_again i c q found) made h fine in
            rw (payloads, unreported)
              (recorded_evaluation-saved j b m r (pending_of i c) q e refl act refl refl refl refl
                refl (sym (text_eq_sound _ _ op)) (clone_date_same (clone_date c.base.occurred_at))
                (rw (clone_date_same c.base.occurred_at) valid) rvalid order text
                (found_again i c q found) (IsExpected_kind c.type q last) made equal h comparable)
        | inr (x, bad) ↦ absurd (no_evaluation j b m r q x (found_again i c q found) bad h)
      ]

abandoned_payloads :
    (j : Interview) (p : InterviewOperationPlan) (r : InterviewOperationCompletion)
    → map payload_of (recorded_evaluations (expire_accepted_operation j p r).events) ≡ []
unfolding expire_accepted_operation recorded_evaluations
abandoned_payloads j p r = refl

-- The repository's guard accepts what the engine makes of an accepted answer and a completion of it, be
-- it an evaluation, saved with its payload, a follow-up, or the abandonment of an expired interview, if
-- all dates of the interview that is left are valid, and if, unless the answer is a supplement, its
-- question had no follow-up yet or more follow-ups than answers to them.
pub answer-saved :
    (i : Interview) (c : AnswerCommand) (r : InterviewOperationCompletion)
    {q : InterviewQuestionState} {p : InterviewOperationPlan} {t : InterviewTransition}
    → get_current_question_state i ≡ ok q
    → handle_interview_command (some i) (existing (planned (answer c))) ≡ ok (plan_result p)
    → IsDue c.type q
    → complete_interview_operation (planned_interview p) p r ≡ ok t
    → IsDated t.interview
    → validate_interview_save (save_with_payloads (planned_interview p) t) ≡ ok tt
unfolding accept_operation
answer-saved i c r {q} {p} {t} found h last done dated =
    let comparable = interview_eq-same t.interview dated in
    let fine =
      list_eq-always evaluation_eq (map evaluation_of (recorded_evaluations t.events))
        evaluation_eq-same in
    let (made, pend, _, _) = handle_planned i (answer c) h in
    let (e, act, ph, valid, text, fresh) = plan_answer_analysis_inv i c q found made in
    let plan = answer_plan i c q in
    let j = planned_interview plan in
    let completed =
      subst (λ p. complete_interview_operation (planned_interview p) p r ≡ ok t) e done in
    let (op, order, rvalid) = plan_current j plan r completed in
    rw e (elim (completed-cases j plan r completed) [
      | inl gone ↦
          rw
            (ap (λ t. map payload_of (recorded_evaluations t.events)) gone
              ∙ abandoned_payloads j plan r)
            (expire_accepted_operation-saved j plan r (pending_of i c) refl refl act rvalid gone
              comparable)
      | inr now ↦
          recorded-saved i c q r found act valid text last op order rvalid now comparable fine
    ])
