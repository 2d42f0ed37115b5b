-- ===== src/Saves/Accepts/Completions.antt =====
-- packages/db/src/repositories/transition-validation.ts: the completion of an accepted operation is accepted.
use interview_agent.Common.{
  ◌≡◌, ◌⊎◌, refl, sym, true, false, [], ◌∷◌, ◌++◌, none, some, ok, arith, inl, inr, Result-cases,
  Bool-cases, is_some, text_eq, text_eq_refl, text_eq_sound, is_valid, ◌==◌, clone_date, before,
  length, is_blank, subst, if◌then◌else◌, ◌||◌,
}
use interview_agent.Interview.{
  active, processing, AnswerMaterial, AnswerMaterialKind, main_answer, follow_up_answer, supplement,
  QuestionEvaluation,
}
use interview_agent.Engine.{
  CommandBase, request_question_clarification, planned, existing, plan_result, Interview,
  InterviewQuestionState, InterviewTransition, InterviewOperationPlan, InterviewOperationCompletion,
  PendingInterviewOperation, question_clarification, answer_analysis, PlanBase,
  RecordQuestionClarificationCommand, record_question_clarification,
  RecordQuestionEvaluationCommand, RecordSystemFollowUpCommand,
}
use interview_agent.Engine.Guards.{get_current_question_state}
use interview_agent.Engine.Plans.{accept_operation}
use interview_agent.Engine.Accepted.{
  base_of_plan, completion_base, expire_accepted_operation, assert_plan_still_current,
}
use interview_agent.Engine.Completion.{
  complete_interview_operation, complete_planned, complete_question_clarification,
  complete_with_question_evaluation, complete_with_system_follow_up,
}
use interview_agent.Engine.Validation.{validate_question_evaluation}
use interview_agent.Engine.Handle.{handle_interview_command}
use interview_agent.Engine.Refine.{planned_interview}
use interview_agent.Engine.Theorems.Settlement.{handle_planned}
use interview_agent.Engine.Theorems.Operations.{clarification_plan, plan_question_clarification_inv}
use interview_agent.Saves.{InterviewSave, EvaluationPersistence}
use interview_agent.Saves.Equal.{evaluation_eq, material_kind_eq}
use interview_agent.Saves.Validate.{
  assert_event_identity, assert_persistence_payloads, recorded_evaluations, stored_reports,
  assert_evaluation_payload, assert_report_payload, sequence_of, require_pending,
  assert_answer_event, is_continue_phase,
}
use interview_agent.Saves.Completions.{
  validate_clarification_completion, validate_evaluation_completion, validate_follow_up_completion,
}
use interview_agent.Saves.Commands.{validate_abandonment}
use interview_agent.Saves.Transitions.{validate_sequence, validate_interview_save}
use interview_agent.Saves.Accepts.{
  IsComparable, canonical, saved, question_found, clone_date_same, clone_date_twice,
}
use interview_agent.Saves.Accepts.Commands.{save_of}
use interview_agent.Saves.Equal.Same.{IsDated, interview_eq-same}

-- What the assertions before a completion have established.
pub plan_current :
    (j : Interview) (p : InterviewOperationPlan) (r : InterviewOperationCompletion)
    {t : InterviewTransition}
    → complete_interview_operation j p r ≡ ok t
    → (text_eq (base_of_plan p).operation_id (completion_base r).operation_id ≡ true)
      × (before (completion_base r).occurred_at (base_of_plan p).accepted_at ≡ false)
      × (is_valid (completion_base r).occurred_at ≡ true)
unfolding complete_interview_operation assert_plan_still_current
plan_current j p r h = ground arith

pub completed-cases :
    (j : Interview) (p : InterviewOperationPlan) (r : InterviewOperationCompletion)
    {t : InterviewTransition}
    → complete_interview_operation j p r ≡ ok t
    → (t ≡ expire_accepted_operation j p r) ⊎ (complete_planned j p r ≡ ok t)
unfolding complete_interview_operation
completed-cases j p r h = ground arith

pub expire_accepted_operation-saved :
    (j : Interview) (p : InterviewOperationPlan) (r : InterviewOperationCompletion)
    (pending : PendingInterviewOperation) {t : InterviewTransition}
    → j.pending_operation ≡ some pending
    → pending.operation_id ≡ (base_of_plan p).operation_id
    → j.status ≡ active
    → is_valid (completion_base r).occurred_at ≡ true
    → t ≡ expire_accepted_operation j p r
    → IsComparable t.interview
    → validate_interview_save (save_of j t) ≡ ok tt
unfolding expire_accepted_operation validate_abandonment validate_sequence sequence_of
    assert_event_identity assert_persistence_payloads recorded_evaluations stored_reports
    assert_evaluation_payload assert_report_payload
expire_accepted_operation-saved j p r pending {t} pend same act valid e comparable =
    saved (save_of j t)
      (record {
        id = ground arith;
        account_id = ground arith;
        question_count = ground arith;
        blueprint = ground arith;
        created_at = ground arith;
      })
      comparable (ground (arith, text_eq_refl j.id))
      (ground (
        arith,
        text_eq_refl pending.operation_id,
        canonical t.interview t.interview refl comparable,
      ))
      (ground arith)

recorded_clarification-saved :
    (j : Interview) (b : PlanBase) (c : CommandBase) (r : RecordQuestionClarificationCommand)
    (pending : PendingInterviewOperation) {t : InterviewTransition}
    → j.pending_operation ≡ some pending
    → j.status ≡ active
    → j.phase ≡ some processing
    → pending.operation ≡ question_clarification
    → pending.question_position ≡ j.current_question_position
    → b.question_position ≡ j.current_question_position
    → pending.operation_id ≡ b.operation_id
    → r.base.operation_id ≡ b.operation_id
    → pending.accepted_at ≡ c.occurred_at
    → is_valid c.occurred_at ≡ true
    → is_valid r.base.occurred_at ≡ true
    → before r.base.occurred_at c.occurred_at ≡ false
    → complete_question_clarification j b c r ≡ ok t
    → IsComparable t.interview
    → validate_interview_save (save_of j t) ≡ ok tt
unfolding complete_question_clarification validate_clarification_completion require_pending
    validate_sequence sequence_of assert_event_identity assert_persistence_payloads
    recorded_evaluations stored_reports assert_evaluation_payload assert_report_payload
recorded_clarification-saved j b c r pending {t} pend act ph op pos bpos same rsame acc valid rvalid
      order h comparable =
    elim (Result-cases (get_current_question_state j)) [
      | inl (q, found) ↦
          saved (save_of j t)
            (record {
              id = ground arith;
              account_id = ground arith;
              question_count = ground arith;
              blueprint = ground arith;
              created_at = ground arith;
            })
            comparable (ground (arith, text_eq_refl j.id))
            (ground (
              arith,
              question_found j found,
              text_eq_refl b.operation_id,
              canonical t.interview t.interview refl comparable,
            ))
            (ground arith)
      | inr (x, bad) ↦ absurd (ground arith)
    ]

material_kind_same : (k : AnswerMaterialKind) → material_kind_eq k k ≡ true
material_kind_same main_answer = refl
material_kind_same follow_up_answer = refl
material_kind_same supplement = refl

-- The repository's guard accepts what the engine makes of an accepted clarification request and a
-- completion of it, be it the recorded clarification or the abandonment of an expired interview, if all
-- dates of the interview that is left are valid.
pub clarification-saved :
    (i : Interview) (c : CommandBase) (r : RecordQuestionClarificationCommand)
    {p : InterviewOperationPlan} {t : InterviewTransition}
    → handle_interview_command (some i) (existing (planned (request_question_clarification c)))
      ≡ ok (plan_result p)
    → complete_interview_operation (planned_interview p) p (record_question_clarification r) ≡ ok t
    → IsDated t.interview
    → validate_interview_save (save_of (planned_interview p) t) ≡ ok tt
unfolding complete_planned accept_operation
clarification-saved i c r {p} {t} h done dated =
    let comparable = interview_eq-same t.interview dated in
    let (made, pend, _, _) = handle_planned i (request_question_clarification c) h in
    let (e, act, ph, valid) = plan_question_clarification_inv i c made in
    let j = planned_interview (clarification_plan i c) in
    let completed =
      subst
        (λ p.
          complete_interview_operation (planned_interview p) p (record_question_clarification r)
          ≡ ok t)
        e done in
    let (op, order, rvalid) =
      plan_current j (clarification_plan i c) (record_question_clarification r) completed in
    rw e
      (elim (completed-cases j (clarification_plan i c) (record_question_clarification r)
        completed) [
          | inl gone ↦
              expire_accepted_operation-saved j (clarification_plan i c)
                (record_question_clarification r) _ refl refl act rvalid gone comparable
          | inr now ↦
              recorded_clarification-saved j (base_of_plan (clarification_plan i c)) c r _ refl act
                refl refl refl refl refl (sym (text_eq_sound _ _ op))
                (clone_date_twice c.occurred_at) valid rvalid
                (rw (sym (clone_date_same c.occurred_at)) order) now comparable
        ])

-- The material of an answer is of the kind that the repository expects.
abbrev pub IsExpected :
    Interview → InterviewQuestionState → PendingInterviewOperation → AnswerMaterial → Type 0
IsExpected j q pending m = m.kind ≡ (
    if is_continue_phase pending.previous_phase
    then supplement
    else if length q.system_follow_ups == 0
    then main_answer
    else follow_up_answer)

abbrev pub evaluation_save : Interview → InterviewTransition → EvaluationPersistence → InterviewSave
evaluation_save j t write = record {
  previous = j;
  current = t.interview;
  events = t.events;
  evaluations = write ∷ [];
  report = none;
}

pub recorded_evaluation-saved :
    (j : Interview) (b : PlanBase) (m : AnswerMaterial) (r : RecordQuestionEvaluationCommand)
    (pending : PendingInterviewOperation) (q : InterviewQuestionState) (e : QuestionEvaluation)
    {t : InterviewTransition}
    → j.pending_operation ≡ some pending
    → j.status ≡ active
    → j.phase ≡ some processing
    → pending.operation ≡ answer_analysis
    → pending.question_position ≡ j.current_question_position
    → b.question_position ≡ j.current_question_position
    → pending.operation_id ≡ b.operation_id
    → r.base.operation_id ≡ b.operation_id
    → pending.accepted_at ≡ m.submitted_at
    → is_valid m.submitted_at ≡ true
    → is_valid r.base.occurred_at ≡ true
    → before r.base.occurred_at m.submitted_at ≡ false
    → is_blank m.text ≡ false
    → get_current_question_state j ≡ ok q
    → IsExpected j q pending m
    → validate_question_evaluation j q (q.answer_material ++ m ∷ []) r.evaluation ≡ ok e
    → evaluation_eq e e ≡ true
    → complete_with_question_evaluation j b m r ≡ ok t
    → IsComparable t.interview
    → validate_interview_save (
        evaluation_save j t (record {
          evaluation_id = e.id;
          question_position = j.current_question_position;
          evaluation = e;
          created_at = clone_date r.base.occurred_at;
        }))
      ≡ ok tt
unfolding complete_with_question_evaluation validate_evaluation_completion assert_answer_event
    require_pending validate_sequence sequence_of assert_event_identity assert_persistence_payloads
    recorded_evaluations stored_reports assert_evaluation_payload assert_report_payload
recorded_evaluation-saved j b m r pending q e {t} pend act ph op pos bpos same rsame acc valid
      rvalid order text found kind made equal h comparable =
    saved (evaluation_save j t _)
      (record {
        id = ground arith;
        account_id = ground arith;
        question_count = ground arith;
        blueprint = ground arith;
        created_at = ground arith;
      })
      comparable (ground (arith, text_eq_refl j.id))
      (ground (
        arith,
        question_found j found,
        text_eq_refl b.operation_id,
        material_kind_same m.kind,
        canonical t.interview t.interview refl comparable,
      ))
      (ground (arith, text_eq_refl e.id))

pub recorded_follow_up-saved :
    (j : Interview) (b : PlanBase) (m : AnswerMaterial) (r : RecordSystemFollowUpCommand)
    (pending : PendingInterviewOperation) (q : InterviewQuestionState) {t : InterviewTransition}
    → j.pending_operation ≡ some pending
    → j.status ≡ active
    → j.phase ≡ some processing
    → pending.operation ≡ answer_analysis
    → pending.question_position ≡ j.current_question_position
    → b.question_position ≡ j.current_question_position
    → pending.operation_id ≡ b.operation_id
    → r.base.operation_id ≡ b.operation_id
    → pending.accepted_at ≡ m.submitted_at
    → is_valid m.submitted_at ≡ true
    → is_valid r.base.occurred_at ≡ true
    → before r.base.occurred_at m.submitted_at ≡ false
    → is_blank m.text ≡ false
    → get_current_question_state j ≡ ok q
    → IsExpected j q pending m
    → complete_with_system_follow_up j b m r ≡ ok t
    → IsComparable t.interview
    → validate_interview_save (save_of j t) ≡ ok tt
unfolding complete_with_system_follow_up validate_follow_up_completion assert_answer_event
    require_pending validate_sequence sequence_of assert_event_identity assert_persistence_payloads
    recorded_evaluations stored_reports assert_evaluation_payload assert_report_payload
recorded_follow_up-saved j b m r pending q {t} pend act ph op pos bpos same rsame acc valid rvalid
      order text found kind h comparable =
    elim (Bool-cases (is_some q.evaluation || is_some q.outcome)) [
      | inl had ↦
          saved (save_of j t)
            (record {
              id = ground arith;
              account_id = ground arith;
              question_count = ground arith;
              blueprint = ground arith;
              created_at = ground arith;
            })
            comparable (ground (arith, text_eq_refl j.id))
            (ground (
              arith,
              question_found j found,
              text_eq_refl b.operation_id,
              material_kind_same m.kind,
              canonical t.interview t.interview refl comparable,
            ))
            (ground arith)
      | inr none_had ↦
          saved (save_of j t)
            (record {
              id = ground arith;
              account_id = ground arith;
              question_count = ground arith;
              blueprint = ground arith;
              created_at = ground arith;
            })
            comparable (ground (arith, text_eq_refl j.id))
            (ground (
              arith,
              question_found j found,
              text_eq_refl b.operation_id,
              material_kind_same m.kind,
              canonical t.interview t.interview refl comparable,
            ))
            (ground arith)
    ]
