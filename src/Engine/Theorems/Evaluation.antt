-- ===== src/Engine/Theorems/Evaluation.antt =====
-- packages/domain/src/engine.ts: the evaluation of an accepted answer.
use interview_agent.Common.{
  ◌+◌, ◌≡◌, refl, none, some, ok, arith, true, false, not, ◌&&◌, [], ◌∷◌, ◌++◌, map, inl, inr,
  Result-cases, is_valid, text_eq, before, exceeds, clone_date,
}
use interview_agent.Interview.{
  active, processing, awaiting_continue, is_irrelevant, clarification, AnswerMaterial,
  QuestionSnapshot, QuestionEvaluation,
}
use interview_agent.Scoring.{score_question}
use interview_agent.Engine.{
  answer, AnswerCommand, Interview, InterviewQuestionState, InterviewTransition,
  InterviewOperationPlan, record_question_evaluation, RecordQuestionEvaluationCommand, planned,
  existing, plan_result, PlanBase,
}
use interview_agent.Engine.Guards.{
  get_current_question_state, get_current_question, inactivity_limit_ms,
}
use interview_agent.Engine.Plans.{accept_operation, material_kind}
use interview_agent.Engine.Accepted.{base_of_plan, assert_plan_still_current}
use interview_agent.Engine.Validation.{validate_question_evaluation, uses_kind}
use interview_agent.Engine.Completion.{
  complete_interview_operation, complete_planned, complete_with_question_evaluation,
}
use interview_agent.Engine.Refine.{planned_interview}
use interview_agent.Engine.Theorems.Operations.{
  answer_plan, plan_answer_analysis_inv, accepted_answer,
}
use interview_agent.Engine.Handle.{handle_interview_command}
use interview_agent.Engine.Theorems.Settlement.{handle_planned}
use interview_agent.Engine.Theorems.Current.{current_replaced}

-- The material that an accepted answer adds.
abbrev pub answer_material_of : AnswerCommand → InterviewQuestionState → AnswerMaterial
answer_material_of c q = record {
  id = c.answer_material_id;
  kind = material_kind c.type q;
  text = c.text;
  submitted_at = clone_date c.base.occurred_at;
}

current_evaluation :
    (i : Interview) (c : AnswerCommand) (q : InterviewQuestionState)
    (r : RecordQuestionEvaluationCommand)
    → i.status ≡ active
    → is_valid c.base.occurred_at ≡ true
    → text_eq r.base.interview_id i.id ≡ true
    → text_eq c.base.operation_id r.base.operation_id ≡ true
    → r.base.expected_version ≡ i.version + 1
    → is_valid r.base.occurred_at ≡ true
    → before r.base.occurred_at c.base.occurred_at ≡ false
    → exceeds r.base.occurred_at c.base.occurred_at inactivity_limit_ms ≡ false
    → complete_interview_operation
        (planned_interview (answer_plan i c q))
        (answer_plan i c q)
        (record_question_evaluation r)
      ≡ complete_with_question_evaluation
          (planned_interview (answer_plan i c q))
          (base_of_plan (answer_plan i c q))
          (answer_material_of c q)
          r
unfolding complete_interview_operation assert_plan_still_current complete_planned accept_operation
current_evaluation i c q r act asked id op version valid order in_time =
    ground (arith, accepted_answer i c q act asked)

-- The question with the answer as its last material, and its evaluation.
abbrev pub with_evaluation :
    InterviewQuestionState → AnswerMaterial → QuestionEvaluation → InterviewQuestionState
with_evaluation q m e = record q {
  answer_material = q.answer_material ++ m ∷ [];
  evaluation = some e;
  outcome = some e.outcome;
}

recorded_evaluation :
    (j : Interview) (b : PlanBase) (m : AnswerMaterial) (r : RecordQuestionEvaluationCommand)
    {q : InterviewQuestionState} {s : QuestionSnapshot} {e : QuestionEvaluation}
    → get_current_question_state j ≡ ok q
    → get_current_question j ≡ ok s
    → j.status ≡ active
    → j.phase ≡ some processing
    → is_valid r.base.occurred_at ≡ true
    → (is_irrelevant r.evaluation.classification && not (uses_kind q clarification)) ≡ false
    → score_question s.rubric r.evaluation (map (λ x. x.id) (q.answer_material ++ m ∷ [])) ≡ ok e
    → (t : InterviewTransition) × (complete_with_question_evaluation j b m r ≡ ok t)
      × (t.interview.phase ≡ some awaiting_continue)
      × (t.interview.pending_operation ≡ none)
      × (t.interview.version ≡ j.version)
      × (get_current_question_state t.interview ≡ ok (with_evaluation q m e))
unfolding complete_with_question_evaluation validate_question_evaluation
recorded_evaluation j b m r {q} {s} {e} found snapshot act ph valid relevant scored =
    elim (Result-cases (complete_with_question_evaluation j b m r)) [
      | inl (t, done) ↦ (
        t,
        done,
        ground arith,
        ground arith,
        ground arith,
        current_replaced j t.interview q (with_evaluation q m e) found refl (ground arith)
            (ground arith),
      )
      | inr (x, bad) ↦ absurd (ground arith)
    ]

-- An evaluation with a valid date not before its accepted answer and at most 24 hours after it, which names
-- the interview, the operation and the accepted version, and which `scoreQuestion` accepts with the
-- question's material and the answer as evidence, is recorded, unless it is irrelevant with no clarification follow-up before:
-- the current question has the answer as its last material and the evaluation with its outcome, and is
-- otherwise unchanged; the interview awaits that the user continues, with no pending operation and the
-- version of acceptance.
pub evaluation_completes :
    (i : Interview) (c : AnswerCommand) (r : RecordQuestionEvaluationCommand)
    {q : InterviewQuestionState} {s : QuestionSnapshot} {e : QuestionEvaluation}
    {p : InterviewOperationPlan}
    → get_current_question_state i ≡ ok q
    → get_current_question i ≡ ok s
    → handle_interview_command (some i) (existing (planned (answer c))) ≡ ok (plan_result p)
    → text_eq r.base.interview_id i.id ≡ true
    → text_eq c.base.operation_id r.base.operation_id ≡ true
    → r.base.expected_version ≡ i.version + 1
    → is_valid r.base.occurred_at ≡ true
    → before r.base.occurred_at c.base.occurred_at ≡ false
    → exceeds r.base.occurred_at c.base.occurred_at inactivity_limit_ms ≡ false
    → (is_irrelevant r.evaluation.classification && not (uses_kind q clarification)) ≡ false
    → score_question s.rubric r.evaluation
        (map (λ x. x.id) (q.answer_material ++ answer_material_of c q ∷ []))
      ≡ ok e
    → (t : InterviewTransition) × (complete_interview_operation
          (planned_interview p)
          p
          (record_question_evaluation r)
        ≡ ok t)
      × (t.interview.phase ≡ some awaiting_continue)
      × (t.interview.pending_operation ≡ none)
      × (t.interview.version ≡ i.version + 1)
      × (get_current_question_state t.interview ≡ ok (with_evaluation q (answer_material_of c q) e))
unfolding get_current_question_state get_current_question accept_operation
evaluation_completes i c r {q} {s} {e} {p} found snapshot h id op version valid order in_time
      relevant scored =
    let (is, act, ph, asked, _, _) =
      plan_answer_analysis_inv i c q found (handle_planned i (answer c) h).0 in
    let j = planned_interview (answer_plan i c q) in
    let b = base_of_plan (answer_plan i c q) in
    rw (is, current_evaluation i c q r act asked id op version valid order in_time)
      (recorded_evaluation j b (answer_material_of c q) r found snapshot act refl valid relevant
        scored)
