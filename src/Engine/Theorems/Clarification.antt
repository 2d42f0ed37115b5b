-- ===== src/Engine/Theorems/Clarification.antt =====
-- packages/domain/src/engine.ts: the clarification of an accepted request.
use interview_agent.Common.{
  ◌+◌, ◌≡◌, refl, none, some, ok, arith, true, false, inl, inr, Result-cases, is_valid, text_eq,
  before, is_blank, exceeds, clone_date, ◌++◌, [], ◌∷◌,
}
use interview_agent.Interview.{active, processing, awaiting_response}
use interview_agent.Engine.{
  CommandBase, request_question_clarification, Interview, InterviewQuestionState,
  InterviewTransition, InterviewOperationPlan, record_question_clarification,
  RecordQuestionClarificationCommand, planned, existing, plan_result, PlanBase,
}
use interview_agent.Engine.Guards.{get_current_question_state, inactivity_limit_ms}
use interview_agent.Engine.Plans.{accept_operation}
use interview_agent.Engine.Accepted.{base_of_plan, assert_plan_still_current}
use interview_agent.Engine.Completion.{
  complete_interview_operation, complete_planned, complete_question_clarification,
}
use interview_agent.Engine.Refine.{planned_interview}
use interview_agent.Engine.Theorems.Operations.{
  clarification_plan, plan_question_clarification_inv, accepted_clarification,
}
use interview_agent.Engine.Handle.{handle_interview_command}
use interview_agent.Engine.Theorems.Settlement.{handle_planned}
use interview_agent.Engine.Theorems.Current.{current_replaced}

-- A completion of an accepted clarification is taken as current.
current_completion :
    (i : Interview) (c : CommandBase) (r : RecordQuestionClarificationCommand)
    → i.status ≡ active
    → is_valid c.occurred_at ≡ true
    → text_eq r.base.interview_id i.id ≡ true
    → text_eq c.operation_id r.base.operation_id ≡ true
    → r.base.expected_version ≡ i.version + 1
    → is_valid r.base.occurred_at ≡ true
    → before r.base.occurred_at c.occurred_at ≡ false
    → exceeds r.base.occurred_at c.occurred_at inactivity_limit_ms ≡ false
    → complete_interview_operation
        (planned_interview (clarification_plan i c))
        (clarification_plan i c)
        (record_question_clarification r)
      ≡ complete_question_clarification
          (planned_interview (clarification_plan i c))
          (base_of_plan (clarification_plan i c))
          c
          r
unfolding complete_interview_operation assert_plan_still_current complete_planned accept_operation
current_completion i c r act asked id op version valid order in_time =
    ground (arith, accepted_clarification i c act asked)

-- The question with the clarification as its last.
abbrev pub with_clarification :
    InterviewQuestionState
    → CommandBase
    → RecordQuestionClarificationCommand
    → InterviewQuestionState
with_clarification q c r = record q {
  question_clarifications =
      q.question_clarifications
      ++ record {
        message_id = r.message_id;
        text = r.text;
        requested_at = clone_date c.occurred_at;
        recorded_at = clone_date r.base.occurred_at;
      }
        ∷ [];
}

recorded_clarification :
    (j : Interview) (b : PlanBase) (c : CommandBase) (r : RecordQuestionClarificationCommand)
    {q : InterviewQuestionState}
    → get_current_question_state j ≡ ok q
    → j.status ≡ active
    → j.phase ≡ some processing
    → is_blank r.text ≡ false
    → is_valid r.base.occurred_at ≡ true
    → (t : InterviewTransition) × (complete_question_clarification j b c r ≡ ok t)
      × (t.interview.phase ≡ some awaiting_response)
      × (t.interview.pending_operation ≡ none)
      × (t.interview.version ≡ j.version)
      × (get_current_question_state t.interview ≡ ok (with_clarification q c r))
unfolding complete_question_clarification
recorded_clarification j b c r {q} found act ph text valid =
    elim (Result-cases (complete_question_clarification j b c r)) [
      | inl (t, e) ↦ (
        t,
        e,
        ground arith,
        ground arith,
        ground arith,
        current_replaced j t.interview q (with_clarification q c r) found refl (ground arith)
            (ground arith),
      )
      | inr (x, e) ↦ absurd (ground arith)
    ]

-- A clarification with a valid date not before its request and at most 24 hours after it, which names the
-- interview, the operation and the accepted version and has a text that is not blank, is recorded: it is the current question's
-- last clarification, and nothing else of that question has changed; the interview awaits a response
-- again, with no pending operation and the version of acceptance.
pub clarification_completes :
    (i : Interview) (c : CommandBase) (r : RecordQuestionClarificationCommand)
    {q : InterviewQuestionState} {p : InterviewOperationPlan}
    → get_current_question_state i ≡ ok q
    → handle_interview_command (some i) (existing (planned (request_question_clarification c)))
      ≡ ok (plan_result p)
    → text_eq r.base.interview_id i.id ≡ true
    → text_eq c.operation_id r.base.operation_id ≡ true
    → r.base.expected_version ≡ i.version + 1
    → is_blank r.text ≡ false
    → is_valid r.base.occurred_at ≡ true
    → before r.base.occurred_at c.occurred_at ≡ false
    → exceeds r.base.occurred_at c.occurred_at inactivity_limit_ms ≡ false
    → (t : InterviewTransition) × (complete_interview_operation
          (planned_interview p)
          p
          (record_question_clarification r)
        ≡ ok t)
      × (t.interview.phase ≡ some awaiting_response)
      × (t.interview.pending_operation ≡ none)
      × (t.interview.version ≡ i.version + 1)
      × (get_current_question_state t.interview ≡ ok (with_clarification q c r))
unfolding get_current_question_state accept_operation
clarification_completes i c r {q} {p} found h id op version text valid order in_time =
    let (e, act, ph, asked) =
      plan_question_clarification_inv i c
        (handle_planned i (request_question_clarification c) h).0 in
    let j = planned_interview (clarification_plan i c) in
    let b = base_of_plan (clarification_plan i c) in
    rw (e, current_completion i c r act asked id op version valid order in_time)
      (recorded_clarification j b c r found act refl text valid)
