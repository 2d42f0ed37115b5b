-- ===== src/Saves/Accepts/Sessions/Settled.antt =====
-- packages/domain/src/engine.ts: a completion with the engine's own plan keeps the counts of answers and
-- follow-ups in step.
use interview_agent.Common.{
  ◌+◌, ◌≤◌, ◌≡◌, inl, inr, refl, ok, some, [], ◌∷◌, ◌++◌, length, count_if, count_if-append, arith,
  Result-cases, subst,
}
use interview_agent.Interview.{awaiting_response}
use interview_agent.Engine.{
  Interview, InterviewQuestionState, InterviewTransition, InterviewOperationPlan,
  InterviewOperationCompletion, PlannedCommand, existing, planned, answer,
  request_question_clarification, plan_result, CommandBase, AnswerCommand, AnswerCommandType,
  submit_answer, submit_supplement, record_question_clarification, record_system_follow_up,
  record_question_evaluation,
}
use interview_agent.Engine.Guards.{
  get_current_question_state, is_follow_up_answer, has_unanswered_system_follow_up,
}
use interview_agent.Engine.Plans.{accept_operation, material_kind}
use interview_agent.Engine.Handle.{handle_interview_command}
use interview_agent.Engine.Accepted.{expire_accepted_operation, base_of_plan}
use interview_agent.Engine.Completion.{complete_interview_operation, complete_planned}
use interview_agent.Engine.Refine.{planned_interview}
use interview_agent.Engine.Theorems.Operations.{
  answer_plan, clarification_plan, plan_answer_analysis_inv, plan_question_clarification_inv,
  no_question,
}
use interview_agent.Engine.Theorems.Settlement.{handle_planned}
use interview_agent.Saves.Accepts.Completions.{completed-cases}
use interview_agent.Saves.Accepts.Answers.{material_of}
use interview_agent.Saves.Accepts.Sessions.{
  IsCounted, IsBalanced, current-IsCounted, keep-IsBalanced,
}
use interview_agent.Saves.Accepts.Sessions.Changes.{
  complete_question_clarification-IsBalanced, complete_with_question_evaluation-IsBalanced,
  complete_with_system_follow_up-IsBalanced,
}

expired-IsBalanced :
    (j : Interview) (p : InterviewOperationPlan) (r : InterviewOperationCompletion)
    {t : InterviewTransition}
    → IsBalanced j
    → t ≡ expire_accepted_operation j p r
    → IsBalanced t.interview
unfolding expire_accepted_operation
expired-IsBalanced j p r {t} b e =
    keep-IsBalanced j t.interview b (ground arith) (ground arith) (λ a. absurd (ground arith))

-- The material of an answer, counted with the others, does not exceed the follow-ups.
material_fits :
    (c : AnswerCommand) (q : InterviewQuestionState)
    → IsCounted q
    → count_if is_follow_up_answer (q.answer_material ++ material_of c q ∷ [])
      ≤ length q.system_follow_ups
unfolding material_kind has_unanswered_system_follow_up count_if
material_fits c q counted =
    rw (count_if-append is_follow_up_answer q.answer_material (material_of c q ∷ [])) (fits c.type)
  where
    fits :
        (type : AnswerCommandType)
        → count_if is_follow_up_answer q.answer_material
            + count_if is_follow_up_answer
                (record (material_of c q) { kind = material_kind type q } ∷ [])
          ≤ length q.system_follow_ups
    fits submit_supplement = ground (arith, counted.within)
    fits submit_answer = ground (arith, counted.within)

-- The completion of an accepted answer.
answered-IsBalanced :
    (i : Interview) (c : AnswerCommand) (q : InterviewQuestionState)
    (r : InterviewOperationCompletion) {t : InterviewTransition}
    → get_current_question_state i ≡ ok q
    → IsBalanced i
    → complete_interview_operation (planned_interview (answer_plan i c q)) (answer_plan i c q) r
      ≡ ok t
    → IsBalanced t.interview
unfolding accept_operation get_current_question_state complete_planned
answered-IsBalanced i c q r {t} found b done =
    let plan = answer_plan i c q in
    let j = planned_interview plan in
    let bj = keep-IsBalanced i j b refl refl (λ a. absurd (ground arith)) in
    let fits = material_fits c q (current-IsCounted i q b found) in
    let room : (q' : InterviewQuestionState)
        → get_current_question_state j ≡ ok q'
        → count_if is_follow_up_answer (q'.answer_material ++ material_of c q ∷ [])
          ≤ length q'.system_follow_ups =
      λ q' again.
        let same : q ≡ q' = ground arith in
        subst
          (λ x.
            count_if is_follow_up_answer (x.answer_material ++ material_of c q ∷ [])
            ≤ length x.system_follow_ups)
          same fits in
    elim (completed-cases j plan r done) [
      | inl gone ↦ expired-IsBalanced j plan r bj gone
      | inr now ↦ recorded r bj room now
    ]
  where
    recorded :
        (r : InterviewOperationCompletion) {t : InterviewTransition}
        → IsBalanced (planned_interview (answer_plan i c q))
        → ((q' : InterviewQuestionState)
            → get_current_question_state (planned_interview (answer_plan i c q)) ≡ ok q'
            → count_if is_follow_up_answer (q'.answer_material ++ material_of c q ∷ [])
              ≤ length q'.system_follow_ups)
        → complete_planned (planned_interview (answer_plan i c q)) (answer_plan i c q) r ≡ ok t
        → IsBalanced t.interview
    recorded (record_question_clarification r) bj room h = absurd (ground arith)
    recorded (record_system_follow_up r) bj room h =
        complete_with_system_follow_up-IsBalanced (planned_interview (answer_plan i c q))
          (base_of_plan (answer_plan i c q)) (material_of c q) r bj room h
    recorded (record_question_evaluation r) bj room h =
        complete_with_question_evaluation-IsBalanced (planned_interview (answer_plan i c q))
          (base_of_plan (answer_plan i c q)) (material_of c q) r bj room h

-- The completion of an accepted clarification request.
clarified-IsBalanced :
    (i : Interview) (c : CommandBase) (r : InterviewOperationCompletion) {t : InterviewTransition}
    → i.phase ≡ some awaiting_response
    → IsBalanced i
    → complete_interview_operation
        (planned_interview (clarification_plan i c))
        (clarification_plan i c)
        r
      ≡ ok t
    → IsBalanced t.interview
unfolding accept_operation get_current_question_state complete_planned
clarified-IsBalanced i c r {t} awaits b done =
    let plan = clarification_plan i c in
    let j = planned_interview plan in
    let bj = keep-IsBalanced i j b refl refl (λ a. absurd (ground arith)) in
    elim (completed-cases j plan r done) [
      | inl gone ↦ expired-IsBalanced j plan r bj gone
      | inr now ↦ recorded r bj now
    ]
  where
    recorded :
        (r : InterviewOperationCompletion) {t : InterviewTransition}
        → IsBalanced (planned_interview (clarification_plan i c))
        → complete_planned (planned_interview (clarification_plan i c)) (clarification_plan i c) r
          ≡ ok t
        → IsBalanced t.interview
    recorded (record_question_clarification r) bj h =
        complete_question_clarification-IsBalanced (planned_interview (clarification_plan i c))
          (base_of_plan (clarification_plan i c)) c r bj (λ q found. b.still_open awaits q found) h
    recorded (record_system_follow_up r) bj h = absurd (ground arith)
    recorded (record_question_evaluation r) bj h = absurd (ground arith)

pub settled-IsBalanced :
    (i : Interview) (c : PlannedCommand) (r : InterviewOperationCompletion)
    {p : InterviewOperationPlan} {t : InterviewTransition}
    → IsBalanced i
    → handle_interview_command (some i) (existing (planned c)) ≡ ok (plan_result p)
    → complete_interview_operation (planned_interview p) p r ≡ ok t
    → IsBalanced t.interview
settled-IsBalanced i (answer c) r {p} {t} b h done =
    let made = (handle_planned i (answer c) h).0 in
    elim (Result-cases (get_current_question_state i)) [
      | inl (q, found) ↦ answered-IsBalanced i c q r found b (
          subst (λ p. complete_interview_operation (planned_interview p) p r ≡ ok t)
            (plan_answer_analysis_inv i c q found made).0 done)
      | inr (x, bad) ↦ absurd (no_question i c bad made)
    ]
settled-IsBalanced i (request_question_clarification c) r {p} {t} b h done =
    let (e, act, awaits, valid) =
      plan_question_clarification_inv i c
        (handle_planned i (request_question_clarification c) h).0 in
    clarified-IsBalanced i c r awaits b
      (subst (λ p. complete_interview_operation (planned_interview p) p r ≡ ok t) e done)
