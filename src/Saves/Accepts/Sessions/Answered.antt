-- ===== src/Saves/Accepts/Sessions/Answered.antt =====
-- packages/domain/src/engine.ts: a session's question has as many follow-ups as its answers allow, and the
-- repository's guard accepts every answer of a session.
use interview_agent.Common.{
  ◌≡◌, inl, inr, refl, ok, false, some, List, [], ◌∷◌, map, All, is_some, count_if, arith,
  Result-cases, map_ok-eq-ok, subst,
}
use interview_agent.Interview.{InterviewBlueprintItem}
use interview_agent.Engine.{
  Interview, InterviewQuestionState, InterviewTransition, InterviewOperationPlan,
  InterviewOperationCompletion, CreateInterviewCommand, ExistingCommand, existing, planned, answer,
  transition_result, plan_result, AnswerCommand, AnswerCommandType, submit_answer,
  submit_supplement,
}
use interview_agent.Engine.Guards.{get_current_question_state}
use interview_agent.Engine.Blueprints.{create, new_interview, new_question_state}
use interview_agent.Engine.Plans.{answer_phase}
use interview_agent.Engine.Immediate
use interview_agent.Engine.Handle.{handle_interview_command}
use interview_agent.Engine.Completion.{complete_interview_operation}
use interview_agent.Engine.Refine.{planned_interview, result_interview, handle_existing-cases}
use interview_agent.Engine.Preserve.{All-at_position, current_found}
use interview_agent.Engine.Theorems.Operations.{plan_answer_analysis_inv, no_question}
use interview_agent.Engine.Theorems.Settlement.{handle_planned, cancel_resumes}
use interview_agent.Engine.Theorems.WellFormed.{Reachable-IsWellFormed}
use interview_agent.Saves.Transitions.{validate_interview_save}
use interview_agent.Saves.Equal.Same.{IsDated}
use interview_agent.Saves.Accepts.Answers.{IsDue, answer-saved, save_with_payloads}
use interview_agent.Saves.Accepts.Sessions.{
  Session, begun, acted, settled, dropped, Session-Reachable, IsCounted, IsBalanced,
  current-IsCounted, keep-IsBalanced,
}
use interview_agent.Saves.Accepts.Sessions.Settled.{settled-IsBalanced}
use interview_agent.Saves.Accepts.Sessions.Changes.{dispatch-IsBalanced}

new_question_state-IsCounted :
    (items : List InterviewBlueprintItem)
    → All (λ q. IsCounted q × (is_some q.outcome ≡ false)) (map new_question_state items)
unfolding new_question_state count_if
new_question_state-IsCounted [] = tt
new_question_state-IsCounted (item ∷ items) = (
  (record { within = omega arith; unsettled = λ e. inl refl }, refl),
  new_question_state-IsCounted items,
)

new-each :
    (qs : List InterviewQuestionState)
    → All (λ q. IsCounted q × (is_some q.outcome ≡ false)) qs
    → All IsCounted qs
new-each [] all = tt
new-each (q ∷ qs) ((counted, _), all) = (counted, new-each qs all)

created-IsBalanced :
    (c : CreateInterviewCommand) {t : InterviewTransition}
    → create c ≡ ok t
    → IsBalanced t.interview
unfolding create new_interview
created-IsBalanced c {t} h =
    let e : t.interview.questions ≡ map new_question_state t.interview.blueprint.questions =
      ground arith in
    let all = new_question_state-IsCounted t.interview.blueprint.questions in
    record {
      each = rw e (new-each _ all);
      still_open = λ awaits q found.
          (All-at_position (λ q. IsCounted q × (is_some q.outcome ≡ false)) t.interview.questions
            t.interview.current_question_position q (rw e all)
            (current_found t.interview q found).0).1;
    }

acted-IsBalanced :
    (i : Interview) (c : ExistingCommand) {t : InterviewTransition}
    → Session i
    → IsBalanced i
    → handle_interview_command (some i) (existing c) ≡ ok (transition_result t)
    → IsBalanced t.interview
unfolding handle_interview_command Immediate.expire_interview
acted-IsBalanced i c {t} s b h = elim (handle_existing-cases i c h) [
  | inl e ↦ dispatch-IsBalanced i c (Reachable-IsWellFormed (Session-Reachable s)) b e
  | inr e ↦
      keep-IsBalanced i t.interview b (ground arith) (ground arith) (λ a. absurd (ground arith))
]

pub Session-IsBalanced : {i : Interview} → Session i → IsBalanced i
unfolding handle_interview_command
Session-IsBalanced (begun c h e) =
    let (t, made, f) = map_ok-eq-ok transition_result (create c) h in
    rw e (subst (λ r. IsBalanced (result_interview r)) f (created-IsBalanced c made))
Session-IsBalanced (acted {i = i} c s h) = acted-IsBalanced i c s (Session-IsBalanced s) h
Session-IsBalanced (settled {i = i} c r s h done) =
    settled-IsBalanced i c r (Session-IsBalanced s) h done
Session-IsBalanced (dropped {i = i} c s h gone) =
    let e = cancel_resumes i c h in
    keep-IsBalanced i _ (Session-IsBalanced s) (ground arith) (ground arith) (ground arith)

-- The repository's guard accepts what the engine makes of an accepted answer and a completion of it, be it
-- an evaluation, saved with its payload, a follow-up, or the abandonment of an expired interview, if all
-- dates of the interview that is left are valid. The interview is one of a session: since its creation
-- every operation was completed or cancelled with the plan that its acceptance made, and none was retried
-- or refreshed.
pub Session-answer-saved :
    (i : Interview) (c : AnswerCommand) (r : InterviewOperationCompletion)
    {p : InterviewOperationPlan} {t : InterviewTransition}
    → Session i
    → handle_interview_command (some i) (existing (planned (answer c))) ≡ ok (plan_result p)
    → complete_interview_operation (planned_interview p) p r ≡ ok t
    → IsDated t.interview
    → validate_interview_save (save_with_payloads (planned_interview p) t) ≡ ok tt
Session-answer-saved i c r s h done dated =
    let b = Session-IsBalanced s in
    let made = (handle_planned i (answer c) h).0 in
    elim (Result-cases (get_current_question_state i)) [
      | inl (q, found) ↦
          let (_, _, phase, _, _, _) = plan_answer_analysis_inv i c q found made in
          answer-saved i c r found h (due c.type q phase b found) done dated
      | inr (x, bad) ↦ absurd (no_question i c bad made)
    ]
  where
    due :
        (type : AnswerCommandType) (q : InterviewQuestionState)
        → i.phase ≡ some (answer_phase type)
        → IsBalanced i
        → get_current_question_state i ≡ ok q
        → IsDue type q
    due submit_supplement q phase b found = tt
    due submit_answer q phase b found =
        (current-IsCounted i q b found).unsettled (b.still_open phase q found)
