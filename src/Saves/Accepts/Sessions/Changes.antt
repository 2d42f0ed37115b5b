-- ===== src/Saves/Accepts/Sessions/Changes.antt =====
-- packages/domain/src/engine.ts: what each operation does to the counts of answers and follow-ups.
use interview_agent.Common.{
  ◌+◌, ◌≤◌, ◌<◌, ◌≡◌, inl, inr, refl, ok, true, false, none, some, [], ◌∷◌, ◌++◌, map, length, All,
  is_some, count_if, length-append, arith, clone_date, Result-cases, map_ok-eq-ok,
}
use interview_agent.Interview.{AnswerMaterial, unknown, skipped, ZeroScoreReason}
use interview_agent.Scoring.{create_zero_question_outcome}
use interview_agent.Engine.{
  Interview, InterviewQuestionState, InterviewTransition, PlanBase, ExistingCommand, planned,
  answer, request_question_clarification, mark_question_unknown, skip_question, continue_interview,
  end_interview_early, abandon_interview, expire_interview, record_report, transition_result,
  CommandBase, RecordSystemFollowUpCommand, RecordQuestionEvaluationCommand,
  RecordQuestionClarificationCommand,
}
use interview_agent.Engine.Guards.{get_current_question_state, replaced_by, is_follow_up_answer}
use interview_agent.Engine.Immediate.{
  record_unevaluated_outcome, finish_questions, next_question, abandoned_state,
}
use interview_agent.Engine.Immediate
use interview_agent.Engine.Handle.{dispatch}
use interview_agent.Engine.Completion.{
  new_follow_up, followed_up, evaluated, complete_with_system_follow_up,
  complete_with_question_evaluation, complete_question_clarification,
}
use interview_agent.Engine.Invariant.{All-replace, IsWellFormed}
use interview_agent.Engine.Preserve.{All-at_position, current_found}
use interview_agent.Engine.Validation.{validate_question_evaluation}
use interview_agent.Saves.Accepts.Commands.{transition_of}
use interview_agent.Saves.Accepts.Sessions.{
  IsBalanced, current-IsCounted, keep-IsBalanced, replace-IsBalanced, revise-IsBalanced,
}

record_unevaluated_outcome-IsBalanced :
    (i : Interview) (c : CommandBase) (k : ZeroScoreReason) {t : InterviewTransition}
    → IsBalanced i
    → record_unevaluated_outcome i c k ≡ ok t
    → IsBalanced t.interview
unfolding record_unevaluated_outcome
record_unevaluated_outcome-IsBalanced i c k {t} b h =
    elim (Result-cases (get_current_question_state i)) [
      | inl (q, found) ↦
          let counted = current-IsCounted i q b found in
          revise-IsBalanced i t.interview q
            (record q { evaluation = none; outcome = some (create_zero_question_outcome k) }) b
            found refl (record { within = counted.within; unsettled = λ e. absurd (ground arith) })
            (ground arith) (ground arith) (λ awaits. absurd (ground arith))
      | inr (x, bad) ↦ absurd (ground arith)
    ]

-- The questions after the current one have no outcome.
later_open :
    (i : Interview) (q : InterviewQuestionState)
    → IsWellFormed i
    → q.position ≡ i.current_question_position
    → All
        (λ c. i.current_question_position < c.position → is_some c.outcome ≡ false)
        (map (replaced_by q) i.questions)
later_open i q w here =
    All-replace q i.questions w.questions_ok (λ later. absurd (omega arith))
      (λ c fine other later. ground (arith, fine.later_empty later))

continue_interview-IsBalanced :
    (i : Interview) (c : CommandBase) {t : InterviewTransition}
    → IsWellFormed i
    → IsBalanced i
    → Immediate.continue_interview i c ≡ ok t
    → IsBalanced t.interview
unfolding Immediate.continue_interview
continue_interview-IsBalanced i c {t} w b h = elim (Result-cases (get_current_question_state i)) [
  | inl (q, found) ↦
      let counted = current-IsCounted i q b found in
      let f = record q { frozen = true } in
      let changed : t.interview.questions ≡ map (replaced_by f) i.questions = ground arith in
      replace-IsBalanced i t.interview f b
        (record { within = counted.within; unsettled = counted.unsettled }) changed
        (λ awaits next again.
          let next_at : t.interview.current_question_position ≡ i.current_question_position + 1 =
            ground arith in
          let (at, place) = current_found t.interview next again in
          All-at_position
            (λ c. i.current_question_position < c.position → is_some c.outcome ≡ false)
            (map (replaced_by f) i.questions) t.interview.current_question_position next
            (later_open i f w (current_found i q found).1) (rw (← changed) at) (omega arith))
  | inr (x, bad) ↦ absurd (ground arith)
]

pub dispatch-IsBalanced :
    (i : Interview) (c : ExistingCommand) {t : InterviewTransition}
    → IsWellFormed i
    → IsBalanced i
    → dispatch i c ≡ ok (transition_result t)
    → IsBalanced t.interview
unfolding dispatch Immediate.end_interview_early Immediate.abandon_interview
    Immediate.expire_interview Immediate.record_report
dispatch-IsBalanced i (planned (answer c)) w b h = let (p, e, f) = map_ok-eq-ok _ _ h in absurd (cc)
dispatch-IsBalanced i (planned (request_question_clarification c)) w b h =
    let (p, e, f) = map_ok-eq-ok _ _ h in absurd (cc)
dispatch-IsBalanced i (mark_question_unknown c) w b h =
    record_unevaluated_outcome-IsBalanced i c unknown b (transition_of h)
dispatch-IsBalanced i (skip_question c) w b h =
    record_unevaluated_outcome-IsBalanced i c skipped b (transition_of h)
dispatch-IsBalanced i (continue_interview c) w b h =
    continue_interview-IsBalanced i c w b (transition_of h)
dispatch-IsBalanced i (end_interview_early c) {t} w b h =
    keep-IsBalanced i t.interview b (ground arith) (ground arith) (λ a. absurd (ground arith))
dispatch-IsBalanced i (abandon_interview c) {t} w b h =
    keep-IsBalanced i t.interview b (ground arith) (ground arith) (λ a. absurd (ground arith))
dispatch-IsBalanced i (expire_interview c) {t} w b h =
    keep-IsBalanced i t.interview b (ground arith) (ground arith) (λ a. absurd (ground arith))
dispatch-IsBalanced i (record_report c) {t} w b h =
    keep-IsBalanced i t.interview b (ground arith) (ground arith) (ground arith)

-- The completions of an operation.
pub complete_question_clarification-IsBalanced :
    (j : Interview) (p : PlanBase) (c : CommandBase) (r : RecordQuestionClarificationCommand)
    {t : InterviewTransition}
    → IsBalanced j
    → ((q : InterviewQuestionState)
        → get_current_question_state j ≡ ok q
        → is_some q.outcome ≡ false)
    → complete_question_clarification j p c r ≡ ok t
    → IsBalanced t.interview
unfolding complete_question_clarification
complete_question_clarification-IsBalanced j p c r {t} b unanswered h =
    elim (Result-cases (get_current_question_state j)) [
      | inl (q, found) ↦
          let counted = current-IsCounted j q b found in
          let still = unanswered q found in
          revise-IsBalanced j t.interview q
            (record q {
              question_clarifications =
                  q.question_clarifications
                  ++ record {
                    message_id = r.message_id;
                    text = r.text;
                    requested_at = clone_date c.occurred_at;
                    recorded_at = clone_date r.base.occurred_at;
                  }
                    ∷ [];
            })
            b found refl (record { within = counted.within; unsettled = counted.unsettled })
            (ground arith) (ground arith) (λ awaits. still)
      | inr (x, bad) ↦ absurd (ground arith)
    ]

pub complete_with_question_evaluation-IsBalanced :
    (j : Interview) (p : PlanBase) (m : AnswerMaterial) (r : RecordQuestionEvaluationCommand)
    {t : InterviewTransition}
    → IsBalanced j
    → ((q : InterviewQuestionState)
        → get_current_question_state j ≡ ok q
        → count_if is_follow_up_answer (q.answer_material ++ m ∷ []) ≤ length q.system_follow_ups)
    → complete_with_question_evaluation j p m r ≡ ok t
    → IsBalanced t.interview
unfolding complete_with_question_evaluation evaluated
complete_with_question_evaluation-IsBalanced j p m r {t} b fits h =
    elim (Result-cases (get_current_question_state j)) [
      | inl (q, found) ↦
          let room = fits q found in
          elim (Result-cases
            (validate_question_evaluation j q (q.answer_material ++ m ∷ []) r.evaluation)) [
              | inl (e, made) ↦
                  revise-IsBalanced j t.interview q (evaluated q m e) b found refl
                    (record { within = room; unsettled = λ e. absurd (ground arith) })
                    (ground arith) (ground arith) (λ awaits. absurd (ground arith))
              | inr (x, bad) ↦ absurd (ground arith)
            ]
      | inr (x, bad) ↦ absurd (ground arith)
    ]

pub complete_with_system_follow_up-IsBalanced :
    (j : Interview) (p : PlanBase) (m : AnswerMaterial) (r : RecordSystemFollowUpCommand)
    {t : InterviewTransition}
    → IsBalanced j
    → ((q : InterviewQuestionState)
        → get_current_question_state j ≡ ok q
        → count_if is_follow_up_answer (q.answer_material ++ m ∷ []) ≤ length q.system_follow_ups)
    → complete_with_system_follow_up j p m r ≡ ok t
    → IsBalanced t.interview
unfolding complete_with_system_follow_up followed_up
complete_with_system_follow_up-IsBalanced j p m r {t} b fits h =
    elim (Result-cases (get_current_question_state j)) [
      | inl (q, found) ↦
          let room = fits q found in
          let more = length-append q.system_follow_ups (new_follow_up r ∷ []) in
          revise-IsBalanced j t.interview q (followed_up q m r) b found refl
            (record { within = omega arith; unsettled = λ e. inr (omega arith) }) (ground arith)
            (ground arith) (λ awaits. refl)
      | inr (x, bad) ↦ absurd (ground arith)
    ]
