-- ===== src/Saves/Accepts/Sessions.antt =====
-- packages/domain/src/engine.ts: sessions, in which every accepted operation is settled with its own plan,
-- and what the repository's guard makes of their answers.
pub mod Changes
pub mod Settled
pub mod Answered
use interview_agent.Common.{
  ℕ, ◌+◌, ◌≤◌, ◌<◌, ◌≡◌, ◌⊎◌, inl, inr, refl, ok, err, true, false, none, some, List, [], ◌∷◌, ◌++◌,
  map, length, All, is_some, count_if, count_if-append, length-append, arith, Result-cases,
  map_ok-eq-ok, subst, sym,
}
use interview_agent.Interview.{awaiting_response, AnswerMaterial, unknown, skipped, ZeroScoreReason}
use interview_agent.Engine.{
  Interview, InterviewQuestionState, InterviewTransition, InterviewOperationPlan,
  InterviewOperationCompletion, CreateInterviewCommand, ExistingCommand, PlannedCommand, existing,
  planned, create_interview, transition_result, plan_result, InterviewCommandResult, CommandBase,
}
use interview_agent.Engine.Guards.{get_current_question_state, replaced_by, is_follow_up_answer}
use interview_agent.Engine.Handle.{handle_interview_command}
use interview_agent.Engine.Completion.{complete_interview_operation}
use interview_agent.Engine.Accepted.{cancel_interview_operation}
use interview_agent.Engine.Refine.{planned_interview, result_interview}
use interview_agent.Engine.Invariant.{All-replace, IsWellFormed, QuestionOk}
use interview_agent.Engine.Preserve.{All-at_position, current_found}
use interview_agent.Engine.Theorems.Current.{current_replaced}
use interview_agent.Engine.Theorems.WellFormed.{
  Reachable, created, called, handled, completed_operation, cancelled, Reachable-IsWellFormed,
}

-- The interviews of a session: after its creation, after a command that takes effect at once, and after an
-- accepted operation that was completed or cancelled with the plan that its acceptance made. No operation is
-- retried or refreshed.
pub data Session : Interview → Type 0 where
  begun :
      {j : Interview} (c : CreateInterviewCommand) {r : InterviewCommandResult}
      → handle_interview_command none (create_interview c) ≡ ok r
      → j ≡ result_interview r
      → Session j
  acted :
      {i : Interview} (c : ExistingCommand) {t : InterviewTransition}
      → Session i
      → handle_interview_command (some i) (existing c) ≡ ok (transition_result t)
      → Session t.interview
  settled :
      {i : Interview} (c : PlannedCommand) (r : InterviewOperationCompletion)
      {p : InterviewOperationPlan} {t : InterviewTransition}
      → Session i
      → handle_interview_command (some i) (existing (planned c)) ≡ ok (plan_result p)
      → complete_interview_operation (planned_interview p) p r ≡ ok t
      → Session t.interview
  dropped :
      {i j : Interview} (c : PlannedCommand) {p : InterviewOperationPlan}
      → Session i
      → handle_interview_command (some i) (existing (planned c)) ≡ ok (plan_result p)
      → cancel_interview_operation (planned_interview p) p ≡ ok j
      → Session j

pub Session-Reachable : {i : Interview} → Session i → Reachable i
Session-Reachable (begun c h e) = created c h e
Session-Reachable (acted c s h) = called (Session-Reachable s) (handled c h refl)
Session-Reachable (settled c r s h done) =
    called (called (Session-Reachable s) (handled (planned c) h refl))
      (completed_operation _ r done refl)
Session-Reachable (dropped c s h gone) =
    called (called (Session-Reachable s) (handled (planned c) h refl)) (cancelled _ gone)

-- A question has no more answers to follow-ups than follow-ups; while it has no outcome, fewer, if any.
pub record IsCounted (q : InterviewQuestionState) : Type 0 where
  pub within : count_if is_follow_up_answer q.answer_material ≤ length q.system_follow_ups
  pub unsettled :
      is_some q.outcome ≡ false
      → (length q.system_follow_ups ≡ 0)
        ⊎ (count_if is_follow_up_answer q.answer_material < length q.system_follow_ups)

pub record IsBalanced (i : Interview) : Type 0 where
  pub each : All IsCounted i.questions
  pub still_open :
      i.phase ≡ some awaiting_response
      → (q : InterviewQuestionState) → get_current_question_state i ≡ ok q
      → is_some q.outcome ≡ false

pub current-IsCounted :
    (i : Interview) (q : InterviewQuestionState)
    → IsBalanced i
    → get_current_question_state i ≡ ok q
    → IsCounted q
current-IsCounted i q b found =
    All-at_position IsCounted i.questions i.current_question_position q b.each
      (current_found i q found).0

-- A change that leaves the questions alone, and awaits a response only where it did.
pub keep-IsBalanced :
    (i j : Interview)
    → IsBalanced i
    → j.questions ≡ i.questions
    → j.current_question_position ≡ i.current_question_position
    → (j.phase ≡ some awaiting_response → i.phase ≡ some awaiting_response)
    → IsBalanced j
unfolding get_current_question_state
keep-IsBalanced i j b same here phase = record {
  each = rw same b.each;
  still_open = λ awaits q found. b.still_open (phase awaits) q (rw (← same, ← here) found);
}

-- A change that replaces a question of the list.
pub replace-IsBalanced :
    (i j : Interview) (q : InterviewQuestionState)
    → IsBalanced i
    → IsCounted q
    → j.questions ≡ map (replaced_by q) i.questions
    → (j.phase ≡ some awaiting_response
        → (q' : InterviewQuestionState) → get_current_question_state j ≡ ok q'
        → is_some q'.outcome ≡ false)
    → IsBalanced j
replace-IsBalanced i j q b counted changed still = record {
  each = rw changed (All-replace q i.questions b.each counted (λ c h other. h));
  still_open = still;
}

-- A change that replaces the current question and stays at it.
pub revise-IsBalanced :
    (i j : Interview) (q q' : InterviewQuestionState)
    → IsBalanced i
    → get_current_question_state i ≡ ok q
    → q'.position ≡ q.position
    → IsCounted q'
    → j.questions ≡ map (replaced_by q') i.questions
    → j.current_question_position ≡ i.current_question_position
    → (j.phase ≡ some awaiting_response → is_some q'.outcome ≡ false)
    → IsBalanced j
revise-IsBalanced i j q q' b found same counted changed here still =
    replace-IsBalanced i j q' b counted changed (λ awaits q'' again.
      let now = current_replaced i j q q' found same here changed in
      let e = still awaits in ground (arith, now, again))
