-- ===== src/Engine/Tests.antt =====
-- packages/domain/src/engine.ts: the theorems at concrete inputs.
use interview_agent.Common.{
  ◌⊎◌, ◌&&◌, not, exceeds, false, is_valid, none, some, ok, refl, ◌≡◌, [], ◌∷◌, get_elem?, ◌>>=◌,
  arith, text_eq, has, is_blank, is_space, length, true, All, is_some, ◌+◌, clone_date, before, at,
}
use interview_agent.Interview.{
  active, abandoned, is_terminal_interview_status, awaiting_response, awaiting_continue,
  go_language, parse_positive_question_score,
}
use interview_agent.Scoring.{
  validate_rubric, rubric_loop, score_question, check_awards, check_award, evidence_loop,
  rubric_by_id, award_loop, derive_evaluated_question_outcome, outcome_of_score,
}
use interview_agent.Engine.{
  transition_result, existing, answer, interview_abandoned, expired, skip_question,
  InterviewTransition, record_question_clarification, record_question_evaluation,
}
use interview_agent.Engine.Guards.{
  inactivity_limit_ms, get_current_question_state, is_interview_expired, get_interview_expires_at,
  get_current_question, get_blueprint_item,
}
use interview_agent.Engine.Blueprints.{new_interview, new_question_state}
use interview_agent.Engine.Plans.{retry_interview_operation}
use interview_agent.Engine.Handle.{command_base, is_expire_command, handle_interview_command}
use interview_agent.Engine.Refine.{result_interview, planned_interview}
use interview_agent.Engine.Theorems.WellFormed.{handled, Call, Reachable-IsWellFormed}
use interview_agent.Samples.{
  started, second, finished, unknown_command, second_unknown, clarify_command, answer_command,
  clarification_command, sample_base, skipped_state, open_state, sample_scored, sample_question,
  evaluation_command,
}
use interview_agent.Engine.Theorems.Operations.{clarification_plan, answer_plan}
use interview_agent.Engine.Theorems.Frozen.{frozen_stays}
use interview_agent.Engine.Theorems.Lifecycle.{
  Call-⟶, ◌⟶◌, terminal_refuses, completed_answers_each,
}
use interview_agent.Engine.Theorems.Versions.{handle-version, accepted_checks, expired_abandons}
use interview_agent.Engine.Theorems.Settlement.{cancel_resumes, retry_replans, resumed}
use interview_agent.Engine.Theorems.Clarification.{clarification_completes, with_clarification}
use interview_agent.Engine.Invariant.{IsWellFormed}
use interview_agent.Engine.Accepted.{cancel_interview_operation}
use interview_agent.Engine.Completion.{complete_interview_operation}
use interview_agent.Engine.Theorems.Expiry.{is_interview_expired-get_interview_expires_at}
use interview_agent.Engine.Theorems.Evaluation.{
  evaluation_completes, with_evaluation, answer_material_of,
}
use interview_agent.Engine.Runs.{
  second-Reachable, finished-Reachable, unknown_result, unknown_run, asked_run, answered_run,
}

Reachable-IsWellFormed_example : IsWellFormed finished
Reachable-IsWellFormed_example = Reachable-IsWellFormed finished-Reachable

frozen_stays_example : get_elem? second_unknown.questions 0 ≡ some (skipped_state 1)
frozen_stays_example =
    frozen_stays 0 (skipped_state 1) second-Reachable (handled unknown_command unknown_run refl)
      refl refl

Call-⟶_example : second.status ⟶ second_unknown.status
Call-⟶_example = Call-⟶ (handled unknown_command unknown_run refl)

terminal_refuses_example : ¬ Call finished started
unfolding is_terminal_interview_status
terminal_refuses_example = terminal_refuses refl

completed_answers_each_example :
    (length finished.questions ≡ finished.question_count)
    × All (λ q. (q.frozen ≡ true) × (is_some q.outcome ≡ true)) finished.questions
completed_answers_each_example = completed_answers_each finished-Reachable refl

handle-version_example : (result_interview unknown_result).version ≡ second.version + 1
handle-version_example = handle-version second unknown_command unknown_run

accepted_checks_example :
    (text_eq (command_base unknown_command).interview_id second.id ≡ true)
    × (is_valid (command_base unknown_command).occurred_at ≡ true)
    × (((command_base unknown_command).expected_version ≡ second.version)
          × (before (command_base unknown_command).occurred_at second.last_effective_activity_at
              ≡ false)
          × (is_some second.pending_operation && not (is_expire_command unknown_command) ≡ false)
        ⊎ (second.status ≡ active)
          × (exceeds
                (command_base unknown_command).occurred_at
                second.last_effective_activity_at
                inactivity_limit_ms
              ≡ true)
          × ((result_interview unknown_result).status ≡ abandoned))
accepted_checks_example = accepted_checks second unknown_command unknown_run

expired_abandons_example :
    handle_interview_command (some second) (existing (skip_question (sample_base 7 86403001)))
    ≡ ok (
        transition_result (record {
          interview = record second { version = 4; status = abandoned; phase = none };
          events =
              interview_abandoned
                (record { interview_id = 9 ∷ []; operation_id = 7 ∷ []; occurred_at = at 86403001 })
                expired
              ∷ [];
        }))
unfolding new_interview text_eq
expired_abandons_example =
    expired_abandons second (skip_question (sample_base 7 86403001)) refl refl refl refl
      (λ h. absurd (ground arith))

cancel_resumes_example :
    cancel_interview_operation
      (planned_interview (answer_plan started answer_command (open_state 1)))
      (answer_plan started answer_command (open_state 1))
    ≡ ok (resumed started (answer answer_command))
cancel_resumes_example = cancel_resumes started (answer answer_command) answered_run

retry_replans_example :
    (cancel_interview_operation
        (planned_interview (answer_plan started answer_command (open_state 1)))
        (answer_plan started answer_command (open_state 1))
      >>= λ j.
          retry_interview_operation j
            (answer answer_command)
            (clone_date answer_command.base.occurred_at))
    ≡ ok (answer_plan started answer_command (open_state 1))
retry_replans_example = retry_replans started (answer answer_command) answered_run

clarification_completes_example :
    (t : InterviewTransition) × (complete_interview_operation
        (planned_interview (clarification_plan started clarify_command))
        (clarification_plan started clarify_command)
        (record_question_clarification clarification_command)
      ≡ ok t)
    × (t.interview.phase ≡ some awaiting_response)
    × (t.interview.pending_operation ≡ none)
    × (t.interview.version ≡ started.version + 1)
    × (get_current_question_state t.interview
        ≡ ok (with_clarification (open_state 1) clarify_command clarification_command))
unfolding get_current_question_state new_interview new_question_state text_eq is_blank is_space
clarification_completes_example =
    clarification_completes started clarify_command clarification_command {q = open_state 1} refl
      asked_run refl refl refl refl refl refl refl

is_interview_expired-get_interview_expires_at_example :
    is_interview_expired started (at 86401001)
    ≡ ok (before (get_interview_expires_at started) (at 86401001))
unfolding get_interview_expires_at new_interview
is_interview_expired-get_interview_expires_at_example =
    is_interview_expired-get_interview_expires_at started (at 86401001) refl refl refl

evaluation_completes_example :
    (t : InterviewTransition) × (complete_interview_operation
        (planned_interview (answer_plan started answer_command (open_state 1)))
        (answer_plan started answer_command (open_state 1))
        (record_question_evaluation evaluation_command)
      ≡ ok t)
    × (t.interview.phase ≡ some awaiting_continue)
    × (t.interview.pending_operation ≡ none)
    × (t.interview.version ≡ started.version + 1)
    × (get_current_question_state t.interview
        ≡ ok (
            with_evaluation
              (open_state 1)
              (answer_material_of answer_command (open_state 1))
              sample_scored))
unfolding get_current_question_state get_current_question get_blueprint_item new_interview
    new_question_state text_eq score_question validate_rubric rubric_loop has check_awards
    check_award evidence_loop rubric_by_id award_loop derive_evaluated_question_outcome
    outcome_of_score parse_positive_question_score
evaluation_completes_example =
    evaluation_completes started answer_command evaluation_command {q = open_state 1}
      {s = sample_question 1 go_language} {e = sample_scored} refl refl answered_run refl refl refl
      refl refl refl refl refl
