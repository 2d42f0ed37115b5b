-- ===== src/Saves/Tests.antt =====
-- packages/db/src/repositories/transition-validation.ts: the theorems at concrete inputs.
use interview_agent.Common.{
  ℕ, ◌≡◌, refl, some, ok, err, [], ◌∷◌, at, text_eq, is_blank, is_space, has, count_if, arith, none,
}
use interview_agent.Interview.{
  is_supported_question_count, zero_score, unknown, awaiting_response, awaiting_continue,
  main_answer, scored, parse_positive_question_score, abandoned,
}
use interview_agent.Engine.{
  Interview, InterviewTransition, unevaluated_question_outcome_recorded,
  record_question_clarification, question_clarification_requested, question_clarification_recorded,
  EventBase, request_question_clarification, answer_material_submitted,
  question_evaluation_recorded, record_question_evaluation, ExistingCommand, skip_question,
  interview_abandoned, expired, existing, transition_result,
}
use interview_agent.Engine.Blueprints.{
  create, validate_and_freeze_blueprint, item_loop, validate_question_snapshot, check_descriptions,
  goal_loop, has_key, new_interview, new_question_state,
}
use interview_agent.Engine.Guards.{
  assert_valid_date, assert_non_empty_text, assert_non_empty_blueprint_text,
  get_current_question_state, replace_current_question, advance_version, get_current_question,
  get_blueprint_item, has_unanswered_system_follow_up,
}
use interview_agent.Engine.Plans.{accept_operation, material_kind}
use interview_agent.Engine.Accepted.{
  assert_accepted_operation, is_accepted_operation, is_accepted_state, assert_plan_still_current,
}
use interview_agent.Engine.Completion.{
  complete_interview_operation, complete_planned, complete_question_clarification,
  complete_with_question_evaluation,
}
use interview_agent.Engine.Refine.{planned_interview}
use interview_agent.Engine.Theorems.Operations.{clarification_plan, answer_plan}
use interview_agent.Engine.Runs.{
  started-Reachable, second-Reachable, unknown_run, asked_run, answered_run,
}
use interview_agent.Samples.{
  create_command, open_state, started, second, second_unknown, unknown_command, clarify_command,
  clarification_command, sample_base, evaluation_command, answer_command, sample_scored,
}
use interview_agent.Saves.{corrupt_save, eventless_mismatch, not_canonical}
use interview_agent.Saves.Equal.{
  interview_eq, identity_eq, progress_eq, list_eq, blueprint_eq, item_eq, snapshot_eq,
  rubric_item_eq, goal_eq,
}
use interview_agent.Saves.Validate.{
  assert_immutable_identity, assert_event_identity, sequence_of, assert_aggregate_equals,
}
use interview_agent.Saves.Transitions.{validate_sequence, validate_interview_save}
use interview_agent.Saves.Accepts.{SameIdentity}
use interview_agent.Saves.Accepts.Commands.{save_of, handle-saved}
use interview_agent.Saves.Accepts.Eventless.{planned_first, Quiet-saved}
use interview_agent.Saves.Accepts.Acceptance.{quiet_save}
use interview_agent.Saves.Accepts.Completions.{clarification-saved}
use interview_agent.Saves.Sound.{Movement}
use interview_agent.Saves.Sound.Theorems.{saves_permitted}
use interview_agent.Engine.Immediate.{event_base}
use interview_agent.Saves.Eventless.{validate_eventless_transition, validate_pending_change}
use interview_agent.Engine.Validation.{validate_question_evaluation}
use interview_agent.Scoring.{
  validate_rubric, rubric_loop, score_question, check_awards, check_award, evidence_loop,
  rubric_by_id, award_loop, derive_evaluated_question_outcome, outcome_of_score,
}
use interview_agent.Saves.Equal.Same.{IsDated}
use interview_agent.Saves.Accepts.Answers.{save_with_payloads}
use interview_agent.Saves.Accepts.Sessions.{Session, begun}
use interview_agent.Saves.Accepts.Sessions.Answered.{Session-answer-saved}
use interview_agent.Coverage.{
  validate_interview_blueprint_coverage, derive_unassessed_domain, missing_domains, is_assessed,
  count_domains, five_question_loop, five_question_quota,
}
use interview_agent.Engine.Handle.{handle_interview_command}
use interview_agent.Engine.Theorems.Versions.{expired_abandons}
use interview_agent.Saves.Commands.{validate_abandonment}

second_unknown-IsDated : IsDated second_unknown
unfolding new_interview new_question_state
second_unknown-IsDated = record {
  created = refl;
  active_last = refl;
  requested = tt;
  pending = tt;
  questions = (
    record { answers = tt; clarifications = tt; follow_ups = tt },
    (
      record { answers = tt; clarifications = tt; follow_ups = tt },
      (
        record { answers = tt; clarifications = tt; follow_ups = tt },
        (
          record { answers = tt; clarifications = tt; follow_ups = tt },
          (record { answers = tt; clarifications = tt; follow_ups = tt }, tt),
        ),
      ),
    ),
  );
}

abbrev unknown_transition : InterviewTransition
unknown_transition = record {
  interview = second_unknown;
  events =
      unevaluated_question_outcome_recorded (event_base second (sample_base 3 4000)) 2
        (zero_score unknown)
      ∷ [];
}

handle-saved_example : validate_interview_save (save_of second unknown_transition) ≡ ok tt
unfolding new_interview
handle-saved_example =
    handle-saved second unknown_command second-Reachable refl unknown_run second_unknown-IsDated

saves_permitted_example : SameIdentity second second_unknown × Movement second second_unknown
unfolding new_interview
saves_permitted_example =
    saves_permitted (save_of second unknown_transition)
      (handle-saved second unknown_command second-Reachable refl unknown_run second_unknown-IsDated)

asked-IsDated : IsDated (planned_interview (clarification_plan started clarify_command))
unfolding new_interview new_question_state accept_operation advance_version
asked-IsDated = record {
  created = refl;
  active_last = refl;
  requested = tt;
  pending = refl;
  questions = (
    record { answers = tt; clarifications = tt; follow_ups = tt },
    (
      record { answers = tt; clarifications = tt; follow_ups = tt },
      (
        record { answers = tt; clarifications = tt; follow_ups = tt },
        (
          record { answers = tt; clarifications = tt; follow_ups = tt },
          (record { answers = tt; clarifications = tt; follow_ups = tt }, tt),
        ),
      ),
    ),
  );
}

Quiet-saved_example :
    validate_interview_save
      (quiet_save started (planned_interview (clarification_plan started clarify_command)))
    ≡ ok tt
Quiet-saved_example =
    Quiet-saved started-Reachable
      (planned_first (request_question_clarification clarify_command) asked_run refl) asked-IsDated

-- The clarification of the first question, recorded.
abbrev clarified : Interview
clarified = record started {
  version = 2;
  phase = some awaiting_response;
  questions =
      record (open_state 1) {
        question_clarifications =
            record {
              message_id = 4 ∷ [];
              text = 69 ∷ [];
              requested_at = at 2000;
              recorded_at = at 3602000;
            }
            ∷ [];
      }
      ∷ open_state 2
      ∷ open_state 3
      ∷ open_state 4
      ∷ open_state 5
      ∷ [];
  last_effective_activity_at = at 2000;
}

abbrev event_at : ℕ → EventBase
event_at time = record { interview_id = 9 ∷ []; operation_id = 1 ∷ []; occurred_at = at time }

abbrev clarified_transition : InterviewTransition
clarified_transition = record {
  interview = clarified;
  events =
      question_clarification_requested (event_at 2000) 1
      ∷ question_clarification_recorded (event_at 3602000) (4 ∷ []) 1 (69 ∷ [])
      ∷ [];
}

clarified_run :
    complete_interview_operation
      (planned_interview (clarification_plan started clarify_command))
      (clarification_plan started clarify_command)
      (record_question_clarification clarification_command)
    ≡ ok clarified_transition
unfolding complete_interview_operation assert_accepted_operation is_accepted_operation
    is_accepted_state assert_plan_still_current complete_planned complete_question_clarification
    get_current_question_state replace_current_question advance_version accept_operation
    new_interview new_question_state text_eq is_blank is_space
clarified_run = refl

clarified-IsDated : IsDated clarified
unfolding new_interview new_question_state
clarified-IsDated = record {
  created = refl;
  active_last = refl;
  requested = tt;
  pending = tt;
  questions = (
    record { answers = tt; clarifications = ((refl, refl), tt); follow_ups = tt },
    (
      record { answers = tt; clarifications = tt; follow_ups = tt },
      (
        record { answers = tt; clarifications = tt; follow_ups = tt },
        (
          record { answers = tt; clarifications = tt; follow_ups = tt },
          (record { answers = tt; clarifications = tt; follow_ups = tt }, tt),
        ),
      ),
    ),
  );
}

clarification-saved_example :
    validate_interview_save (
      save_of (planned_interview (clarification_plan started clarify_command)) clarified_transition)
    ≡ ok tt
clarification-saved_example =
    clarification-saved started clarify_command clarification_command asked_run clarified_run
      clarified-IsDated

-- The answer of the first question, evaluated.
abbrev evaluated_first : Interview
evaluated_first = record started {
  version = 2;
  phase = some awaiting_continue;
  questions =
      record (open_state 1) {
        answer_material =
            record { id = 3 ∷ []; kind = main_answer; text = 72 ∷ []; submitted_at = at 2000 } ∷ [];
        evaluation = some sample_scored;
        outcome = some (scored 50);
      }
      ∷ open_state 2
      ∷ open_state 3
      ∷ open_state 4
      ∷ open_state 5
      ∷ [];
  last_effective_activity_at = at 2000;
}

abbrev evaluated_transition : InterviewTransition
evaluated_transition = record {
  interview = evaluated_first;
  events =
      answer_material_submitted (event_at 2000) (3 ∷ []) main_answer 1 (72 ∷ [])
      ∷ question_evaluation_recorded (event_at 3602000) 1 sample_scored
      ∷ [];
}

evaluated_run :
    complete_interview_operation
      (planned_interview (answer_plan started answer_command (open_state 1)))
      (answer_plan started answer_command (open_state 1))
      (record_question_evaluation evaluation_command)
    ≡ ok evaluated_transition
unfolding complete_interview_operation assert_accepted_operation is_accepted_operation
    is_accepted_state assert_plan_still_current complete_planned complete_with_question_evaluation
    get_current_question_state get_current_question get_blueprint_item replace_current_question
    advance_version accept_operation new_interview new_question_state text_eq is_blank is_space
    material_kind has_unanswered_system_follow_up count_if score_question validate_rubric
    rubric_loop has check_awards check_award evidence_loop rubric_by_id award_loop
    derive_evaluated_question_outcome outcome_of_score parse_positive_question_score
    validate_question_evaluation
evaluated_run = refl

evaluated-IsDated : IsDated evaluated_first
unfolding new_interview new_question_state
evaluated-IsDated = record {
  created = refl;
  active_last = refl;
  requested = tt;
  pending = tt;
  questions = (
    record { answers = (refl, tt); clarifications = tt; follow_ups = tt },
    (
      record { answers = tt; clarifications = tt; follow_ups = tt },
      (
        record { answers = tt; clarifications = tt; follow_ups = tt },
        (
          record { answers = tt; clarifications = tt; follow_ups = tt },
          (record { answers = tt; clarifications = tt; follow_ups = tt }, tt),
        ),
      ),
    ),
  );
}

started-Session : Session started
unfolding handle_interview_command create is_supported_question_count validate_and_freeze_blueprint
    is_blank is_space item_loop validate_question_snapshot check_descriptions validate_rubric
    rubric_loop has text_eq goal_loop has_key validate_interview_blueprint_coverage
    derive_unassessed_domain missing_domains is_assessed count_domains five_question_loop
    five_question_quota new_interview new_question_state assert_valid_date assert_non_empty_text
    assert_non_empty_blueprint_text
started-Session = begun create_command refl refl

Session-answer-saved_example :
    validate_interview_save (
      save_with_payloads
        (planned_interview (answer_plan started answer_command (open_state 1)))
        evaluated_transition)
    ≡ ok tt
Session-answer-saved_example =
    Session-answer-saved started answer_command (record_question_evaluation evaluation_command)
      started-Session answered_run evaluated_run evaluated-IsDated

-- A save that only raises the version is refused.
version_refused :
    validate_interview_save (quiet_save second (record second { version = 4 }))
    ≡ err (corrupt_save second.id eventless_mismatch)
unfolding validate_interview_save assert_immutable_identity assert_event_identity sequence_of
    validate_sequence validate_eventless_transition validate_pending_change list_eq blueprint_eq
    item_eq snapshot_eq rubric_item_eq goal_eq text_eq new_interview
version_refused = refl

-- The clarification request of the first question is pending when a command comes too late: the engine
-- expires the interview and raises the version.
abbrev late_command : ExistingCommand
late_command = skip_question (record (sample_base 1 86402001) { expected_version = 2 })

abbrev late_transition : InterviewTransition
late_transition = record {
  interview = record started {
    version = 3;
    status = abandoned;
    phase = none;
    last_effective_activity_at = at 2000;
  };
  events =
      interview_abandoned
        (record { interview_id = 9 ∷ []; operation_id = 1 ∷ []; occurred_at = at 86402001 }) expired
      ∷ [];
}

late_run :
    handle_interview_command
      (some (planned_interview (clarification_plan started clarify_command)))
      (existing late_command)
    ≡ ok (transition_result late_transition)
unfolding accept_operation advance_version new_interview text_eq
late_run =
    expired_abandons (planned_interview (clarification_plan started clarify_command)) late_command
      refl refl refl refl (λ h. absurd (ground arith))

-- The guard expects the version of the acceptance, so it refuses to save that expiry, though the event
-- names the pending operation.
late_refused :
    validate_interview_save
      (save_of (planned_interview (clarification_plan started clarify_command)) late_transition)
    ≡ err (corrupt_save started.id not_canonical)
unfolding validate_interview_save assert_immutable_identity assert_event_identity sequence_of
    validate_sequence validate_abandonment list_eq blueprint_eq interview_eq identity_eq progress_eq
    item_eq snapshot_eq rubric_item_eq goal_eq text_eq new_interview new_question_state
    accept_operation advance_version assert_aggregate_equals
late_refused = refl
