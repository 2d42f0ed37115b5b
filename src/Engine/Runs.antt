-- ===== src/Engine/Runs.antt =====
-- packages/domain/src/engine.ts: runs at concrete inputs.
use interview_agent.Common.{
  some, ok, refl, ◌≡◌, [], ◌∷◌, List, any, Result, ◌>>=◌, Result-cases, inl, inr, arith, text_eq,
  has, is_blank, is_space,
}
use interview_agent.Interview.{
  is_terminal_interview_status, is_supported_question_count, zero_score, unknown,
}
use interview_agent.Scoring.{validate_rubric, rubric_loop, create_zero_question_outcome}
use interview_agent.Coverage.{
  validate_interview_blueprint_coverage, derive_unassessed_domain, missing_domains, is_assessed,
  count_domains, five_question_loop, five_question_quota,
}
use interview_agent.Engine.{
  transition_result, plan_result, existing, planned, ExistingCommand, Interview, DomainError,
  request_question_clarification, answer, InterviewCommandResult,
  unevaluated_question_outcome_recorded,
}
use interview_agent.Engine.Guards.{
  assert_valid_date, assert_active, assert_phase, assert_command_identity_and_date,
  assert_command_time_not_before_activity, assert_expected_version, assert_non_empty_text,
  assert_non_empty_blueprint_text, get_current_question_state, is_interview_expired,
  replace_current_question, advance_version, has_unanswered_system_follow_up, uses_material_id,
}
use interview_agent.Engine.Blueprints.{
  create, validate_and_freeze_blueprint, item_loop, validate_question_snapshot, check_descriptions,
  goal_loop, has_key, new_interview, new_question_state,
}
use interview_agent.Engine.Plans.{
  plan_answer_analysis, plan_question_clarification, make_answer_analysis_plan, material_kind,
}
use interview_agent.Engine.Immediate.{
  finish_questions, next_question, record_unevaluated_outcome, event_base, abandoned_state,
}
use interview_agent.Engine.Immediate
use interview_agent.Engine.Handle.{
  handle_interview_command, handle_existing, handle_current, dispatch,
}
use interview_agent.Engine.Refine.{result_interview}
use interview_agent.Engine.Theorems.WellFormed.{Reachable, created, called, handled}
use interview_agent.Samples.{
  create_command, started, second, finished, skip_first, skip_rest, unknown_command, second_unknown,
  clarify_command, answer_command, sample_base, open_state,
}
use interview_agent.Engine.Theorems.Operations.{clarification_plan, answer_plan}

pub started-Reachable : Reachable started
unfolding handle_interview_command create is_supported_question_count validate_and_freeze_blueprint
    is_blank is_space item_loop validate_question_snapshot check_descriptions validate_rubric
    rubric_loop has text_eq goal_loop has_key validate_interview_blueprint_coverage
    derive_unassessed_domain missing_domains is_assessed count_domains five_question_loop
    five_question_quota new_interview new_question_state assert_valid_date assert_non_empty_text
    assert_non_empty_blueprint_text
started-Reachable = created create_command refl refl

-- A list of commands, one after the other.
unfoldable run : Interview → List ExistingCommand → Result DomainError Interview
run i [] = ok i
run i (c ∷ cs) = handle_interview_command (some i) (existing c) >>= λ r. run (result_interview r) cs

run-Reachable :
    (i : Interview) (cs : List ExistingCommand) {j : Interview}
    → Reachable i
    → run i cs ≡ ok j
    → Reachable j
unfolding run
run-Reachable i [] r h = ground (arith, r)
run-Reachable i (c ∷ cs) r h =
    elim (Result-cases (handle_interview_command (some i) (existing c))) [
      | inl (x, e) ↦
          run-Reachable (result_interview x) cs (called r (handled c e refl)) (ground arith)
      | inr (x, e) ↦ absurd (ground arith)
    ]

reaches_second : run started skip_first ≡ ok second
unfolding run handle_interview_command handle_existing handle_current dispatch
    record_unevaluated_outcome Immediate.continue_interview next_question finish_questions
    replace_current_question advance_version get_current_question_state assert_valid_date
    assert_active assert_phase assert_command_identity_and_date
    assert_command_time_not_before_activity assert_expected_version is_interview_expired text_eq
    is_terminal_interview_status create_zero_question_outcome new_interview new_question_state
reaches_second = refl

reaches_finished : run second skip_rest ≡ ok finished
unfolding run handle_interview_command handle_existing handle_current dispatch
    record_unevaluated_outcome Immediate.continue_interview next_question finish_questions
    replace_current_question advance_version get_current_question_state assert_valid_date
    assert_active assert_phase assert_command_identity_and_date
    assert_command_time_not_before_activity assert_expected_version is_interview_expired text_eq
    is_terminal_interview_status create_zero_question_outcome Immediate.record_report new_interview
    new_question_state
reaches_finished = refl

pub second-Reachable : Reachable second
second-Reachable = run-Reachable started skip_first started-Reachable reaches_second

pub finished-Reachable : Reachable finished
finished-Reachable = run-Reachable second skip_rest second-Reachable reaches_finished

abbrev pub unknown_result : InterviewCommandResult
unknown_result = transition_result (record {
  interview = second_unknown;
  events =
      unevaluated_question_outcome_recorded (event_base second (sample_base 3 4000)) 2
        (zero_score unknown)
      ∷ [];
})

pub unknown_run :
    handle_interview_command (some second) (existing unknown_command) ≡ ok unknown_result
unfolding handle_interview_command handle_existing handle_current dispatch
    record_unevaluated_outcome replace_current_question advance_version get_current_question_state
    assert_valid_date assert_active assert_phase assert_command_identity_and_date
    assert_command_time_not_before_activity assert_expected_version is_interview_expired text_eq
    is_terminal_interview_status create_zero_question_outcome new_interview new_question_state
unknown_run = refl

pub asked_run :
    handle_interview_command
      (some started)
      (existing (planned (request_question_clarification clarify_command)))
    ≡ ok (plan_result (clarification_plan started clarify_command))
unfolding handle_interview_command handle_existing handle_current dispatch
    plan_question_clarification assert_valid_date assert_active assert_phase
    assert_command_identity_and_date assert_command_time_not_before_activity assert_expected_version
    is_interview_expired text_eq is_terminal_interview_status new_interview new_question_state
asked_run = refl

pub answered_run :
    handle_interview_command (some started) (existing (planned (answer answer_command)))
    ≡ ok (plan_result (answer_plan started answer_command (open_state 1)))
unfolding handle_interview_command handle_existing handle_current dispatch plan_answer_analysis
    make_answer_analysis_plan assert_valid_date assert_active assert_phase assert_non_empty_text
    is_blank is_space uses_material_id any has_unanswered_system_follow_up material_kind
    get_current_question_state assert_command_identity_and_date
    assert_command_time_not_before_activity assert_expected_version is_interview_expired text_eq
    is_terminal_interview_status new_interview new_question_state
answered_run = refl
