-- ===== src/Samples.antt =====
-- Concrete interviews, blueprints and commands for the witnesses and tests.
use interview_agent.Common.{true, false, List, ℕ, none, some, [], ◌∷◌, whole, at}
use interview_agent.Interview.{
  KnowledgeDomain, go_language, concurrency_runtime_performance, http_rpc_api, database_storage,
  cache_messaging_distributed, testing_observability_engineering, clarification, RubricItemSnapshot,
  FollowUpGoalSnapshot, QuestionSnapshot, InterviewBlueprintItem, InterviewBlueprint,
  QuestionEvaluationInput, relevant, completed, awaiting_continue, complete, zero_score, skipped,
  unknown, QuestionEvaluation, scored,
}
use interview_agent.Engine.{
  CommandBase, CreateInterviewCommand, ExistingCommand, Interview, InterviewQuestionState,
  AnswerCommand, submit_answer, skip_question, continue_interview, mark_question_unknown,
  record_report, RecordQuestionClarificationCommand, RecordQuestionEvaluationCommand,
}
use interview_agent.Engine.Blueprints.{new_interview}

-- Two rubric items, of 60 and 40 points.
abbrev pub sample_rubric : List RubricItemSnapshot
sample_rubric =
    record { id = 1 ∷ []; description = 65 ∷ []; weight = whole 60 }
    ∷ record { id = 2 ∷ []; description = 66 ∷ []; weight = whole 40 }
    ∷ []

abbrev pub sample_goal : FollowUpGoalSnapshot
sample_goal = record { id = 7 ∷ []; kind = clarification; goal = 67 ∷ [] }

abbrev pub sample_question : ℕ → KnowledgeDomain → QuestionSnapshot
sample_question n domain = record {
  question_id = n ∷ [];
  question_version = whole 1;
  domain = domain;
  source_wording = 81 ∷ [];
  displayed_wording = 81 ∷ [];
  rubric = sample_rubric;
  follow_up_goals = sample_goal ∷ [];
  knowledge_explanation = 75 ∷ [];
}

abbrev pub sample_item : ℕ → KnowledgeDomain → InterviewBlueprintItem
sample_item n domain = record { position = n; question = sample_question n domain }

-- Five questions, none of testing.
abbrev pub five_items : List InterviewBlueprintItem
five_items =
    sample_item 1 go_language
    ∷ sample_item 2 concurrency_runtime_performance
    ∷ sample_item 3 http_rpc_api
    ∷ sample_item 4 database_storage
    ∷ sample_item 5 cache_messaging_distributed
    ∷ []

abbrev pub sample_blueprint : InterviewBlueprint
sample_blueprint = record {
  selection_seed = 83 ∷ [];
  unassessed_domain = some testing_observability_engineering;
  questions = five_items;
}

-- A command of interview 9 at a version and a time.
abbrev pub sample_base : ℕ → ℕ → CommandBase
sample_base version time = record {
  interview_id = 9 ∷ [];
  operation_id = version ∷ [];
  expected_version = version;
  occurred_at = at time;
}

abbrev pub create_command : CreateInterviewCommand
create_command = record {
  base = sample_base 0 1000;
  account_id = 8 ∷ [];
  question_count = 5;
  blueprint = sample_blueprint;
}

abbrev pub started : Interview
started = new_interview create_command sample_blueprint

-- The state of a question that was skipped and frozen, and of one that is untouched.
abbrev pub skipped_state : ℕ → InterviewQuestionState
skipped_state n = record {
  position = n;
  answer_material = [];
  question_clarifications = [];
  system_follow_ups = [];
  evaluation = none;
  outcome = some (zero_score skipped);
  frozen = true;
}

abbrev pub open_state : ℕ → InterviewQuestionState
open_state n = record (skipped_state n) { outcome = none; frozen = false }

-- The interview at its second question, with the first skipped.
abbrev pub second : Interview
second = record started {
  version = 3;
  current_question_position = 2;
  questions = skipped_state 1 ∷ open_state 2 ∷ open_state 3 ∷ open_state 4 ∷ open_state 5 ∷ [];
  last_effective_activity_at = at 3000;
}

abbrev pub skip_first : List ExistingCommand
skip_first = skip_question (sample_base 1 2000) ∷ continue_interview (sample_base 2 3000) ∷ []

abbrev pub unknown_command : ExistingCommand
unknown_command = mark_question_unknown (sample_base 3 4000)

-- The second question marked as unknown.
abbrev pub second_unknown : Interview
second_unknown = record second {
  version = 4;
  phase = some awaiting_continue;
  questions =
      skipped_state 1
      ∷ record (open_state 2) { outcome = some (zero_score unknown) }
      ∷ open_state 3
      ∷ open_state 4
      ∷ open_state 5
      ∷ [];
  last_effective_activity_at = at 4000;
}

-- The rest of an interview that skips every question, and its complete report.
abbrev pub skip_rest : List ExistingCommand
skip_rest =
    skip_question (sample_base 3 4000)
    ∷ continue_interview (sample_base 4 5000)
    ∷ skip_question (sample_base 5 6000)
    ∷ continue_interview (sample_base 6 7000)
    ∷ skip_question (sample_base 7 8000)
    ∷ continue_interview (sample_base 8 9000)
    ∷ skip_question (sample_base 9 10000)
    ∷ continue_interview (sample_base 10 11000)
    ∷ record_report
        (record { base = sample_base 11 12000; report_id = 5 ∷ []; report_kind = complete })
    ∷ []

abbrev pub finished : Interview
finished = record second {
  version = 12;
  status = completed;
  phase = none;
  current_question_position = 5;
  questions =
      skipped_state 1 ∷ skipped_state 2 ∷ skipped_state 3 ∷ skipped_state 4 ∷ skipped_state 5 ∷ [];
  report_requested_at = some (at 11000);
  report_id = some (5 ∷ []);
  last_effective_activity_at = at 11000;
}

-- A request for a clarification, an answer, and a clarification an hour after its request.
abbrev pub clarify_command : CommandBase
clarify_command = sample_base 1 2000

abbrev pub answer_command : AnswerCommand
answer_command = record {
  type = submit_answer;
  base = sample_base 1 2000;
  answer_material_id = 3 ∷ [];
  text = 72 ∷ [];
}

abbrev pub clarification_command : RecordQuestionClarificationCommand
clarification_command = record {
  base = record {
    interview_id = 9 ∷ [];
    operation_id = 1 ∷ [];
    expected_version = 2;
    occurred_at = at 3602000;
  };
  message_id = 4 ∷ [];
  text = 69 ∷ [];
}

-- An evaluation with 50 of 60 and 0 of 40 points.
abbrev pub sample_evaluation : QuestionEvaluationInput
sample_evaluation = record {
  id = 6 ∷ [];
  classification = relevant;
  rubric_items =
      record {
        rubric_item_id = 1 ∷ [];
        evidence_material_ids = (3 ∷ []) ∷ [];
        awarded_points = whole 50;
        missing_or_incorrect_points = [];
      }
      ∷ record {
        rubric_item_id = 2 ∷ [];
        evidence_material_ids = [];
        awarded_points = whole 0;
        missing_or_incorrect_points = [];
      }
      ∷ [];
}

-- What `scoreQuestion` makes of it.
abbrev pub sample_scored : QuestionEvaluation
sample_scored = record {
  id = sample_evaluation.id;
  classification = sample_evaluation.classification;
  rubric_items = sample_evaluation.rubric_items;
  outcome = scored 50;
}

abbrev pub evaluation_command : RecordQuestionEvaluationCommand
evaluation_command = record { base = clarification_command.base; evaluation = sample_evaluation }
