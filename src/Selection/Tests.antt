-- ===== src/Selection/Tests.antt =====
-- packages/domain/src/blueprint-selection.ts: the theorems at concrete inputs.
use interview_agent.Common.{
  ℕ, ◌≡◌, refl, some, ok, List, [], ◌∷◌, All, length, arith, has, text_eq, is_blank, is_space, get,
  set,
}
use interview_agent.Interview.{
  KnowledgeDomain, is_supported_question_count, InterviewBlueprint, InterviewBlueprintItem,
  QuestionSnapshot, go_language, concurrency_runtime_performance, http_rpc_api, database_storage,
  cache_messaging_distributed, testing_observability_engineering,
}
use interview_agent.Coverage.{
  derive_unassessed_domain, validate_interview_blueprint_coverage, missing_domains, is_assessed,
  count_domains, five_question_quota, five_question_loop,
}
use interview_agent.Samples.{sample_question}
use interview_agent.Selection.{BlueprintSelectionInput}
use interview_agent.Selection.Ranks.{
  stable_rank, text_part, json_array, json_part, json_tail, json_points, json_unit, digits_loop,
  json_number, hash_loop, sort, insert, text_less, candidate_less, candidate_rank, rank_candidates,
  domain_less, rank_domains,
}
use interview_agent.Selection.Choice.{
  Groups, group_loop, push, blueprint_domain_minimums, choose_five_question_omitted_domain,
  omitted_choices, availability_loop, all_recent, index_from, domain_shortages, selection_loop,
  pick, filter, take,
}
use interview_agent.Selection.Interleave.{
  interleave_selected_questions, interleave_loop, keys, queue_less, find_other, delete, total,
}
use interview_agent.Selection.Select.{
  select, arranged_questions, finished_blueprint, blueprint_items, flexible_questions, push_all,
  selected_ids,
}
use interview_agent.Selection.Eligible.{select-All}
use interview_agent.Selection.Rounds.{interleave-returns}
use interview_agent.Coverage.Quota.{CoversFive}
use interview_agent.Selection.Covers.{select-CoversFive}

-- One question for each of five domains.
abbrev five_candidates : BlueprintSelectionInput
five_candidates = record {
  question_count = 5;
  selection_seed = 83 ∷ [];
  eligible_questions =
      sample_question 1 go_language
      ∷ sample_question 2 concurrency_runtime_performance
      ∷ sample_question 3 http_rpc_api
      ∷ sample_question 4 database_storage
      ∷ sample_question 5 cache_messaging_distributed
      ∷ [];
  recent_question_ids = [];
}

-- The hash of the one part "a", by another implementation.
hash_of_a : stable_rank (text_part (97 ∷ []) ∷ []) ≡ 3109890133375250690
unfolding stable_rank json_array json_part json_tail json_points json_unit hash_loop
hash_of_a = refl

-- Two queues, of two questions and one.
abbrev two_queues : Groups
two_queues =
    (go_language, sample_question 1 go_language ∷ sample_question 2 go_language ∷ [])
    ∷ (http_rpc_api, sample_question 3 http_rpc_api ∷ [])
    ∷ []

interleave-returns_example :
    (ordered : List QuestionSnapshot) × ((interleave_selected_questions (83 ∷ []) two_queues
        ≡ ok ordered)
      × (length ordered ≡ total two_queues))
interleave-returns_example =
    interleave-returns (83 ∷ []) two_queues (omega arith, (omega arith, tt))

-- The item at a position, by the identifier of its question.
abbrev item_at : ℕ → ℕ → KnowledgeDomain → InterviewBlueprintItem
item_at position n domain = record { position = position; question = sample_question n domain }

-- The blueprint, in the order that the hash gives.
abbrev five_blueprint : InterviewBlueprint
five_blueprint = record {
  selection_seed = 83 ∷ [];
  unassessed_domain = some testing_observability_engineering;
  questions =
      item_at 1 1 go_language
      ∷ item_at 2 2 concurrency_runtime_performance
      ∷ item_at 3 5 cache_messaging_distributed
      ∷ item_at 4 3 http_rpc_api
      ∷ item_at 5 4 database_storage
      ∷ [];
}

five_selected : select five_candidates ≡ ok five_blueprint
unfolding select arranged_questions finished_blueprint blueprint_items flexible_questions push_all
    selected_ids interleave_selected_questions interleave_loop keys queue_less find_other delete
    total group_loop push blueprint_domain_minimums choose_five_question_omitted_domain
    omitted_choices availability_loop all_recent index_from domain_shortages selection_loop pick
    filter take stable_rank json_array json_part json_tail json_points json_unit digits_loop
    json_number hash_loop sort insert text_less candidate_less candidate_rank rank_candidates
    domain_less rank_domains has text_eq is_blank is_space get set derive_unassessed_domain
    validate_interview_blueprint_coverage missing_domains is_assessed count_domains
    five_question_quota five_question_loop is_supported_question_count
five_selected = refl

select-All_example : All (λ item. length item.question.rubric ≡ 2) five_blueprint.questions
select-All_example =
    select-All (λ question. length question.rubric ≡ 2) five_candidates
      (refl, (refl, (refl, (refl, (refl, tt))))) five_selected

select-CoversFive_example :
    (length five_blueprint.questions ≡ 5)
    × CoversFive five_blueprint.questions five_blueprint.unassessed_domain
select-CoversFive_example = select-CoversFive five_candidates refl five_selected
