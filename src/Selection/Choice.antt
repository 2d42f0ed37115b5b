-- ===== src/Selection/Choice.antt =====
-- packages/domain/src/blueprint-selection.ts: the groups of candidates, the minimum of each domain and the
-- choice within a domain.
use interview_agent.Common.{
  ℕ, ◌+◌, ◌-◌, Bool, true, false, not, ◌==◌, ltb, if◌then◌else◌, Option, none, some, List, [], ◌∷◌,
  ◌++◌, length, has, Text, is_blank, Result, ok, err, ◌>>=◌, ◌>>◌, throw_if, get, set, zero, suc,
}
use interview_agent.Interview.{
  KnowledgeDomain, knowledge_domains, domain_eq, go_language, concurrency_runtime_performance,
  QuestionSnapshot, is_supported_question_count,
}
use interview_agent.Selection.{
  BlueprintDomainShortage, SelectionError, invalid_selection_input, unsupported_question_count,
  blank_selection_seed, empty_catalog, duplicate_candidate,
}
use interview_agent.Selection.Ranks.{sort, rank_candidates, rank_domains, candidate_purpose}

-- `Map<KnowledgeDomain, QuestionSnapshot[]>`
abbrev pub Groups : Type 0
Groups = List (KnowledgeDomain × List QuestionSnapshot)

-- `groups.get(domain) ?? []`
abbrev pub group_or_none : Option (List QuestionSnapshot) → List QuestionSnapshot
group_or_none none = []
group_or_none (some questions) = questions

-- `groups.get(domain) ?? []`, pushed to and set again.
unfoldable pub push : Groups → QuestionSnapshot → Groups
push groups question =
    set domain_eq groups question.domain
      (group_or_none (get domain_eq groups question.domain) ++ question ∷ [])

unfoldable pub group_loop :
    List Text → Groups → List QuestionSnapshot → Result SelectionError Groups
unfolding push
group_loop seen groups [] = ok groups
group_loop seen groups (candidate ∷ rest) = do
  throw_if (has seen candidate.question_id)
      (invalid_selection_input (duplicate_candidate candidate.question_id))
  group_loop (candidate.question_id ∷ seen) (push groups candidate) rest

abbrev pub group_candidates : List QuestionSnapshot → Result SelectionError Groups
group_candidates candidates = group_loop [] [] candidates

-- `Array.filter`
unfoldable pub filter {ℓ} : {A : Type ℓ} → (A → Bool) → List A → List A
filter test [] = []
filter test (x ∷ xs) = let rest = filter test xs in if test x then x ∷ rest else rest

-- `slice(0, count)`
unfoldable pub take {ℓ} : {A : Type ℓ} → ℕ → List A → List A
take zero xs = []
take (suc count) [] = []
take (suc count) (x ∷ xs) = x ∷ take count xs

-- `recentQuestionIds.has(candidate.questionId)`
abbrev pub is_recent : List Text → QuestionSnapshot → Bool
is_recent recent candidate = has recent candidate.question_id

-- `Array.every` with that test.
unfoldable pub all_recent : List Text → List QuestionSnapshot → Bool
all_recent recent [] = true
all_recent recent (candidate ∷ rest) =
    let later = all_recent recent rest in if is_recent recent candidate then later else false

-- An element of `choices`.
pub record OmittedChoice : Type 0 where
  pub omitted_domain : KnowledgeDomain
  pub unavailable_domains : ℕ
  pub unavoidable_recent_domains : ℕ
  pub seed_rank : ℕ

-- The loop over the domains that are not omitted.
unfoldable pub availability_loop :
    Groups → List Text → KnowledgeDomain → List KnowledgeDomain → ℕ × ℕ
unfolding all_recent
availability_loop groups recent omitted [] = (0, 0)
availability_loop groups recent omitted (domain ∷ rest) =
    let later = availability_loop groups recent omitted rest in
    let candidates = group_or_none (get domain_eq groups domain) in
    if domain_eq domain omitted
    then later
    else if length candidates == 0
    then (later.0 + 1, later.1)
    else if all_recent recent candidates
    then (later.0, later.1 + 1)
    else later

-- `rankByDomain.get(domain) ?? Number.MAX_SAFE_INTEGER`, the index among the ranked domains.
unfoldable pub index_from : ℕ → KnowledgeDomain → List KnowledgeDomain → ℕ
index_from index domain [] = 9007199254740991
index_from index domain (d ∷ rest) =
    let later = index_from (index + 1) domain rest in if domain_eq d domain then index else later

unfoldable pub omitted_choices :
    Groups → List Text → List KnowledgeDomain → List KnowledgeDomain → List OmittedChoice
unfolding availability_loop index_from
omitted_choices groups recent ranked [] = []
omitted_choices groups recent ranked (domain ∷ rest) =
    let counts = availability_loop groups recent domain knowledge_domains in
    record {
      omitted_domain = domain;
      unavailable_domains = counts.0;
      unavoidable_recent_domains = counts.1;
      seed_rank = index_from 0 domain ranked;
    }
    ∷ omitted_choices groups recent ranked rest

abbrev pub choice_less : OmittedChoice → OmittedChoice → Bool
choice_less left right =
    if ltb left.unavailable_domains right.unavailable_domains
    then true
    else if ltb right.unavailable_domains left.unavailable_domains
    then false
    else if ltb left.unavoidable_recent_domains right.unavoidable_recent_domains
    then true
    else if ltb right.unavoidable_recent_domains left.unavoidable_recent_domains
    then false
    else ltb left.seed_rank right.seed_rank

-- `choices[0]`, if there is one.
abbrev pub first_choice : List OmittedChoice → Result SelectionError KnowledgeDomain
first_choice [] = err (invalid_selection_input empty_catalog)
first_choice (choice ∷ rest) = ok choice.omitted_domain

unfoldable pub choose_five_question_omitted_domain :
    Text → Groups → List Text → Result SelectionError KnowledgeDomain
unfolding sort omitted_choices rank_domains
choose_five_question_omitted_domain seed groups recent = first_choice (
    sort choice_less
      (omitted_choices groups recent (rank_domains seed knowledge_domains) knowledge_domains))

-- The minimums of ten questions.
abbrev pub ten_minimum : KnowledgeDomain → ℕ
ten_minimum go_language = 2
ten_minimum concurrency_runtime_performance = 2
ten_minimum _ = 1

-- A `DomainQuota` is a function.
unfoldable pub blueprint_domain_minimums :
    ℕ → Text → Groups → List Text → Result SelectionError (KnowledgeDomain → ℕ)
unfolding choose_five_question_omitted_domain
blueprint_domain_minimums question_count seed groups recent = do
  throw_if (not (is_supported_question_count question_count))
      (invalid_selection_input unsupported_question_count)
  throw_if (is_blank seed) (invalid_selection_input blank_selection_seed)
  if question_count == 5
      then (do
        omitted ← choose_five_question_omitted_domain seed groups recent
        ok (λ domain. if domain_eq domain omitted then 0 else 1))
      else if question_count == 10
      then ok ten_minimum
      else ok (λ domain. 2)

unfoldable pub domain_shortages :
    (KnowledgeDomain → ℕ) → Groups → List KnowledgeDomain → List BlueprintDomainShortage
domain_shortages minimums groups [] = []
domain_shortages minimums groups (domain ∷ rest) =
    let later = domain_shortages minimums groups rest in
    let available = length (group_or_none (get domain_eq groups domain)) in
    if ltb available (minimums domain)
    then record { domain = domain; required = minimums domain; available = available } ∷ later
    else later

-- The first candidates of the unseen ones, and as many recent ones as are missing.
unfoldable pub pick : Text → Text → List Text → ℕ → List QuestionSnapshot → List QuestionSnapshot
unfolding rank_candidates filter take
pick seed purpose recent required candidates =
    let unseen = filter (λ candidate. not (is_recent recent candidate)) candidates in
    let known = filter (is_recent recent) candidates in
    let selected = take required (rank_candidates seed purpose unseen) in
    if ltb (length selected) required
    then selected ++ take (required - length selected) (rank_candidates seed purpose known)
    else selected

-- The loop over the domains that fills `selectedByDomain`.
unfoldable pub selection_loop :
    Text → List Text → (KnowledgeDomain → ℕ) → Groups → Groups → List KnowledgeDomain → Groups
unfolding pick
selection_loop seed recent minimums groups selected [] = selected
selection_loop seed recent minimums groups selected (domain ∷ rest) =
    let chosen =
      pick seed candidate_purpose recent (minimums domain)
        (group_or_none (get domain_eq groups domain)) in
    let skipped = selection_loop seed recent minimums groups selected rest in
    let filled =
      selection_loop seed recent minimums groups (set domain_eq selected domain chosen) rest in
    if minimums domain == 0 then skipped else filled
