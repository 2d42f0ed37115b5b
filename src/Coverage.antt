-- ===== src/Coverage.antt =====
-- packages/domain/src/blueprint-coverage.ts: the domains that a blueprint has to cover.
pub mod Quota
pub mod Accepts
pub mod Tests
use interview_agent.Common.{
  ℕ, suc, Bool, true, false, not, ◌||◌, ltb, ◌==◌, if◌then◌else◌, Option, none, some, List, [], ◌∷◌,
  length, Result, ok, ◌>>=◌, ◌>>◌, throw_if,
}
use interview_agent.Interview.{
  InterviewBlueprintItem, KnowledgeDomain, knowledge_domains, domain_eq, go_language,
  concurrency_runtime_performance,
}

-- `InvalidBlueprintCoverageError`, one constructor for each message.
pub data CoverageError : Type 0 where
  wrong_missing_count : ℕ → CoverageError
  wrong_question_count : ℕ → ℕ → CoverageError
  wrong_unassessed_domain : Option KnowledgeDomain → Option KnowledgeDomain → CoverageError
  wrong_domain_count : KnowledgeDomain → ℕ → ℕ → CoverageError
  unassessed_domain_declared : ℕ → CoverageError
  too_few_in_domain : KnowledgeDomain → ℕ → ℕ → CoverageError

abbrev pub item_domain : InterviewBlueprintItem → KnowledgeDomain
item_domain item = item.question.domain

-- `assessedDomains.has(domain)`
unfoldable pub is_assessed : List InterviewBlueprintItem → KnowledgeDomain → Bool
is_assessed [] domain = false
is_assessed (item ∷ rest) domain = domain_eq (item_domain item) domain || is_assessed rest domain

-- `domains.filter((domain) => !assessedDomains.has(domain))`
unfoldable pub missing_domains :
    List InterviewBlueprintItem → List KnowledgeDomain → List KnowledgeDomain
missing_domains items [] = []
missing_domains items (domain ∷ rest) =
    let more = missing_domains items rest in
    if is_assessed items domain then more else domain ∷ more

-- `missingDomains[0] ?? null`
abbrev pub first_domain : List KnowledgeDomain → Option KnowledgeDomain
first_domain [] = none
first_domain (domain ∷ rest) = some domain

unfoldable pub derive_unassessed_domain :
    List InterviewBlueprintItem → ℕ → Result CoverageError (Option KnowledgeDomain)
derive_unassessed_domain items question_count =
    let missing = missing_domains items knowledge_domains in
    if not (question_count == 5) then ok none else (do
      throw_if (not (length missing == 1)) (wrong_missing_count (length missing))
      ok (first_domain missing))

-- `domainCounts` as a function: `set(domain, (get(domain) ?? 0) + 1)`, and the loop of it.
abbrev pub bump : (KnowledgeDomain → ℕ) → KnowledgeDomain → KnowledgeDomain → ℕ
bump counts domain d = if domain_eq domain d then suc (counts d) else counts d

unfoldable pub count_domains :
    (KnowledgeDomain → ℕ) → List InterviewBlueprintItem → KnowledgeDomain → ℕ
count_domains counts [] = counts
count_domains counts (item ∷ rest) = count_domains (bump counts (item_domain item)) rest

abbrev pub optional_domain_eq : Option KnowledgeDomain → Option KnowledgeDomain → Bool
optional_domain_eq none none = true
optional_domain_eq (some a) (some b) = domain_eq a b
optional_domain_eq _ _ = false

-- What a five-question interview requires of one domain.
unfoldable pub five_question_quota : Option KnowledgeDomain → KnowledgeDomain → ℕ
five_question_quota unassessed domain = if optional_domain_eq (some domain) unassessed then 0 else 1

unfoldable pub five_question_loop :
    (KnowledgeDomain → ℕ)
    → Option KnowledgeDomain
    → List KnowledgeDomain
    → Result CoverageError (Unit {0})
unfolding five_question_quota
five_question_loop counts unassessed [] = ok tt
five_question_loop counts unassessed (domain ∷ rest) = do
  throw_if (not (counts domain == five_question_quota unassessed domain))
      (wrong_domain_count domain (five_question_quota unassessed domain) (counts domain))
  five_question_loop counts unassessed rest

-- `minimum` of the last loop.
unfoldable pub domain_minimum : ℕ → KnowledgeDomain → ℕ
domain_minimum question_count domain =
    if question_count == 15
    then 2
    else if domain_eq domain go_language || domain_eq domain concurrency_runtime_performance
    then 2
    else 1

unfoldable pub minimum_loop :
    (KnowledgeDomain → ℕ) → ℕ → List KnowledgeDomain → Result CoverageError (Unit {0})
unfolding domain_minimum
minimum_loop counts question_count [] = ok tt
minimum_loop counts question_count (domain ∷ rest) = do
  throw_if (ltb (counts domain) (domain_minimum question_count domain))
      (too_few_in_domain domain (domain_minimum question_count domain) (counts domain))
  minimum_loop counts question_count rest

unfoldable pub validate_interview_blueprint_coverage :
    ℕ → List InterviewBlueprintItem → Option KnowledgeDomain → Result CoverageError (Unit {0})
validate_interview_blueprint_coverage question_count items unassessed_domain =
    let counts = count_domains (λ _. 0) items in
    throw_if (not (length items == question_count))
      (wrong_question_count question_count (length items))
    >> (if question_count == 5
        then (do
          expected ← derive_unassessed_domain items question_count
          throw_if (not (optional_domain_eq unassessed_domain expected))
              (wrong_unassessed_domain unassessed_domain expected)
          five_question_loop counts expected knowledge_domains)
        else (do
          throw_if (not (optional_domain_eq unassessed_domain none))
              (unassessed_domain_declared question_count)
          minimum_loop counts question_count knowledge_domains))
