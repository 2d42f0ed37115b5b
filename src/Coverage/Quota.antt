-- ===== src/Coverage/Quota.antt =====
-- packages/domain/src/blueprint-coverage.ts: counts of questions by domain, and the loops that check them.
use interview_agent.Common.{
  ℕ, suc, ◌+◌, ◌≤◌, ◌≡◌, refl, true, not, Option, none, some, List, [], ◌∷◌, ok, arith, ◌==◌,
  if◌then◌else◌,
}
use interview_agent.Interview.{
  InterviewBlueprintItem, KnowledgeDomain, knowledge_domains, domain_eq, go_language,
  concurrency_runtime_performance, http_rpc_api, database_storage, cache_messaging_distributed,
  testing_observability_engineering,
}
use interview_agent.Coverage.{
  item_domain, is_assessed, bump, count_domains, five_question_quota, five_question_loop,
  domain_minimum, minimum_loop,
}

-- The number of questions of a domain.
unfoldable pub questions_in : List InterviewBlueprintItem → KnowledgeDomain → ℕ
questions_in [] d = 0
questions_in (item ∷ rest) d =
    let n = questions_in rest d in if domain_eq (item_domain item) d then suc n else n

pub domain_eq_sound : (a b : KnowledgeDomain) → domain_eq a b ≡ true → a ≡ b
domain_eq_sound a b h = ground arith

pub domain_eq_refl : (a : KnowledgeDomain) → domain_eq a a ≡ true
domain_eq_refl a = ground arith

-- The loop adds to each count the questions of its domain.
pub count_domains-eq :
    (counts : KnowledgeDomain → ℕ) (items : List InterviewBlueprintItem) (d : KnowledgeDomain)
    → count_domains counts items d ≡ counts d + questions_in items d
unfolding count_domains questions_in
count_domains-eq counts [] d = omega arith
count_domains-eq counts (item ∷ rest) d =
    ground (arith, count_domains-eq (bump counts (item_domain item)) rest d)

pub is_assessed_iff :
    (items : List InterviewBlueprintItem) (d : KnowledgeDomain)
    → is_assessed items d ≡ not (questions_in items d == 0)
unfolding is_assessed questions_in
is_assessed_iff [] d = refl
is_assessed_iff (item ∷ rest) d = ground (arith, is_assessed_iff rest d)

-- What a five-question interview has to cover: one domain has no question and is declared, every
-- other has one.
abbrev pub CoversFive : List InterviewBlueprintItem → Option KnowledgeDomain → Type 0
CoversFive items none = ⊥
CoversFive items (some omitted) =
    (d : KnowledgeDomain) → questions_in items d ≡ (if domain_eq d omitted then 0 else 1)

-- What a longer interview has to cover: every domain has its minimum and none is declared.
abbrev pub CoversAll : ℕ → List InterviewBlueprintItem → Option KnowledgeDomain → Type 0
CoversAll question_count items unassessed =
    (unassessed ≡ none)
    × ((d : KnowledgeDomain) → domain_minimum question_count d ≤ questions_in items d)

pub minimum_loop_sound :
    (counts : KnowledgeDomain → ℕ) (n : ℕ) {u : Unit {0}}
    → minimum_loop counts n knowledge_domains ≡ ok u
    → (d : KnowledgeDomain) → domain_minimum n d ≤ counts d
unfolding minimum_loop
minimum_loop_sound counts n h go_language = ground arith
minimum_loop_sound counts n h concurrency_runtime_performance = ground arith
minimum_loop_sound counts n h http_rpc_api = ground arith
minimum_loop_sound counts n h database_storage = ground arith
minimum_loop_sound counts n h cache_messaging_distributed = ground arith
minimum_loop_sound counts n h testing_observability_engineering = ground arith

pub minimum_loop_complete :
    (counts : KnowledgeDomain → ℕ) (n : ℕ) (ds : List KnowledgeDomain)
    → ((d : KnowledgeDomain) → domain_minimum n d ≤ counts d)
    → minimum_loop counts n ds ≡ ok tt
unfolding minimum_loop
minimum_loop_complete counts n [] h = refl
minimum_loop_complete counts n (d ∷ ds) h = ground (arith, h d, minimum_loop_complete counts n ds h)

pub five_question_loop_complete :
    (counts : KnowledgeDomain → ℕ) (un : Option KnowledgeDomain) (ds : List KnowledgeDomain)
    → ((d : KnowledgeDomain) → counts d ≡ five_question_quota un d)
    → five_question_loop counts un ds ≡ ok tt
unfolding five_question_loop
five_question_loop_complete counts un [] h = refl
five_question_loop_complete counts un (d ∷ ds) h =
    ground (arith, h d, five_question_loop_complete counts un ds h)

pub five_question_loop_sound :
    (counts : KnowledgeDomain → ℕ) (un : Option KnowledgeDomain) {u : Unit {0}}
    → five_question_loop counts un knowledge_domains ≡ ok u
    → (d : KnowledgeDomain) → counts d ≡ five_question_quota un d
unfolding five_question_loop
five_question_loop_sound counts un h go_language = ground arith
five_question_loop_sound counts un h concurrency_runtime_performance = ground arith
five_question_loop_sound counts un h http_rpc_api = ground arith
five_question_loop_sound counts un h database_storage = ground arith
five_question_loop_sound counts un h cache_messaging_distributed = ground arith
five_question_loop_sound counts un h testing_observability_engineering = ground arith
