-- ===== src/Coverage/Accepts.antt =====
-- packages/domain/src/blueprint-coverage.ts: what `validateInterviewBlueprintCoverage` accepts.
use interview_agent.Common.{
  ℕ, ◌≡◌, ◌≢◌, ◌↔◌, refl, true, Option, none, some, List, [], ◌∷◌, length, ok, arith, inl, inr,
  Result-cases, ap, sym,
}
use interview_agent.Interview.{
  InterviewBlueprintItem, KnowledgeDomain, knowledge_domains, go_language,
  concurrency_runtime_performance, http_rpc_api, database_storage, cache_messaging_distributed,
  testing_observability_engineering,
}
use interview_agent.Coverage.{
  missing_domains, first_domain, derive_unassessed_domain, count_domains, optional_domain_eq,
  five_question_quota, five_question_loop, minimum_loop, validate_interview_blueprint_coverage,
}
use interview_agent.Coverage.Quota.{
  domain_eq_sound, domain_eq_refl, count_domains-eq, is_assessed_iff, CoversFive, CoversAll,
  minimum_loop_sound, minimum_loop_complete, five_question_loop_sound, five_question_loop_complete,
}

sound_all :
    (n : ℕ) (items : List InterviewBlueprintItem) (un : Option KnowledgeDomain)
    → n ≢ 5
    → validate_interview_blueprint_coverage n items un ≡ ok tt
    → (length items ≡ n) × CoversAll n items un
unfolding validate_interview_blueprint_coverage
sound_all n items un ne h =
    let counts = count_domains (λ _. 0) items in
    elim (Result-cases (minimum_loop counts n knowledge_domains)) [
      | inl (u, e) ↦ (
        ground arith,
        (
          ground arith,
          λ d. omega (arith, minimum_loop_sound counts n e d, count_domains-eq (λ _. 0) items d),
        ),
      )
      | inr (x, bad) ↦ absurd (ground arith)
    ]

complete_all :
    (n : ℕ) (items : List InterviewBlueprintItem) (un : Option KnowledgeDomain)
    → n ≢ 5
    → (length items ≡ n) × CoversAll n items un
    → validate_interview_blueprint_coverage n items un ≡ ok tt
unfolding validate_interview_blueprint_coverage
complete_all n items un ne (len, (none_declared, enough)) = ground (
  arith,
  minimum_loop_complete (count_domains (λ _. 0) items) n knowledge_domains
      (λ d. omega (arith, enough d, count_domains-eq (λ _. 0) items d)),
)

-- With another count than 5 the validation accepts exactly the blueprints of that many questions that
-- declare no unassessed domain and have the minimum of questions in every domain: two with 15
-- questions; otherwise two in the Go and the concurrency domain and one in each other.
pub validate-CoversAll :
    (n : ℕ) (items : List InterviewBlueprintItem) (un : Option KnowledgeDomain)
    → n ≢ 5
    → (validate_interview_blueprint_coverage n items un ≡ ok tt)
      ↔ ((length items ≡ n) × CoversAll n items un)
validate-CoversAll n items un ne = (sound_all n items un ne, complete_all n items un ne)

-- If one domain has no question and every other has one, that domain alone is missing.
missing-CoversFive :
    (items : List InterviewBlueprintItem) (omitted : KnowledgeDomain)
    → CoversFive items (some omitted)
    → missing_domains items knowledge_domains ≡ omitted ∷ []
unfolding missing_domains
missing-CoversFive items omitted h = ground (
  arith,
  is_assessed_iff items go_language,
  is_assessed_iff items concurrency_runtime_performance,
  is_assessed_iff items http_rpc_api,
  is_assessed_iff items database_storage,
  is_assessed_iff items cache_messaging_distributed,
  is_assessed_iff items testing_observability_engineering,
  h go_language,
  h concurrency_runtime_performance,
  h http_rpc_api,
  h database_storage,
  h cache_messaging_distributed,
  h testing_observability_engineering,
)

complete_five :
    (items : List InterviewBlueprintItem) (un : Option KnowledgeDomain)
    → (length items ≡ 5) × CoversFive items un
    → validate_interview_blueprint_coverage 5 items un ≡ ok tt
unfolding validate_interview_blueprint_coverage derive_unassessed_domain five_question_quota
complete_five items none (len, h) = absurd h
complete_five items (some omitted) (len, h) = ground (
  arith,
  missing-CoversFive items omitted h,
  domain_eq_refl omitted,
  five_question_loop_complete (count_domains (λ _. 0) items) (some omitted) knowledge_domains
      (λ d. ground (arith, h d, count_domains-eq (λ _. 0) items d)),
)

-- The stages of an accepted five-question blueprint.
five_stages :
    (items : List InterviewBlueprintItem) (un : Option KnowledgeDomain)
    → validate_interview_blueprint_coverage 5 items un ≡ ok tt
    → (length items ≡ 5)
      × (length (missing_domains items knowledge_domains) ≡ 1)
      × (optional_domain_eq un (first_domain (missing_domains items knowledge_domains)) ≡ true)
      × (five_question_loop
            (count_domains (λ _. 0) items)
            (first_domain (missing_domains items knowledge_domains))
            knowledge_domains
          ≡ ok tt)
unfolding validate_interview_blueprint_coverage derive_unassessed_domain
five_stages items un h = ground arith

first_declared :
    (un : Option KnowledgeDomain) (missing : List KnowledgeDomain)
    → length missing ≡ 1
    → optional_domain_eq un (first_domain missing) ≡ true
    → (omitted : KnowledgeDomain) × (un ≡ some omitted) × (first_domain missing ≡ some omitted)
first_declared un [] len e = absurd (omega arith)
first_declared none (d ∷ ds) len e = cc
first_declared (some o) (d ∷ ds) len e = (o, refl, ap some (sym (domain_eq_sound o d e)))

sound_five :
    (items : List InterviewBlueprintItem) (un : Option KnowledgeDomain)
    → validate_interview_blueprint_coverage 5 items un ≡ ok tt
    → (length items ≡ 5) × CoversFive items un
unfolding five_question_quota
sound_five items un h =
    let counts = count_domains (λ _. 0) items in
    let missing = missing_domains items knowledge_domains in
    let (len, one, declared, loop) = five_stages items un h in
    let (omitted, e, f) = first_declared un missing one declared in
    (
      len,
      rw e (λ d. ground (
        arith,
        five_question_loop_sound counts (first_domain missing) loop d,
        count_domains-eq (λ _. 0) items d,
        f,
      )),
    )

-- With five questions the validation accepts exactly the blueprints of five questions that declare
-- an unassessed domain, which has no question, while every other domain has one.
pub validate-CoversFive :
    (items : List InterviewBlueprintItem) (un : Option KnowledgeDomain)
    → (validate_interview_blueprint_coverage 5 items un ≡ ok tt)
      ↔ ((length items ≡ 5) × CoversFive items un)
validate-CoversFive items un = (sound_five items un, complete_five items un)
