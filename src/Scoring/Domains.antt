-- ===== src/Scoring/Domains.antt =====
-- packages/domain/src/scoring.ts: the aggregation of question scores by domain and over an interview.
use interview_agent.Common.{
  ℕ, suc, ◌+◌, ◌≤◌, ◌≡◌, ◌≢◌, refl, List, [], ◌∷◌, map, length, All, ok, arith, if◌then◌else◌, ◌∙◌,
}
use interview_agent.Interview.{
  KnowledgeDomain, knowledge_domains, domain_eq, go_language, concurrency_runtime_performance,
  http_rpc_api, database_storage, cache_messaging_distributed, testing_observability_engineering,
  outcome_score,
}
use interview_agent.Scoring.{
  SelectedQuestionScore, DomainScoreResult, assessed, unassessed, CompleteInterviewScore,
  rounded_average, scores_in, domain_score, aggregate_domain_scores,
  aggregate_complete_interview_score,
}
use interview_agent.Scoring.Average.{rounded_average_bounds}

abbrev pub question_total : List DomainScoreResult → ℕ
question_total [] = 0
question_total (assessed domain score count ∷ rest) = count + question_total rest
question_total (unassessed domain ∷ rest) = question_total rest

-- A result has a score of at most 100 and at least one question.
abbrev pub InRange : DomainScoreResult → Type 0
InRange (assessed domain score count) = (score ≤ 100) × (1 ≤ count)
InRange (unassessed domain) = Unit {0}

abbrev pub HasScore : SelectedQuestionScore → Type 0
HasScore q = outcome_score q.outcome ≤ 100

-- The number of scores that some domains have.
abbrev lengths : List SelectedQuestionScore → List KnowledgeDomain → ℕ
lengths qs [] = 0
lengths qs (d ∷ ds) = length (scores_in d qs) + lengths qs ds

scores_in-total : (qs : List SelectedQuestionScore) → lengths qs knowledge_domains ≡ length qs
unfolding scores_in
scores_in-total [] = refl
scores_in-total (q ∷ qs) = by_domain (scores_in-total qs) q.domain
  where
    count : KnowledgeDomain → KnowledgeDomain → ℕ
    count d e =
        length (if domain_eq d e then outcome_score q.outcome ∷ scores_in e qs else scores_in e qs)

    by_domain :
        lengths qs knowledge_domains ≡ length qs
        → (d : KnowledgeDomain)
        → count d go_language
            + (count d concurrency_runtime_performance
                + (count d http_rpc_api
                    + (count d database_storage
                        + (count d cache_messaging_distributed
                            + (count d testing_observability_engineering + 0)))))
          ≡ suc (length qs)
    by_domain ih go_language = omega (arith, ih)
    by_domain ih concurrency_runtime_performance = omega (arith, ih)
    by_domain ih http_rpc_api = omega (arith, ih)
    by_domain ih database_storage = omega (arith, ih)
    by_domain ih cache_messaging_distributed = omega (arith, ih)
    by_domain ih testing_observability_engineering = omega (arith, ih)

scores_in-bound :
    (d : KnowledgeDomain) (qs : List SelectedQuestionScore)
    → All HasScore qs
    → All (λ s. (0 ≤ s) × (s ≤ 100)) (scores_in d qs)
unfolding scores_in
scores_in-bound d [] h = tt
scores_in-bound d (q ∷ qs) h = ground (arith, h.0, scores_in-bound d qs h.1)

scores_bound :
    (qs : List SelectedQuestionScore)
    → All HasScore qs
    → All (λ s. (0 ≤ s) × (s ≤ 100)) (map (λ q. outcome_score q.outcome) qs)
scores_bound [] h = tt
scores_bound (q ∷ qs) h = ((omega arith, h.0), scores_bound qs h.1)

domain_score-InRange :
    (qs : List SelectedQuestionScore) (d : KnowledgeDomain)
    → All HasScore qs
    → InRange (domain_score qs d)
unfolding domain_score
domain_score-InRange qs d h =
    ground (arith, rounded_average_bounds 0 100 (scores_in d qs), scores_in-bound d qs h)

scores_present :
    (qs : List SelectedQuestionScore) → qs ≢ [] → map (λ q. outcome_score q.outcome) qs ≢ []
scores_present [] ne e = ne refl
scores_present (q ∷ qs) ne e = cc

-- The domain that a result is about.
abbrev pub domain_of : DomainScoreResult → KnowledgeDomain
domain_of (assessed domain score count) = domain
domain_of (unassessed domain) = domain

domain_score-counted :
    (qs : List SelectedQuestionScore) (d : KnowledgeDomain) (rest : List DomainScoreResult)
    → (question_total (domain_score qs d ∷ rest) ≡ length (scores_in d qs) + question_total rest)
      × (domain_of (domain_score qs d) ≡ d)
unfolding domain_score
domain_score-counted qs d rest = ground arith

domain_results :
    (qs : List SelectedQuestionScore) (ds : List KnowledgeDomain)
    → All HasScore qs
    → (question_total (map (domain_score qs) ds) ≡ lengths qs ds)
      × (map domain_of (map (domain_score qs) ds) ≡ ds)
      × All InRange (map (domain_score qs) ds)
domain_results qs [] h = (refl, refl, tt)
domain_results qs (d ∷ ds) h =
    let (total, same, range) = domain_results qs ds h in
    let (here, about) = domain_score-counted qs d (map (domain_score qs) ds) in
    (omega (arith, here, total), rw (about, same) refl, (domain_score-InRange qs d h, range))

pub record IsTotal (questions : List SelectedQuestionScore) (score : CompleteInterviewScore)
    : Type 0 where
  pub overall : score.overall_score ≤ 100
  pub in_range : All InRange score.domains
  pub domains_once : map domain_of score.domains ≡ knowledge_domains
  pub counted : question_total score.domains ≡ length questions

-- An interview with at least one question, whose scores are at most 100, has an overall score of at most
-- 100 and one result for every domain in the order of `KNOWLEDGE_DOMAINS`; an assessed domain has a score
-- of at most 100 and at least one question; and the results count every question once.
pub aggregate_complete_interview_score-IsTotal :
    (qs : List SelectedQuestionScore)
    → qs ≢ []
    → All HasScore qs
    → (score : CompleteInterviewScore) × (aggregate_complete_interview_score qs (length qs)
        ≡ ok score)
      × IsTotal qs score
unfolding aggregate_complete_interview_score aggregate_domain_scores
aggregate_complete_interview_score-IsTotal qs ne h =
    let (total, same, range) = domain_results qs knowledge_domains h in
    (
      record {
        overall_score = rounded_average (map (λ q. outcome_score q.outcome) qs);
        domains = aggregate_domain_scores qs;
      },
      ground arith,
      record {
        overall =
            (rounded_average_bounds 0 100 (map (λ q. outcome_score q.outcome) qs)
              (scores_present qs ne) (scores_bound qs h)).1;
        in_range = range;
        domains_once = same;
        counted = total ∙ scores_in-total qs;
      },
    )
