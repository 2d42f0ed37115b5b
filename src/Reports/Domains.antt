-- ===== src/Reports/Domains.antt =====
-- packages/domain/src/reports.ts: what `compareDomains` without an issue establishes.
use interview_agent.Common.{
  ◌≡◌, ap, false, some, List, [], ◌∷◌, ◌++◌, All, arith, inl, inr, Bool-cases, Option-cases, subst,
  ◌∙◌,
}
use interview_agent.Interview.{KnowledgeDomain, domain_eq}
use interview_agent.Scoring.{DomainScoreResult, assessed, unassessed}
use interview_agent.Scoring.Domains.{domain_of}
use interview_agent.Reports.{
  at_domains, inconsistent_domain_question_count, inconsistent_domain_score,
}
use interview_agent.Reports.Questions.{issue_if}
use interview_agent.Reports.Snapshots.{
  find_domain, is_other_result, is_other_score, compare_domains,
}
use interview_agent.Reports.Counts.{none_of, issue_if-none, domain-IsEquality}

find_domain-domain_of :
    (rs : List DomainScoreResult) (d : KnowledgeDomain) {r : DomainScoreResult}
    → find_domain rs d ≡ some r
    → domain_of r ≡ d
unfolding find_domain
find_domain-domain_of [] d h = absurd (ground arith)
find_domain-domain_of (x ∷ rs) d {r} h = elim (Bool-cases (domain_eq (domain_of x) d)) [
  | inl e ↦ ground (arith, domain-IsEquality.sound (domain_of x) d e)
  | inr e ↦ find_domain-domain_of rs d {r = r} (ground arith)
]

same_result :
    (r e : DomainScoreResult)
    → domain_of r ≡ domain_of e
    → is_other_result (some r) e ≡ false
    → is_other_score (some r) e ≡ false
    → r ≡ e
same_result (assessed a s c) (assessed b t d) same counts scores = ground arith
same_result (unassessed a) (unassessed b) same counts scores = ground arith
same_result (assessed a s c) (unassessed b) same counts scores = absurd (ground arith)
same_result (unassessed a) (assessed b t d) same counts scores = absurd (ground arith)

found_result :
    (rs : List DomainScoreResult) (e : DomainScoreResult)
    → is_other_result (find_domain rs (domain_of e)) e ≡ false
    → is_other_score (find_domain rs (domain_of e)) e ≡ false
    → find_domain rs (domain_of e) ≡ some e
found_result rs e counts scores = elim (Option-cases (find_domain rs (domain_of e))) [
  | inl missing ↦ absurd (ground arith)
  | inr (r, found) ↦
      found
      ∙ ap some (
          same_result r e (find_domain-domain_of rs (domain_of e) found)
            (subst (λ o. is_other_result o e ≡ false) found counts)
            (subst (λ o. is_other_score o e ≡ false) found scores))
]

pub compare_domains-found :
    (rs es : List DomainScoreResult)
    → compare_domains rs es ≡ []
    → All (λ e. find_domain rs (domain_of e) ≡ some e) es
unfolding compare_domains
compare_domains-found rs [] h = tt
compare_domains-found rs (e ∷ es) h =
    let counts =
      issue_if (is_other_result (find_domain rs (domain_of e)) e) at_domains
        inconsistent_domain_question_count in
    let scores =
      issue_if (is_other_score (find_domain rs (domain_of e)) e) at_domains
        inconsistent_domain_score in
    let (front, later) = none_of (counts ++ scores) (compare_domains rs es) h in
    let (none_counts, none_scores) = none_of counts scores front in
    (
      found_result rs e
          (issue_if-none (is_other_result (find_domain rs (domain_of e)) e) _ _ none_counts)
          (issue_if-none (is_other_score (find_domain rs (domain_of e)) e) _ _ none_scores),
      compare_domains-found rs es later,
    )
