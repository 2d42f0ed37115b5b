-- ===== src/Reports/Consistent.antt =====
-- packages/domain/src/reports.ts: what `semanticIssues` without an issue establishes, and when it returns.
use interview_agent.Common.{
  ℕ, ◌+◌, ◌≤◌, ◌≡◌, refl, ap, ◌∙◌, subst, Bool, true, ◌==◌, ==→eq, ltb, not, Option, none, some,
  List, [], ◌∷◌, ◌++◌, map, any, length, count_if, All, Text, text_eq, ok, Result-cases, arith, inl,
  inr, get, if◌then◌else◌,
}
use interview_agent.Interview.{
  KnowledgeDomain, knowledge_domains, domain_eq, QuestionOutcome, scored, zero_score, outcome_score,
  parse_positive_question_score, is_supported_question_count,
}
use interview_agent.Scoring.{
  SelectedQuestionScore, DomainScoreResult, domain_score, aggregate_domain_scores,
  aggregate_complete_interview_score, rounded_average, create_zero_question_outcome,
}
use interview_agent.Scoring.Domains.{domain_of}
use interview_agent.Reports.{
  ReportSnapshot, ReportQuestionFeedback, Issue, at_domains, at_questions, at_overall_score,
  missing_domain, duplicate_domain, duplicate_position, non_contiguous_position,
  duplicate_question_id, inconsistent_domain_question_count, inconsistent_overall_score,
}
use interview_agent.Reports.Questions.{issue_if, feedback_outcome, question_issues}
use interview_agent.Reports.Snapshots.{
  count_or_zero, tally, domain_issues, question_loop, repeated, missing_positions, find_domain,
  compare_domains, is_assessed_result, complete_issues, score_issues, question_version_issues,
  counted_issues, semantic_issues,
}
use interview_agent.Reports.Counts.{
  none_of, issue_if-none, count-tally, repeated-tally, missing_positions-tally, number-IsEquality,
  text-IsEquality, domain-IsEquality,
}
use interview_agent.Reports.Feedback.{IsConsistentQuestion, question_issues-IsConsistentQuestion}
use interview_agent.Reports.Domains.{compare_domains-found}
use interview_agent.Reports.Versions.{versions_of, question_version_issues-none}

-- The score that a question counts with.
abbrev pub selected_of : ReportQuestionFeedback → SelectedQuestionScore
selected_of q = record { domain = q.domain; outcome = q.outcome }

-- The overall score is the rounded average of the questions, if they are as many as an interview can have,
-- and of the domains as many are assessed as such an interview covers.
abbrev pub IsOverallScore : ℕ → List SelectedQuestionScore → Type 0
IsOverallScore score selected =
    is_supported_question_count (length selected) ≡ true
    → (score ≡ rounded_average (map (λ q. outcome_score q.outcome) selected))
      × (count_if is_assessed_result (aggregate_domain_scores selected)
          ≡ (if length selected == 5 then 5 else 6))

-- The report agrees with itself.
pub record IsConsistent (s : ReportSnapshot) : Type 0 where
  pub domains_once :
      All (λ d. count_if (λ k. domain_eq k d) (map domain_of s.domains) ≡ 1) knowledge_domains
  pub feedback : All IsConsistentQuestion s.questions
  pub positions :
      (n : ℕ)
      → 1 ≤ n
      → n ≤ length s.questions
      → count_if (λ p. p == n) (map (λ q. q.position) s.questions) ≡ 1
  pub identifiers : (id : Text) → count_if (λ q. text_eq q.question_id id) s.questions ≤ 1
  pub results :
      All
        (λ d. find_domain s.domains d ≡ some (domain_score (map selected_of s.questions) d))
        knowledge_domains
  pub overall :
      (score : ℕ)
      → s.overall_score ≡ some score
      → IsOverallScore score (map selected_of s.questions)
  pub versions :
      All (λ q. versions_of s.question_versions q.question_id ≡ q.question_version ∷ []) s.questions
  pub known :
      (id : Text)
      → any (λ v. text_eq v.question_id id) s.question_versions ≡ true
      → any (λ q. text_eq q.question_id id) s.questions ≡ true

domain_issues-none :
    (ks ds : List KnowledgeDomain)
    → domain_issues (tally domain_eq [] ks) ds ≡ []
    → All (λ d. count_if (λ k. domain_eq k d) ks ≡ 1) ds
unfolding domain_issues get
domain_issues-none ks [] h = tt
domain_issues-none ks (d ∷ ds) h =
    let count = count_or_zero (get domain_eq (tally domain_eq [] ks) d) in
    let missing = issue_if (count == 0) at_domains missing_domain in
    let duplicate = issue_if (ltb 1 count) at_domains duplicate_domain in
    let (front, later) =
      none_of (missing ++ duplicate) (domain_issues (tally domain_eq [] ks) ds) h in
    let (none_missing, none_duplicate) = none_of missing duplicate front in
    let total = count-tally domain_eq domain-IsEquality [] ks d in
    (
      ground (
        arith,
        total,
        issue_if-none (count == 0) at_domains missing_domain none_missing,
        issue_if-none (ltb 1 count) at_domains duplicate_domain none_duplicate,
      ),
      domain_issues-none ks ds later,
    )

feedback_outcome_same :
    (o : QuestionOutcome) {o' : QuestionOutcome} → feedback_outcome o ≡ ok o' → o' ≡ o
unfolding feedback_outcome parse_positive_question_score create_zero_question_outcome
feedback_outcome_same (scored score) h = ground arith
feedback_outcome_same (zero_score reason) h = ground arith

question_loop_sound :
    (n : ℕ) (qs : List ReportQuestionFeedback) {r : List Issue × List SelectedQuestionScore}
    → question_loop n qs ≡ ok r
    → (r.1 ≡ map selected_of qs) × (r.0 ≡ [] → All IsConsistentQuestion qs)
unfolding question_loop
question_loop_sound n [] h = (ground arith, λ e. tt)
question_loop_sound n (q ∷ qs) {r} h = elim (Result-cases (feedback_outcome q.outcome)) [
  | inr (x, bad) ↦ absurd (ground arith)
  | inl (o, good) ↦ elim (Result-cases (question_loop (n + 1) qs)) [
    | inr (x, bad) ↦ absurd (ground arith)
    | inl (later, e) ↦
        let (same, sound) = question_loop_sound (n + 1) qs {r = later} e in
        (
          ground (arith, same, feedback_outcome_same q.outcome good),
          λ empty.
              let (here, rest) = none_of (question_issues q n) later.0 (ground arith) in
              (question_issues-IsConsistentQuestion q n here, sound rest),
        )
  ]
]

complete_issues_sound :
    (score : ℕ) (selected : List SelectedQuestionScore)
    → complete_issues score selected ≡ ok []
    → (score ≡ rounded_average (map (λ q. outcome_score q.outcome) selected))
      × (count_if is_assessed_result (aggregate_domain_scores selected)
          ≡ (if length selected == 5 then 5 else 6))
unfolding complete_issues aggregate_complete_interview_score
complete_issues_sound score selected h =
    let assessed_count = count_if is_assessed_result (aggregate_domain_scores selected) in
    let average = rounded_average (map (λ q. outcome_score q.outcome) selected) in
    let counts =
      issue_if (not (assessed_count == (if length selected == 5 then 5 else 6))) at_domains
        inconsistent_domain_question_count in
    let overall = issue_if (not (score == average)) at_overall_score inconsistent_overall_score in
    let (none_counts, none_overall) = none_of counts overall (ground arith) in
    (
      ==→eq _ _ (
          ground (
            arith,
            issue_if-none (not (score == average)) at_overall_score inconsistent_overall_score
                none_overall,
          )),
      ==→eq _ _ (
          ground (
            arith,
            issue_if-none (not (assessed_count == (if length selected == 5 then 5 else 6)))
                at_domains inconsistent_domain_question_count none_counts,
          )),
    )

score_issues_sound :
    (overall : Option ℕ) (selected : List SelectedQuestionScore)
    → score_issues overall selected ≡ ok []
    → (score : ℕ) → overall ≡ some score
    → IsOverallScore score selected
unfolding score_issues
score_issues_sound none selected h score e supported = absurd (ground arith)
score_issues_sound (some overall) selected h score e supported =
    complete_issues_sound score selected (ground arith)

count_if-map {ℓ κ} :
    {A : Type ℓ} {B : Type κ} (p : B → Bool) (f : A → B) (xs : List A)
    → count_if p (map f xs) ≡ count_if (λ x. p (f x)) xs
unfolding count_if
count_if-map p f [] = refl
count_if-map p f (x ∷ xs) = ground (arith, count_if-map p f xs)

-- What the positions and identifiers of the questions are like.
counted_issues_sound :
    (qs : List ReportQuestionFeedback)
    → counted_issues qs ≡ []
    → ((n : ℕ) → 1 ≤ n → n ≤ length qs → count_if (λ p. p == n) (map (λ q. q.position) qs) ≡ 1)
      × ((id : Text) → count_if (λ q. text_eq q.question_id id) qs ≤ 1)
unfolding counted_issues
counted_issues_sound qs h =
    let positions = map (λ q. q.position) qs in
    let identifiers = map (λ q. q.question_id) qs in
    let counts = tally ◌==◌ [] positions in
    let gaps = ltb 0 (length (missing_positions counts (length qs) 1)) in
    let again = repeated duplicate_position counts in
    let gap = issue_if gaps at_questions non_contiguous_position in
    let (front, none_same) =
      none_of (again ++ gap) (repeated duplicate_question_id (tally text_eq [] identifiers)) h in
    let (none_again, none_gap) = none_of again gap front in
    (
      λ n low high.
          let most =
            repeated-tally ◌==◌ number-IsEquality duplicate_position positions n none_again in
          let least =
            missing_positions-tally positions (length qs) n
              (issue_if-none gaps at_questions non_contiguous_position none_gap) low high in
          omega (arith, most, least),
      λ id.
          let most =
            repeated-tally text_eq text-IsEquality duplicate_question_id identifiers id none_same in
          ground (arith, most, count_if-map (λ j. text_eq j id) (λ q. q.question_id) qs),
    )

domain_score-domain_of :
    (selected : List SelectedQuestionScore) (d : KnowledgeDomain)
    → domain_of (domain_score selected d) ≡ d
unfolding domain_score
domain_score-domain_of selected d = ground arith

All-domain_of :
    (supplied : List DomainScoreResult) (selected : List SelectedQuestionScore)
    (ds : List KnowledgeDomain)
    → All (λ e. find_domain supplied (domain_of e) ≡ some e) (map (domain_score selected) ds)
    → All (λ d. find_domain supplied d ≡ some (domain_score selected d)) ds
All-domain_of supplied selected [] all = tt
All-domain_of supplied selected (d ∷ ds) (here, all) = (
  subst (λ k. find_domain supplied k ≡ some (domain_score selected d))
      (domain_score-domain_of selected d) here,
  All-domain_of supplied selected ds all,
)

-- A report in which `semanticIssues` finds no issue has one result for each domain, the one that its
-- questions give; its questions stand at the positions from 1 on, one at each, under different
-- identifiers; the points awarded for a question are for different rubric items and add up to its
-- score; all evidence is listed with the question, and a question snapshot among it is the question's
-- own; a complete report of 5, 10 or 15 questions has the rounded average as its overall score; and the
-- listed versions name each question once, with its version, and nothing else.
pub semantic_issues-IsConsistent : (s : ReportSnapshot) → semantic_issues s ≡ ok [] → IsConsistent s
unfolding semantic_issues aggregate_domain_scores
semantic_issues-IsConsistent s h = elim (Result-cases (question_loop 0 s.questions)) [
  | inr (x, bad) ↦ absurd (ground arith)
  | inl (feedback, good) ↦ elim (Result-cases (score_issues s.overall_score feedback.1)) [
    | inr (x, bad) ↦ absurd (ground arith)
    | inl (scores, scored_well) ↦
        let domains =
          domain_issues (tally domain_eq [] (map domain_of s.domains)) knowledge_domains in
        let counted = counted_issues s.questions in
        let compared = compare_domains s.domains (aggregate_domain_scores feedback.1) in
        let versions = question_version_issues s in
        let (h4, none_versions) =
          none_of (domains ++ feedback.0 ++ counted ++ compared ++ scores) versions
            (ground arith) in
        let (h3, none_scores) = none_of (domains ++ feedback.0 ++ counted ++ compared) scores h4 in
        let (h2, none_compared) = none_of (domains ++ feedback.0 ++ counted) compared h3 in
        let (h1, none_counted) = none_of (domains ++ feedback.0) counted h2 in
        let (none_domains, none_feedback) = none_of domains feedback.0 h1 in
        let (same, sound) = question_loop_sound 0 s.questions {r = feedback} good in
        let (positions, identifiers) = counted_issues_sound s.questions none_counted in
        let (exact, known) = question_version_issues-none s identifiers none_versions in
        record {
          domains_once =
              domain_issues-none (map domain_of s.domains) knowledge_domains none_domains;
          feedback = sound none_feedback;
          positions = positions;
          identifiers = identifiers;
          results = All-domain_of s.domains (map selected_of s.questions) knowledge_domains (
              compare_domains-found s.domains
                (aggregate_domain_scores (map selected_of s.questions))
                (subst (λ z. compare_domains s.domains (aggregate_domain_scores z) ≡ []) same
                  none_compared));
          overall = score_issues_sound s.overall_score (map selected_of s.questions) (
              subst (λ z. score_issues s.overall_score z ≡ ok []) same
                (scored_well ∙ ap ok none_scores));
          versions = exact;
          known = known;
        }
  ]
]
