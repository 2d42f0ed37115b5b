-- ===== src/Reports/Snapshots.antt =====
-- packages/domain/src/reports.ts: `semanticIssues`, `compareDomains` and `questionVersionIssues`.
use interview_agent.Common.{
  ℕ, ◌+◌, Bool, true, false, not, ◌==◌, ltb, if◌then◌else◌, is_some, Option, none, some, List, [],
  ◌∷◌, ◌++◌, map, length, count_if, Text, text_eq, Result, ok, ◌>>=◌, rethrow, get, set, zero, suc,
}
use interview_agent.Interview.{
  KnowledgeDomain, knowledge_domains, domain_eq, InvalidQuestionScore, is_supported_question_count,
}
use interview_agent.Scoring.{
  SelectedQuestionScore, DomainScoreResult, assessed, unassessed, AggregationError,
  aggregate_domain_scores, aggregate_complete_interview_score,
}
use interview_agent.Scoring.Domains.{domain_of}
use interview_agent.Reports.{
  ReportQuestionFeedback, ReportQuestionVersion, ReportSnapshot, Issue, at_domains, at_questions,
  at_overall_score, at_question_versions, duplicate_domain, missing_domain, duplicate_position,
  non_contiguous_position, inconsistent_domain_question_count, inconsistent_domain_score,
  duplicate_question_id, missing_question_version, extra_question_version,
  duplicate_question_version, mismatched_question_version, inconsistent_overall_score,
  ReportSnapshotValidationCode,
}
use interview_agent.Reports.Questions.{issue_if, question_issues, feedback_outcome}

-- What `semanticIssues` throws.
pub data ReportError : Type 0 where
  invalid_outcome : InvalidQuestionScore → ReportError
  invalid_aggregation : AggregationError → ReportError

-- `counts.get(key) ?? 0`
abbrev pub count_or_zero : Option ℕ → ℕ
count_or_zero none = 0
count_or_zero (some count) = count

-- `counts.set(key, (counts.get(key) ?? 0) + 1)`, for every key of a list.
unfoldable pub tally {ℓ} : {K : Type ℓ} → (K → K → Bool) → List (K × ℕ) → List K → List (K × ℕ)
tally eq counts [] = counts
tally eq counts (key ∷ rest) =
    tally eq (set eq counts key (count_or_zero (get eq counts key) + 1)) rest

unfoldable pub domain_issues : List (KnowledgeDomain × ℕ) → List KnowledgeDomain → List Issue
domain_issues counts [] = []
domain_issues counts (domain ∷ rest) =
    let count = count_or_zero (get domain_eq counts domain) in
    issue_if (count == 0) at_domains missing_domain
    ++ issue_if (ltb 1 count) at_domains duplicate_domain
    ++ domain_issues counts rest

-- The loop over the questions, without the counts.
unfoldable pub question_loop :
    ℕ
    → List ReportQuestionFeedback
    → Result InvalidQuestionScore (List Issue × List SelectedQuestionScore)
unfolding question_issues feedback_outcome
question_loop index [] = ok ([], [])
question_loop index (question ∷ rest) = do
  outcome ← feedback_outcome question.outcome
  later ← question_loop (index + 1) rest
  ok (
    question_issues question index ++ later.0,
    record { domain = question.domain; outcome = outcome } ∷ later.1,
  )

-- An issue for every key that was counted more than once.
unfoldable pub repeated {ℓ} :
    {K : Type ℓ} → ReportSnapshotValidationCode → List (K × ℕ) → List Issue
repeated code [] = []
repeated code ((key, count) ∷ rest) = issue_if (ltb 1 count) at_questions code ++ repeated code rest

-- The positions from `first` on, `count` of them, that were not counted.
unfoldable pub missing_positions : List (ℕ × ℕ) → ℕ → ℕ → List ℕ
missing_positions counts zero first = []
missing_positions counts (suc count) first =
    let later = missing_positions counts count (first + 1) in
    if is_some (get ◌==◌ counts first) then later else first ∷ later

-- `supplied.find((result) => result.domain === expected.domain)`
unfoldable pub find_domain : List DomainScoreResult → KnowledgeDomain → Option DomainScoreResult
find_domain [] domain = none
find_domain (result ∷ rest) domain =
    let later = find_domain rest domain in
    if domain_eq (domain_of result) domain then some result else later

-- The first test of `compareDomains`: another status or another question count.
abbrev pub is_other_result : Option DomainScoreResult → DomainScoreResult → Bool
is_other_result (some (assessed d score count)) (assessed e expected_score expected_count) =
    not (count == expected_count)
is_other_result (some (unassessed d)) (unassessed e) = false
is_other_result _ _ = true

abbrev pub is_other_score : Option DomainScoreResult → DomainScoreResult → Bool
is_other_score (some (assessed d score count)) (assessed e expected_score expected_count) =
    not (score == expected_score)
is_other_score _ _ = false

unfoldable pub compare_domains : List DomainScoreResult → List DomainScoreResult → List Issue
unfolding find_domain
compare_domains supplied [] = []
compare_domains supplied (expected ∷ rest) =
    issue_if (is_other_result (find_domain supplied (domain_of expected)) expected) at_domains
      inconsistent_domain_question_count
    ++ issue_if (is_other_score (find_domain supplied (domain_of expected)) expected) at_domains
        inconsistent_domain_score
    ++ compare_domains supplied rest

abbrev pub is_assessed_result : DomainScoreResult → Bool
is_assessed_result (assessed d score count) = true
is_assessed_result (unassessed d) = false

-- The issues of a complete report with a supported number of questions.
unfoldable pub complete_issues :
    ℕ → List SelectedQuestionScore → Result AggregationError (List Issue)
complete_issues overall selected = do
  let expected = if length selected == 5 then 5 else 6
  score ← aggregate_complete_interview_score selected (length selected)
  ok (
      issue_if (not (count_if is_assessed_result (aggregate_domain_scores selected) == expected))
        at_domains inconsistent_domain_question_count
      ++ issue_if (not (overall == score.overall_score)) at_overall_score
          inconsistent_overall_score)

unfoldable pub score_issues :
    Option ℕ → List SelectedQuestionScore → Result AggregationError (List Issue)
unfolding complete_issues
score_issues none selected = ok []
score_issues (some overall) selected =
    let issues = complete_issues overall selected in
    if is_supported_question_count (length selected) then issues else ok []

-- `questionsById`: a later question of the same identifier takes the place of an earlier one.
unfoldable pub questions_by_id : List (Text × ℕ) → List ReportQuestionFeedback → List (Text × ℕ)
questions_by_id versions [] = versions
questions_by_id versions (question ∷ rest) =
    questions_by_id (set text_eq versions question.question_id question.question_version) rest

-- `versionsById.get(id) ?? []`
abbrev pub versions_or_none : Option (List ℕ) → List ℕ
versions_or_none none = []
versions_or_none (some versions) = versions

-- `versionsById`
unfoldable pub versions_by_id :
    List (Text × List ℕ) → List ReportQuestionVersion → List (Text × List ℕ)
versions_by_id versions [] = versions
versions_by_id versions (version ∷ rest) =
    versions_by_id
      (set text_eq versions version.question_id (
        versions_or_none (get text_eq versions version.question_id)
        ++ version.question_version ∷ []))
      rest

-- The issue of one question's versions.
abbrev pub version_issue : ℕ → List ℕ → List Issue
version_issue expected [] = issue_if true at_question_versions missing_question_version
version_issue expected (version ∷ []) =
    issue_if (not (version == expected)) at_question_versions mismatched_question_version
version_issue expected (_ ∷ _ ∷ _) = issue_if true at_question_versions duplicate_question_version

unfoldable pub version_issues : List (Text × List ℕ) → List (Text × ℕ) → List Issue
version_issues versions [] = []
version_issues versions ((id, expected) ∷ rest) =
    version_issue expected (versions_or_none (get text_eq versions id))
    ++ version_issues versions rest

unfoldable pub extra_issues : List (Text × ℕ) → List (Text × List ℕ) → List Issue
extra_issues questions [] = []
extra_issues questions ((id, versions) ∷ rest) =
    issue_if (not (is_some (get text_eq questions id))) at_question_versions extra_question_version
    ++ extra_issues questions rest

unfoldable pub question_version_issues : ReportSnapshot → List Issue
unfolding version_issues extra_issues questions_by_id versions_by_id
question_version_issues snapshot =
    let questions = questions_by_id [] snapshot.questions in
    let versions = versions_by_id [] snapshot.question_versions in
    version_issues versions questions ++ extra_issues questions versions

-- The issues of the positions and the identifiers of the questions.
unfoldable pub counted_issues : List ReportQuestionFeedback → List Issue
unfolding tally repeated missing_positions
counted_issues questions =
    let positions = tally ◌==◌ [] (map (λ q. q.position) questions) in
    let identifiers = tally text_eq [] (map (λ q. q.question_id) questions) in
    let missing = missing_positions positions (length questions) 1 in
    repeated duplicate_position positions
    ++ issue_if (ltb 0 (length missing)) at_questions non_contiguous_position
    ++ repeated duplicate_question_id identifiers

unfoldable pub semantic_issues : ReportSnapshot → Result ReportError (List Issue)
unfolding domain_issues tally question_loop counted_issues compare_domains score_issues
    question_version_issues
semantic_issues snapshot = do
  let counts = tally domain_eq [] (map domain_of snapshot.domains)
  feedback ← rethrow invalid_outcome (question_loop 0 snapshot.questions)
  let computed = aggregate_domain_scores feedback.1
  scores ← rethrow invalid_aggregation (score_issues snapshot.overall_score feedback.1)
  ok (
      domain_issues counts knowledge_domains
      ++ feedback.0
      ++ counted_issues snapshot.questions
      ++ compare_domains snapshot.domains computed
      ++ scores
      ++ question_version_issues snapshot)
