-- ===== src/Reports/Total.antt =====
-- packages/domain/src/reports.ts: that `semanticIssues` returns.
use interview_agent.Common.{
  ℕ, ◌+◌, ◌≤◌, ◌≡◌, refl, Option, List, [], ◌∷◌, ◌++◌, All, ok, Result-cases, arith, inl, inr,
}
use interview_agent.Interview.{scored, zero_score, parse_positive_question_score}
use interview_agent.Scoring.{
  SelectedQuestionScore, aggregate_complete_interview_score, create_zero_question_outcome,
}
use interview_agent.Reports.{ReportSnapshot, ReportQuestionFeedback, Issue}
use interview_agent.Reports.Questions.{feedback_outcome, question_issues}
use interview_agent.Reports.Snapshots.{
  question_loop, complete_issues, score_issues, semantic_issues,
}

-- The scores that `decodeSnapshot` lets through.
abbrev pub HasDecodedScore : ReportQuestionFeedback → Type 0
HasDecodedScore q = elim q.outcome [
  | scored score ↦ (1 ≤ score) × (score ≤ 100)
  | zero_score reason ↦ Unit
]

feedback_outcome-total :
    (q : ReportQuestionFeedback) → HasDecodedScore q → feedback_outcome q.outcome ≡ ok q.outcome
unfolding feedback_outcome parse_positive_question_score create_zero_question_outcome
feedback_outcome-total q h = ground arith

question_loop-total :
    (n : ℕ) (qs : List ReportQuestionFeedback)
    → All HasDecodedScore qs
    → (r : List Issue × List SelectedQuestionScore) × (question_loop n qs ≡ ok r)
unfolding question_loop
question_loop-total n [] all = (([], []), refl)
question_loop-total n (q ∷ qs) (here, all) =
    let (r, e) = question_loop-total (n + 1) qs all in
    (
      (question_issues q n ++ r.0, record { domain = q.domain; outcome = q.outcome } ∷ r.1),
      ground (arith, feedback_outcome-total q here, e),
    )

score_issues-total :
    (overall : Option ℕ) (selected : List SelectedQuestionScore)
    → (issues : List Issue) × (score_issues overall selected ≡ ok issues)
unfolding score_issues complete_issues aggregate_complete_interview_score
score_issues-total overall selected = elim (Result-cases (score_issues overall selected)) [
  | inl (issues, e) ↦ (issues, e)
  | inr (x, e) ↦ absurd (ground arith)
]

-- When every scored question has from 1 to 100 points, `semanticIssues` returns a list of issues and
-- throws nothing.
pub semantic_issues-total :
    (s : ReportSnapshot)
    → All HasDecodedScore s.questions
    → (issues : List Issue) × (semantic_issues s ≡ ok issues)
unfolding semantic_issues
semantic_issues-total s all =
    let (feedback, good) = question_loop-total 0 s.questions all in
    let (scores, e) = score_issues-total s.overall_score feedback.1 in
    elim (Result-cases (semantic_issues s)) [
      | inl found ↦ found
      | inr (x, bad) ↦ absurd (ground (arith, good, e))
    ]
