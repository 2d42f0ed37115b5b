-- ===== src/Reports/Questions.antt =====
-- packages/domain/src/reports.ts: `validateQuestionFeedback` and `validateEvidence`.
use interview_agent.Common.{
  ℕ, ◌+◌, Bool, true, false, not, ◌||◌, ◌==◌, List, [], ◌∷◌, ◌++◌, any, has, Text, text_eq, Result,
  ok, ◌>>=◌, whole,
}
use interview_agent.Interview.{
  QuestionOutcome, scored, zero_score, InvalidQuestionScore, parse_positive_question_score,
}
use interview_agent.Scoring.{create_zero_question_outcome}
use interview_agent.Reports.{
  ReportEvidenceReference, answer_material, question_snapshot, ReportRubricAward,
  ReportKnowledgePoint, ReportQuestionFeedback, Issue, IssuePath, at_matched_points, at_score,
  at_evidence, ReportSnapshotValidationCode, duplicate_rubric_award, inconsistent_question_score,
  invalid_evidence_reference,
}

-- `if (test) { issues.push(issue(…)); }`
abbrev pub issue_if : Bool → IssuePath → ReportSnapshotValidationCode → List Issue
issue_if true path code = record { path = path; code = code } ∷ []
issue_if false path code = []

-- The equality of two `evidenceKey`s.
abbrev pub evidence_key_eq : ReportEvidenceReference → ReportEvidenceReference → Bool
evidence_key_eq (answer_material a) (answer_material b) = text_eq a b
evidence_key_eq (question_snapshot a) (question_snapshot b) = text_eq a b
evidence_key_eq _ _ = false

-- A reference to the snapshot of another question.
abbrev pub is_foreign : ReportQuestionFeedback → ReportEvidenceReference → Bool
is_foreign question (answer_material id) = false
is_foreign question (question_snapshot id) = not (text_eq id question.question_id)

unfoldable pub validate_evidence :
    ReportQuestionFeedback → List ReportEvidenceReference → ℕ → List Issue
validate_evidence question [] index = []
validate_evidence question (reference ∷ rest) index =
    issue_if
      (is_foreign question reference || not (any (evidence_key_eq reference) question.evidence))
      (at_evidence index) invalid_evidence_reference
    ++ validate_evidence question rest index

-- The loop over the matched points, with `awardedRubricIds`.
unfoldable pub matched_loop :
    ReportQuestionFeedback → ℕ → List Text → List ReportRubricAward → List Issue
unfolding validate_evidence
matched_loop question index awarded [] = []
matched_loop question index awarded (point ∷ rest) =
    issue_if (has awarded point.rubric_item_id) (at_matched_points index) duplicate_rubric_award
    ++ validate_evidence question point.evidence index
    ++ matched_loop question index (point.rubric_item_id ∷ awarded) rest

-- `score`, after the loop.
unfoldable pub awarded_score : List ReportRubricAward → ℕ
awarded_score [] = 0
awarded_score (point ∷ rest) = point.awarded_points + awarded_score rest

unfoldable pub missing_loop : ReportQuestionFeedback → ℕ → List ReportKnowledgePoint → List Issue
unfolding validate_evidence
missing_loop question index [] = []
missing_loop question index (point ∷ rest) =
    validate_evidence question point.evidence index ++ missing_loop question index rest

-- `question.score`
abbrev pub feedback_score : QuestionOutcome → ℕ
feedback_score (scored score) = score
feedback_score (zero_score reason) = 0

unfoldable pub feedback_outcome : QuestionOutcome → Result InvalidQuestionScore QuestionOutcome
feedback_outcome (scored score) = do
  points ← parse_positive_question_score (whole score)
  ok (scored points)
feedback_outcome (zero_score reason) = ok (create_zero_question_outcome reason)

-- The issues that `validateQuestionFeedback` pushes, which it does before its call that can throw.
unfoldable pub question_issues : ReportQuestionFeedback → ℕ → List Issue
unfolding matched_loop missing_loop awarded_score validate_evidence
question_issues question index =
    matched_loop question index [] question.matched_knowledge_points
    ++ missing_loop question index question.missing_or_incorrect_points
    ++ validate_evidence question question.evidence index
    ++ issue_if
        (not (awarded_score question.matched_knowledge_points == feedback_score question.outcome))
        (at_score index) inconsistent_question_score
