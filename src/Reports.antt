-- ===== src/Reports.antt =====
-- packages/domain/src/reports.ts: the consistency of a decoded report snapshot.
pub mod Questions
pub mod Snapshots
pub mod Counts
pub mod Feedback
pub mod Domains
pub mod Versions
pub mod Consistent
pub mod Total
pub mod Tests
use interview_agent.Common.{ℕ, List, Text, Option}
use interview_agent.Interview.{KnowledgeDomain, QuestionOutcome}
use interview_agent.Scoring.{DomainScoreResult}

pub data ReportEvidenceReference : Type 0 where
  answer_material : Text → ReportEvidenceReference
  question_snapshot : Text → ReportEvidenceReference

pub record ReportRubricAward : Type 0 where
  pub rubric_item_id : Text
  pub summary : Text
  pub awarded_points : ℕ
  pub evidence : List ReportEvidenceReference

pub record ReportKnowledgePoint : Type 0 where
  pub rubric_item_id : Text
  pub summary : Text
  pub evidence : List ReportEvidenceReference

-- The outcome holds the score or the reason of a zero score.
pub record ReportQuestionFeedback : Type 0 where
  pub question_id : Text
  pub question_version : ℕ
  pub domain : KnowledgeDomain
  pub position : ℕ
  pub displayed_question : Text
  pub answer_summary : Text
  pub matched_knowledge_points : List ReportRubricAward
  pub missing_or_incorrect_points : List ReportKnowledgePoint
  pub score_rationale : Text
  pub improvement_suggestions : List Text
  pub evidence : List ReportEvidenceReference
  pub outcome : QuestionOutcome

pub record ReportQuestionVersion : Type 0 where
  pub question_id : Text
  pub question_version : ℕ

-- The fields of `ImmutableReportSnapshot` that its consistency depends on. A complete report has an
-- overall score.
pub record ReportSnapshot : Type 0 where
  pub overall_score : Option ℕ
  pub question_versions : List ReportQuestionVersion
  pub domains : List DomainScoreResult
  pub questions : List ReportQuestionFeedback

pub data ReportSnapshotValidationCode : Type 0 where
  duplicate_domain missing_domain duplicate_position non_contiguous_position
        inconsistent_domain_question_count inconsistent_domain_score duplicate_question_id
        missing_question_version extra_question_version duplicate_question_version
        mismatched_question_version duplicate_rubric_award inconsistent_question_score
        inconsistent_overall_score invalid_evidence_reference :
      ReportSnapshotValidationCode

-- The paths that an issue can have, with the index of a question.
pub data IssuePath : Type 0 where
  at_domains at_questions at_overall_score at_question_versions : IssuePath
  at_matched_points at_score at_evidence : ℕ → IssuePath

-- `ReportSnapshotValidationIssue` without its message.
pub record Issue : Type 0 where
  pub path : IssuePath
  pub code : ReportSnapshotValidationCode
