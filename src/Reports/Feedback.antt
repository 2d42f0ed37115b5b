-- ===== src/Reports/Feedback.antt =====
-- packages/domain/src/reports.ts: what `validateQuestionFeedback` without an issue establishes.
use interview_agent.Common.{
  ℕ, ◌≡◌, ◌⊎◌, true, false, ◌||◌, ◌==◌, ==→eq, not, List, [], ◌∷◌, ◌++◌, map, any, has, All, Text,
  text_eq_sound, arith, inl, inr, Bool-cases, Distinct, ap,
}
use interview_agent.Reports.{
  ReportEvidenceReference, answer_material, question_snapshot, ReportRubricAward,
  ReportKnowledgePoint, ReportQuestionFeedback, at_score, at_matched_points, duplicate_rubric_award,
  inconsistent_question_score,
}
use interview_agent.Reports.Questions.{
  evidence_key_eq, is_foreign, validate_evidence, matched_loop, missing_loop, awarded_score,
  feedback_score, question_issues, issue_if,
}
use interview_agent.Reports.Counts.{none_of, issue_if-none}
use interview_agent.Scoring.Rubric.{Unseen, Unseen-cons}

-- The reference is in the list.
abbrev pub Occurs : ReportEvidenceReference → List ReportEvidenceReference → Type 0
Occurs r [] = ⊥
Occurs r (x ∷ xs) = (r ≡ x) ⊎ Occurs r xs

-- The reference is to an answer or to this question, and is among the question's evidence.
pub record IsEvidence (q : ReportQuestionFeedback) (r : ReportEvidenceReference) : Type 0 where
  pub own : (id : Text) → r ≡ question_snapshot id → id ≡ q.question_id
  pub listed : Occurs r q.evidence

pub record IsConsistentQuestion (q : ReportQuestionFeedback) : Type 0 where
  pub once : Distinct (map (λ p. p.rubric_item_id) q.matched_knowledge_points)
  pub matched : All (λ p. All (IsEvidence q) p.evidence) q.matched_knowledge_points
  pub missing : All (λ p. All (IsEvidence q) p.evidence) q.missing_or_incorrect_points
  pub evidence : All (IsEvidence q) q.evidence
  pub total : awarded_score q.matched_knowledge_points ≡ feedback_score q.outcome

evidence_key_eq_sound : (a b : ReportEvidenceReference) → evidence_key_eq a b ≡ true → a ≡ b
evidence_key_eq_sound (answer_material a) (answer_material b) h =
    ap answer_material (text_eq_sound a b h)
evidence_key_eq_sound (question_snapshot a) (question_snapshot b) h =
    ap question_snapshot (text_eq_sound a b h)
evidence_key_eq_sound (answer_material a) (question_snapshot b) h = absurd (ground arith)
evidence_key_eq_sound (question_snapshot a) (answer_material b) h = absurd (ground arith)

any-Occurs :
    (r : ReportEvidenceReference) (xs : List ReportEvidenceReference)
    → any (evidence_key_eq r) xs ≡ true
    → Occurs r xs
unfolding any
any-Occurs r [] h = absurd (ground arith)
any-Occurs r (x ∷ xs) h = elim (Bool-cases (evidence_key_eq r x)) [
  | inl e ↦ inl (evidence_key_eq_sound r x e)
  | inr e ↦ inr (any-Occurs r xs (ground arith))
]

is_foreign-own :
    (q : ReportQuestionFeedback) (r : ReportEvidenceReference)
    → is_foreign q r ≡ false
    → (id : Text) → r ≡ question_snapshot id
    → id ≡ q.question_id
is_foreign-own q (answer_material a) h id e = absurd (ground arith)
is_foreign-own q (question_snapshot a) h id e = ground (arith, text_eq_sound a q.question_id)

validate_evidence-IsEvidence :
    (q : ReportQuestionFeedback) (rs : List ReportEvidenceReference) (n : ℕ)
    → validate_evidence q rs n ≡ []
    → All (IsEvidence q) rs
unfolding validate_evidence
validate_evidence-IsEvidence q [] n h = tt
validate_evidence-IsEvidence q (r ∷ rs) n h =
    let (first, rest) = none_of (issue_if _ _ _) (validate_evidence q rs n) h in
    let good =
      issue_if-none (is_foreign q r || not (any (evidence_key_eq r) q.evidence)) _ _ first in
    (
      record {
        own = is_foreign-own q r (ground arith);
        listed = any-Occurs r q.evidence (ground arith);
      },
      validate_evidence-IsEvidence q rs n rest,
    )

matched_loop_sound :
    (q : ReportQuestionFeedback) (n : ℕ) (seen : List Text) (ps : List ReportRubricAward)
    → matched_loop q n seen ps ≡ []
    → Unseen seen (map (λ p. p.rubric_item_id) ps)
      × Distinct (map (λ p. p.rubric_item_id) ps)
      × All (λ p. All (IsEvidence q) p.evidence) ps
unfolding matched_loop
matched_loop_sound q n seen [] h = (tt, tt, tt)
matched_loop_sound q n seen (p ∷ ps) h =
    let repeated =
      issue_if (has seen p.rubric_item_id) (at_matched_points n) duplicate_rubric_award in
    let evidence = validate_evidence q p.evidence n in
    let (front, later) =
      none_of (repeated ++ evidence) (matched_loop q n (p.rubric_item_id ∷ seen) ps) h in
    let (none_repeated, none_evidence) = none_of repeated evidence front in
    let (unseen, distinct, points) = matched_loop_sound q n (p.rubric_item_id ∷ seen) ps later in
    let (once, others) =
      Unseen-cons p.rubric_item_id seen (map (λ p. p.rubric_item_id) ps) unseen in
    (
      (issue_if-none (has seen p.rubric_item_id) _ _ none_repeated, others),
      (once, distinct),
      (validate_evidence-IsEvidence q p.evidence n none_evidence, points),
    )

missing_loop_sound :
    (q : ReportQuestionFeedback) (n : ℕ) (ps : List ReportKnowledgePoint)
    → missing_loop q n ps ≡ []
    → All (λ p. All (IsEvidence q) p.evidence) ps
unfolding missing_loop
missing_loop_sound q n [] h = tt
missing_loop_sound q n (p ∷ ps) h =
    let (first, rest) = none_of (validate_evidence q p.evidence n) (missing_loop q n ps) h in
    (validate_evidence-IsEvidence q p.evidence n first, missing_loop_sound q n ps rest)

pub question_issues-IsConsistentQuestion :
    (q : ReportQuestionFeedback) (n : ℕ) → question_issues q n ≡ [] → IsConsistentQuestion q
unfolding question_issues
question_issues-IsConsistentQuestion q n h =
    let score =
      issue_if (not (awarded_score q.matched_knowledge_points == feedback_score q.outcome))
        (at_score n) inconsistent_question_score in
    let matched = matched_loop q n [] q.matched_knowledge_points in
    let missing = missing_loop q n q.missing_or_incorrect_points in
    let evidence = validate_evidence q q.evidence n in
    let (h3, none_score) = none_of (matched ++ missing ++ evidence) score h in
    let (h2, none_evidence) = none_of (matched ++ missing) evidence h3 in
    let (none_matched, none_missing) = none_of matched missing h2 in
    let (_, distinct, points) = matched_loop_sound q n [] q.matched_knowledge_points none_matched in
    record {
      once = distinct;
      matched = points;
      missing = missing_loop_sound q n q.missing_or_incorrect_points none_missing;
      evidence = validate_evidence-IsEvidence q q.evidence n none_evidence;
      total =
          ==→eq _ _
            (ground (arith, issue_if-none _ (at_score n) inconsistent_question_score none_score));
    }
