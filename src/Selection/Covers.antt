-- ===== src/Selection/Covers.antt =====
-- packages/domain/src/blueprint-selection.ts: the returned blueprint covers the domains.
use interview_agent.Common.{
  ◌≡◌, subst, List, length, ok, ◌>>=◌, bind_ok, Result-cases, arith, inl, inr,
}
use interview_agent.Interview.{InterviewBlueprint, QuestionSnapshot}
use interview_agent.Coverage.{derive_unassessed_domain, validate_interview_blueprint_coverage}
use interview_agent.Coverage.Quota.{CoversFive}
use interview_agent.Coverage.Accepts.{validate-CoversFive}
use interview_agent.Selection.{BlueprintSelectionInput}
use interview_agent.Selection.Choice.{group_candidates, blueprint_domain_minimums}
use interview_agent.Selection.Select.{
  select, arranged_questions, finished_blueprint, blueprint_items,
}

finished_blueprint_validated :
    (input : BlueprintSelectionInput) (ordered : List QuestionSnapshot) {b : InterviewBlueprint}
    → finished_blueprint input ordered ≡ ok b
    → validate_interview_blueprint_coverage input.question_count b.questions b.unassessed_domain
      ≡ ok tt
unfolding finished_blueprint
finished_blueprint_validated input ordered h =
    elim (Result-cases
      (derive_unassessed_domain (blueprint_items 1 ordered) input.question_count)) [
        | inr (x, bad) ↦ absurd (ground arith)
        | inl (u, good) ↦
            elim (Result-cases (
              validate_interview_blueprint_coverage input.question_count (blueprint_items 1 ordered)
                u)) [ inr (x, bad) ↦ absurd (ground arith) | inl (v, covered) ↦ ground arith ]
      ]

select_validated :
    (input : BlueprintSelectionInput) {b : InterviewBlueprint}
    → select input ≡ ok b
    → validate_interview_blueprint_coverage input.question_count b.questions b.unassessed_domain
      ≡ ok tt
unfolding select
select_validated input e =
    let (groups, (_, e1)) =
      bind_ok (group_candidates input.eligible_questions)
        (λ groups.
          blueprint_domain_minimums input.question_count input.selection_seed groups
            input.recent_question_ids
          >>= λ minimums. arranged_questions input groups minimums >>= finished_blueprint input)
        e in
    let (minimums, (_, e2)) =
      bind_ok
        (blueprint_domain_minimums input.question_count input.selection_seed groups
          input.recent_question_ids)
        (λ minimums. arranged_questions input groups minimums >>= finished_blueprint input) e1 in
    let (ordered, (_, finished)) =
      bind_ok (arranged_questions input groups minimums) (finished_blueprint input) e2 in
    finished_blueprint_validated input ordered finished

-- A blueprint that `select` returns for five questions has five, of five domains, and it declares the sixth
-- domain as the unassessed one.
pub select-CoversFive :
    (input : BlueprintSelectionInput) {b : InterviewBlueprint}
    → input.question_count ≡ 5
    → select input ≡ ok b
    → (length b.questions ≡ 5) × CoversFive b.questions b.unassessed_domain
select-CoversFive input {b} five e = (validate-CoversFive b.questions b.unassessed_domain).0 (
    subst (λ n. validate_interview_blueprint_coverage n b.questions b.unassessed_domain ≡ ok tt)
      five (select_validated input e))
