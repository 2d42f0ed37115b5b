-- ===== src/Engine/Theorems/Creation.antt =====
-- packages/domain/src/engine.ts: a created interview is well-formed.
use interview_agent.Common.{
  ℕ, suc, ◌+◌, ◌≤◌, ◌≡◌, refl, some, List, [], ◌∷◌, map, length, length-map, Text, ok, All, arith,
  is_valid, true, Result-cases, Num, count_if, ◌∙◌, inl, inr,
}
use interview_agent.Interview.{
  InterviewBlueprintItem, InterviewBlueprint, awaiting_response, active,
  is_supported_question_count,
}
use interview_agent.Engine.{CreateInterviewCommand, Interview, InterviewTransition}
use interview_agent.Engine.Blueprints.{
  create, item_loop, new_question_state, new_interview, validate_and_freeze_blueprint,
}
use interview_agent.Engine.Invariant.{IsWellFormed, QuestionOk, Positions, ItemPositions}

-- A blueprint that passes the loop counts its positions up.
item_loop-ItemPositions :
    (k : ℕ) (keys : List (Text × Num)) (items : List InterviewBlueprintItem) {u : Unit {0}}
    → item_loop k keys items ≡ ok u
    → ItemPositions (suc k) items
unfolding item_loop
item_loop-ItemPositions k keys [] h = tt
item_loop-ItemPositions k keys (item ∷ rest) h = ground (
  arith,
  item_loop-ItemPositions (suc k)
      ((item.question.question_id, item.question.question_version) ∷ keys) rest,
)

new-Positions :
    (n : ℕ) (items : List InterviewBlueprintItem)
    → ItemPositions n items
    → Positions n (map new_question_state items)
unfolding new_question_state
new-Positions n [] h = tt
new-Positions n (item ∷ rest) h = (h.0, new-Positions (suc n) rest h.1)

-- What the new states of a stretch of items have, in an interview that stands at its first question.
new-QuestionOk :
    (i : Interview)
    → i.current_question_position ≡ 1
    → i.phase ≡ some awaiting_response
    → i.status ≡ active
    → (n : ℕ) (items : List InterviewBlueprintItem) → 1 ≤ n
    → n + length items ≤ i.question_count + 1
    → ItemPositions n items
    → All (QuestionOk i) (map new_question_state items)
unfolding new_question_state count_if
new-QuestionOk i cur ph act n [] low high h = tt
new-QuestionOk i cur ph act n (item ∷ rest) low high h =
    (ground arith, new-QuestionOk i cur ph act (suc n) rest (omega arith) (omega arith) h.1)

validated :
    (b : InterviewBlueprint) (n : ℕ) {b' : InterviewBlueprint}
    → validate_and_freeze_blueprint b n ≡ ok b'
    → (b' ≡ b) × (length b.questions ≡ n) × (item_loop 0 [] b.questions ≡ ok tt)
unfolding validate_and_freeze_blueprint
validated b n h = ground arith

created :
    (c : CreateInterviewCommand) {t : InterviewTransition}
    → create c ≡ ok t
    → (validate_and_freeze_blueprint c.blueprint c.question_count ≡ ok c.blueprint)
      × (is_valid c.base.occurred_at ≡ true)
      × (is_supported_question_count c.question_count ≡ true)
      × (t.interview ≡ new_interview c c.blueprint)
unfolding create
created c h = elim (Result-cases (validate_and_freeze_blueprint c.blueprint c.question_count)) [
  | inl (b, v) ↦ ground (arith, validated c.blueprint c.question_count v)
  | inr (x, bad) ↦ absurd (ground arith)
]

-- A created interview is well-formed, is active at its first question, and has version 1.
pub create-IsWellFormed :
    (c : CreateInterviewCommand) {t : InterviewTransition}
    → create c ≡ ok t
    → IsWellFormed t.interview
unfolding new_interview is_supported_question_count
create-IsWellFormed c h =
    let (v, d, n, e) = created c h in
    let (_, len, loop) = validated c.blueprint c.question_count v in
    let items = item_loop-ItemPositions 0 [] c.blueprint.questions loop in
    rw e (record {
      positions = new-Positions 1 c.blueprint.questions items;
      counted = length-map new_question_state c.blueprint.questions ∙ len;
      item_positions = items;
      items_counted = len;
      current_from = omega arith;
      current_to = ground arith;
      active_valid = ground arith;
      fields = tt;
      questions_ok =
          new-QuestionOk (new_interview c c.blueprint) refl refl refl 1 c.blueprint.questions
            (omega arith) (omega arith) items;
    })
