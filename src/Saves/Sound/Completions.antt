-- ===== src/Saves/Sound/Completions.antt =====
-- packages/db/src/repositories/transition-validation.ts: what a save of a completed operation may change.
use interview_agent.Common.{
  ℕ, ◌≡◌, refl, [], ◌∷◌, Option, none, some, ok, arith, inl, inr, Result-cases, Text, ◌++◌, ◌∙◌,
}
use interview_agent.Interview.{awaiting_continue, QuestionEvaluation, awaiting_response}
use interview_agent.Engine.{
  Interview, EventBase, RecordSystemFollowUpCommand, question_clarification, answer_analysis,
}
use interview_agent.Saves.{AnswerEvent}
use interview_agent.Saves.Validate.{
  require_pending, replace_question, get_question, answer_material_from,
}
use interview_agent.Saves.Sound.{
  replaced, same_status, same_version, Movement, canonical_inv, get_question_position,
  require_pending_position,
}
use interview_agent.Saves.Completions.{
  clarification_from, follow_up_from, validate_clarification_completion,
  validate_follow_up_completion, validate_evaluation_completion,
}

pub clarification-Movement :
    (i j : Interview) (a : EventBase) (p : ℕ) (b : EventBase) (m : Text) (n : ℕ) (t : Text)
    → validate_clarification_completion i j a p b m n t ≡ ok tt
    → Movement i j
unfolding validate_clarification_completion replace_question
clarification-Movement i j a p b m n t h =
    elim (Result-cases (require_pending i question_clarification)) [
      | inr (x, bad) ↦ absurd (ground arith)
      | inl (pending, have) ↦ elim (Result-cases (get_question i pending.question_position)) [
        | inr (x, bad) ↦ absurd (ground arith)
        | inl (q, found) ↦
            let e =
              canonical_inv j
                (record (replace_question i (record q {
                  question_clarifications =
                      q.question_clarifications ++ clarification_from a b m t ∷ [];
                })) { phase = some awaiting_response; pending_operation = none })
                (ground arith) in
            rw e (record {
              status = same_status;
              version = same_version;
              questions =
                  replaced _
                    (get_question_position i pending.question_position q found
                      ∙ require_pending_position i question_clarification pending have)
                    refl;
            })
      ]
    ]

pub follow_up-Movement :
    (i j : Interview) (a : AnswerEvent) (x : Option (EventBase × ℕ)) (b : EventBase) (n : ℕ)
    (c : RecordSystemFollowUpCommand)
    → validate_follow_up_completion i j a x b n c ≡ ok tt
    → Movement i j
unfolding validate_follow_up_completion replace_question
follow_up-Movement i j a x b n c h = elim (Result-cases (require_pending i answer_analysis)) [
  | inr (x, bad) ↦ absurd (ground arith)
  | inl (pending, have) ↦ elim (Result-cases (get_question i pending.question_position)) [
    | inr (x, bad) ↦ absurd (ground arith)
    | inl (q, found) ↦
        let e =
          canonical_inv j
            (record (replace_question i (record q {
              answer_material = q.answer_material ++ answer_material_from a ∷ [];
              system_follow_ups = q.system_follow_ups ++ follow_up_from b c ∷ [];
              evaluation = none;
              outcome = none;
            })) { phase = some awaiting_response; pending_operation = none })
            (ground arith) in
        rw e (record {
          status = same_status;
          version = same_version;
          questions =
              replaced _
                (get_question_position i pending.question_position q found
                  ∙ require_pending_position i answer_analysis pending have)
                refl;
        })
  ]
]

pub evaluation-Movement :
    (i j : Interview) (a : AnswerEvent) (b : EventBase) (n : ℕ) (v : QuestionEvaluation)
    → validate_evaluation_completion i j a b n v ≡ ok tt
    → Movement i j
unfolding validate_evaluation_completion replace_question
evaluation-Movement i j a b n v h = elim (Result-cases (require_pending i answer_analysis)) [
  | inr (x, bad) ↦ absurd (ground arith)
  | inl (pending, have) ↦ elim (Result-cases (get_question i pending.question_position)) [
    | inr (x, bad) ↦ absurd (ground arith)
    | inl (q, found) ↦
        let e =
          canonical_inv j
            (record (replace_question i (record q {
              answer_material = q.answer_material ++ answer_material_from a ∷ [];
              evaluation = some v;
              outcome = some v.outcome;
            })) { phase = some awaiting_continue; pending_operation = none })
            (ground arith) in
        rw e (record {
          status = same_status;
          version = same_version;
          questions =
              replaced _
                (get_question_position i pending.question_position q found
                  ∙ require_pending_position i answer_analysis pending have)
                refl;
        })
  ]
]
