-- ===== src/Saves/Accepts.antt =====
-- packages/db/src/repositories/transition-validation.ts: that the guard accepts what the engine leaves.
pub mod Sessions
pub mod Commands
pub mod Acceptance
pub mod Eventless
pub mod Completions
pub mod Answers
use interview_agent.Common.{
  ℕ, ◌≡◌, refl, true, false, not, Bool, List, [], ◌∷◌, Option, none, some, Text, text_eq,
  text_eq_refl, same_time, is_valid, clone_date, ok, err, arith, inl, inr, Option-cases,
  at_position, ap, sym, ◌∙◌, Date, at, invalid,
}
use interview_agent.Engine.{Interview, InterviewQuestionState, InterviewEvent, CommandBase}
use interview_agent.Engine.Guards.{get_current_question_state, question_at}
use interview_agent.Saves.{InterviewSave, SaveError}
use interview_agent.Saves.Equal.{interview_eq, identity_eq, progress_eq, activity_eq, blueprint_eq}
use interview_agent.Saves.Validate.{
  SaveChecked, assert_aggregate_equals, assert_immutable_identity, assert_event_identity,
  assert_persistence_payloads, get_question, question_of, sequence_of,
}
use interview_agent.Saves.Transitions.{
  validate_sequence, validate_interview_save, is_evaluation_sequence, is_report_sequence,
}

pub clone_date_same : (d : Date) → clone_date d ≡ d
clone_date_same (at x) = refl
clone_date_same invalid = refl

pub clone_date_twice : (d : Date) → clone_date (clone_date d) ≡ d
clone_date_twice (at x) = refl
clone_date_twice invalid = refl

-- An interview that equals itself under `deepEqual`: its dates are valid and its numbers whole.
abbrev pub IsComparable : Interview → Type 0
IsComparable i = interview_eq i i ≡ true

pub canonical :
    (actual expected : Interview)
    → actual ≡ expected
    → IsComparable actual
    → assert_aggregate_equals actual expected ≡ ok tt
unfolding assert_aggregate_equals
canonical actual expected e h = rw (sym e, h) refl

-- The two interviews agree on what no transition changes.
pub record SameIdentity (i j : Interview) : Type 0 where
  pub id : j.id ≡ i.id
  pub account_id : j.account_id ≡ i.account_id
  pub question_count : j.question_count ≡ i.question_count
  pub blueprint : j.blueprint ≡ i.blueprint
  pub created_at : j.created_at ≡ i.created_at

identity_of :
    (j : Interview)
    → IsComparable j
    → (text_eq j.account_id j.account_id ≡ true)
      × (blueprint_eq j.blueprint j.blueprint ≡ true)
      × (same_time j.created_at j.created_at ≡ true)
unfolding interview_eq identity_eq
identity_of j h = (text_eq_refl j.account_id, ground arith, ground arith)

pub kept_identity :
    (change : InterviewSave)
    → SameIdentity change.previous change.current
    → IsComparable change.current
    → assert_immutable_identity change ≡ ok tt
unfolding assert_immutable_identity
kept_identity change s h =
    let (account, blueprint, created) = identity_of change.current h in
    ground (
      arith,
      s.id,
      s.account_id,
      s.question_count,
      s.blueprint,
      s.created_at,
      account,
      blueprint,
      created,
      text_eq_refl change.current.id,
    )

-- The four parts of the guard, one after the other.
pub saved :
    (change : InterviewSave)
    → SameIdentity change.previous change.current
    → IsComparable change.current
    → assert_event_identity change.previous change.events ≡ ok tt
    → validate_sequence change.previous change.current (sequence_of change.events) ≡ ok tt
    → assert_persistence_payloads change
        (is_evaluation_sequence (sequence_of change.events))
        (is_report_sequence (sequence_of change.events))
      ≡ ok tt
    → validate_interview_save change ≡ ok tt
unfolding validate_interview_save
saved change s h events sequence payloads =
    rw (kept_identity change s h, events, sequence, payloads) refl

-- The repository finds the question that the engine finds.
pub question_found :
    (i : Interview) {q : InterviewQuestionState}
    → get_current_question_state i ≡ ok q
    → get_question i i.current_question_position ≡ ok q
unfolding get_current_question_state get_question
question_found i {q} h = elim (Option-cases (at_position i.questions i.current_question_position)) [
  | inl e ↦ absurd (ground arith)
  | inr (c, e) ↦ ground arith
]
