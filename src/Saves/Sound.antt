-- ===== src/Saves/Sound.antt =====
-- packages/db/src/repositories/transition-validation.ts: what an accepted save may change.
pub mod Commands
pub mod Completions
pub mod Eventless
pub mod Theorems
use interview_agent.Common.{
  ℕ, is_some, if◌then◌else◌, ◌==◌, ◌>>◌, ◌+◌, ◌≡◌, ◌⊎◌, refl, sym, true, false, not, Bool, List, [],
  ◌∷◌, map, Option, none, some, ok, err, arith, inl, inr, Result-cases, Bool-cases, Option-cases,
  Date, Text, clone_date,
}
use interview_agent.Interview.{
  active, awaiting_continue, complete, incomplete, report_pending, abandoned, InterviewStatus,
  QuestionOutcome, ReportKind, QuestionEvaluation,
}
use interview_agent.Engine.{
  OperationName, Interview, InterviewQuestionState, PendingInterviewOperation, EventBase,
  RecordSystemFollowUpCommand,
}
use interview_agent.Engine.Guards.{replaced_by}
use interview_agent.Engine.Theorems.Lifecycle.{
  ◌⟶◌, stay_active, stay_pending, store_complete, store_incomplete, ask, give_up,
}
use interview_agent.Saves.{
  SaveReason, InterviewSave, AnswerEvent, EventSequence, no_events, clarification_events,
  follow_up_events, evaluation_events, outcome_events, freeze_events, report_request_events,
  stored_events, abandoned_events, other_events,
}
use interview_agent.Saves.Equal.{interview_eq}
use interview_agent.Saves.Equal.Sound.{interview_eq-IsSound}
use interview_agent.Saves.Validate.{
  require_pending, replace_question, SaveChecked, reject_if, assert_aggregate_equals, get_question,
  sequence_of,
}
use interview_agent.Saves.Eventless.{validate_eventless_transition}
use interview_agent.Saves.Commands.{
  continued, validate_unevaluated_outcome, validate_continue, validate_early_end,
  validate_report_stored, validate_abandonment,
}
use interview_agent.Saves.Transitions.{validate_sequence, validate_interview_save}
use interview_agent.Saves.Accepts.{SameIdentity}
use interview_agent.Engine.Immediate.{reported_status}

-- What a save may do to the questions: nothing, or put another state at the current position.
pub data QuestionChange (i j : Interview) : Type 0 where
  kept : j.questions ≡ i.questions → QuestionChange i j
  replaced :
      (q : InterviewQuestionState)
      → q.position ≡ i.current_question_position
      → j.questions ≡ map (replaced_by q) i.questions
      → QuestionChange i j

pub data StatusChange (s : InterviewStatus) : InterviewStatus → Type 0 where
  same_status : StatusChange s s
  moved : (t : InterviewStatus) → s ⟶ t → StatusChange s t

pub data VersionChange (n : ℕ) : ℕ → Type 0 where
  same_version : VersionChange n n
  next_version : VersionChange n (n + 1)

-- What the sequence of events of an accepted save leaves open.
pub record Movement (i j : Interview) : Type 0 where
  pub status : StatusChange i.status j.status
  pub version : VersionChange i.version j.version
  pub questions : QuestionChange i j

pub canonical_inv :
    (actual expected : Interview)
    → assert_aggregate_equals actual expected ≡ ok tt
    → actual ≡ expected
unfolding assert_aggregate_equals
canonical_inv actual expected h = interview_eq-IsSound actual expected (ground arith)

pub get_question_position :
    (i : Interview) (n : ℕ) (q : InterviewQuestionState) → get_question i n ≡ ok q → q.position ≡ n
unfolding get_question
get_question_position i n q h = ground arith

pub require_pending_position :
    (i : Interview) (name : OperationName) (p : PendingInterviewOperation)
    → require_pending i name ≡ ok p
    → p.question_position ≡ i.current_question_position
unfolding require_pending
require_pending_position i name p h = elim (Option-cases i.pending_operation) [
  | inl e ↦ absurd (ground arith)
  | inr (c, e) ↦ ground arith
]
