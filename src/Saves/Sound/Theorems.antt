-- ===== src/Saves/Sound/Theorems.antt =====
-- packages/db/src/repositories/transition-validation.ts: that an accepted save keeps to the lifecycle.
use interview_agent.Common.{◌≡◌, sym, ok, arith, text_eq_sound}
use interview_agent.Engine.{Interview}
use interview_agent.Saves.{
  InterviewSave, EventSequence, no_events, clarification_events, follow_up_events,
  evaluation_events, outcome_events, freeze_events, report_request_events, stored_events,
  abandoned_events, other_events,
}
use interview_agent.Saves.Equal.Sound.{blueprint_eq-IsSound, same_time-IsSound}
use interview_agent.Saves.Validate.{sequence_of, assert_immutable_identity}
use interview_agent.Saves.Transitions.{validate_sequence, validate_interview_save}
use interview_agent.Saves.Accepts.{SameIdentity}
use interview_agent.Saves.Sound.{Movement}
use interview_agent.Saves.Sound.Eventless.{eventless-Movement}
use interview_agent.Saves.Sound.Completions.{
  clarification-Movement, follow_up-Movement, evaluation-Movement,
}
use interview_agent.Saves.Sound.Commands.{
  outcome-Movement, continue-Movement, early_end-Movement, report_stored-Movement,
  abandonment-Movement,
}

identity_kept :
    (change : InterviewSave)
    → assert_immutable_identity change ≡ ok tt
    → SameIdentity change.previous change.current
unfolding assert_immutable_identity
identity_kept change h =
    let i = change.previous in
    let j = change.current in
    record {
      id = sym (text_eq_sound i.id j.id (ground arith));
      account_id = sym (text_eq_sound i.account_id j.account_id (ground arith));
      question_count = ground arith;
      blueprint = sym (blueprint_eq-IsSound i.blueprint j.blueprint (ground arith));
      created_at = sym (same_time-IsSound i.created_at j.created_at (ground arith));
    }

sequence-Movement :
    (i j : Interview) (s : EventSequence) → validate_sequence i j s ≡ ok tt → Movement i j
unfolding validate_sequence
sequence-Movement i j no_events h = eventless-Movement i j h
sequence-Movement i j (clarification_events a p b m q t) h =
    clarification-Movement i j a p b m q t h
sequence-Movement i j (follow_up_events a x b q c) h = follow_up-Movement i j a x b q c h
sequence-Movement i j (evaluation_events a b q e) h = evaluation-Movement i j a b q e h
sequence-Movement i j (outcome_events a p o) h = outcome-Movement i j a p o h
sequence-Movement i j (freeze_events a p r) h = continue-Movement i j a p r h
sequence-Movement i j (report_request_events a k) h = early_end-Movement i j a k h
sequence-Movement i j (stored_events a id k) h = report_stored-Movement i j a id k h
sequence-Movement i j (abandoned_events a r) h = abandonment-Movement i j a h
sequence-Movement i j other_events h = absurd (ground arith)

-- A save that the guard accepts, whoever made it, keeps the interview's identifier, account, question
-- count, blueprint and creation time; leaves the status or moves it along an edge of the lifecycle;
-- keeps the version or adds one; and changes no question but the one at the current position.
pub saves_permitted :
    (change : InterviewSave)
    → validate_interview_save change ≡ ok tt
    → SameIdentity change.previous change.current × Movement change.previous change.current
unfolding validate_interview_save
saves_permitted change h = (
  identity_kept change (ground arith),
  sequence-Movement change.previous change.current (sequence_of change.events) (ground arith),
)
