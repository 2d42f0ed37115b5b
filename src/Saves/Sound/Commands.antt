-- ===== src/Saves/Sound/Commands.antt =====
-- packages/db/src/repositories/transition-validation.ts: what a save of a command's result may change.
use interview_agent.Common.{
  ℕ, is_some, if◌then◌else◌, ◌==◌, ◌+◌, ◌≡◌, refl, true, false, Bool, Option, none, some, ok, arith,
  inl, inr, Result-cases, Bool-cases, Text, clone_date,
}
use interview_agent.Interview.{
  active, awaiting_continue, complete, incomplete, report_pending, abandoned, QuestionOutcome,
  ReportKind,
}
use interview_agent.Engine.{Interview, InterviewQuestionState, EventBase}
use interview_agent.Engine.Theorems.Lifecycle.{
  ◌⟶◌, stay_active, store_complete, store_incomplete, ask, give_up,
}
use interview_agent.Saves.Validate.{replace_question, get_question}
use interview_agent.Saves.Commands.{
  continued, validate_unevaluated_outcome, validate_continue, validate_early_end,
  validate_report_stored, validate_abandonment,
}
use interview_agent.Engine.Immediate.{reported_status}
use interview_agent.Saves.Sound.{
  kept, replaced, same_status, moved, VersionChange, same_version, next_version, Movement,
  canonical_inv, get_question_position,
}

pub early_end-Movement :
    (i j : Interview) (base : EventBase) (kind : ReportKind)
    → validate_early_end i j base kind ≡ ok tt
    → Movement i j
unfolding validate_early_end
early_end-Movement i j base kind h =
    let e =
      canonical_inv j
        (record i {
          version = i.version + 1;
          status = report_pending;
          phase = none;
          pending_operation = none;
          pending_report_kind = some incomplete;
          report_requested_at = some (clone_date base.occurred_at);
          last_effective_activity_at = clone_date base.occurred_at;
        })
        (ground arith) in
    let act : i.status ≡ active = ground arith in
    rw e (record { status = moved _ (rw act ask); version = next_version; questions = kept refl })

stored : (kind : ReportKind) → report_pending ⟶ reported_status kind
stored complete = store_complete
stored incomplete = store_incomplete

pub report_stored-Movement :
    (i j : Interview) (base : EventBase) (id : Text) (kind : ReportKind)
    → validate_report_stored i j base id kind ≡ ok tt
    → Movement i j
unfolding validate_report_stored
report_stored-Movement i j base id kind h =
    let e =
      canonical_inv j
        (record i {
          version = i.version + 1;
          status = reported_status kind;
          pending_operation = none;
          pending_report_kind = none;
          report_id = some id;
        })
        (ground arith) in
    let waiting : i.status ≡ report_pending = ground arith in
    rw e (record {
      status = moved _ (rw waiting (stored kind));
      version = next_version;
      questions = kept refl;
    })

abandoned_version : (n : ℕ) (b : Bool) → VersionChange n (if b then n else n + 1)
abandoned_version n true = same_version
abandoned_version n false = next_version

pub abandonment-Movement :
    (i j : Interview) (base : EventBase) → validate_abandonment i j base ≡ ok tt → Movement i j
unfolding validate_abandonment
abandonment-Movement i j base h =
    let e =
      canonical_inv j
        (record i {
          version = if is_some i.pending_operation then i.version else i.version + 1;
          status = abandoned;
          phase = none;
          pending_operation = none;
          pending_report_kind = none;
          report_requested_at = none;
        })
        (ground arith) in
    let act : i.status ≡ active = ground arith in
    rw e (record {
      status = moved _ (rw act give_up);
      version = abandoned_version i.version (is_some i.pending_operation);
      questions = kept refl;
    })

pub outcome-Movement :
    (i j : Interview) (base : EventBase) (position : ℕ) (outcome : QuestionOutcome)
    → validate_unevaluated_outcome i j base position outcome ≡ ok tt
    → Movement i j
unfolding validate_unevaluated_outcome replace_question
outcome-Movement i j base position outcome h = elim (Result-cases (get_question i position)) [
  | inl (q, found) ↦
      let e =
        canonical_inv j
          (record (replace_question i (record q { evaluation = none; outcome = some outcome })) {
            phase = some awaiting_continue;
            last_effective_activity_at = clone_date base.occurred_at;
            version = i.version + 1;
          })
          (ground arith) in
      rw e (record {
        status = same_status;
        version = next_version;
        questions = replaced _ (ground (arith, get_question_position i position q found)) refl;
      })
  | inr (x, bad) ↦ absurd (ground arith)
]

continued-Movement :
    (i : Interview) (q : InterviewQuestionState) (base : EventBase)
    → i.status ≡ active
    → q.position ≡ i.current_question_position
    → Movement i (continued i q base)
unfolding continued replace_question
continued-Movement i q base act at_current =
    elim (Bool-cases (i.current_question_position == i.question_count)) [
      | inl last ↦ rw last (record {
        status = moved _ (rw act ask);
        version = next_version;
        questions = replaced (record q { frozen = true }) at_current refl;
      })
      | inr more ↦ rw more (record {
        status = moved _ (rw act stay_active);
        version = next_version;
        questions = replaced (record q { frozen = true }) at_current refl;
      })
    ]

pub continue-Movement :
    (i j : Interview) (base : EventBase) (position : ℕ) (request : Option (EventBase × ReportKind))
    → validate_continue i j base position request ≡ ok tt
    → Movement i j
unfolding validate_continue
continue-Movement i j base position request h = elim (Result-cases (get_question i position)) [
  | inl (q, found) ↦
      let e = canonical_inv j (continued i q base) (ground arith) in
      rw e (
        continued-Movement i q base (ground arith)
          (ground (arith, get_question_position i position q found)))
  | inr (x, bad) ↦ absurd (ground arith)
]
