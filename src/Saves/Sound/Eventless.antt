-- ===== src/Saves/Sound/Eventless.antt =====
-- packages/db/src/repositories/transition-validation.ts: what a save without events may change.
use interview_agent.Common.{
  ℕ, if◌then◌else◌, ◌==◌, ◌+◌, ◌≡◌, refl, true, false, Bool, Option, none, some, ok, arith, inl,
  inr, Bool-cases, clone_date, ap,
}
use interview_agent.Interview.{processing}
use interview_agent.Engine.{Interview, PendingInterviewOperation}
use interview_agent.Saves.Validate.{clone_pending}
use interview_agent.Saves.Eventless.{
  validate_eventless_transition, validate_acceptance, validate_refresh, validate_pending_change,
  is_report_refresh,
}
use interview_agent.Saves.Sound.{
  kept, same_status, VersionChange, same_version, next_version, Movement, canonical_inv,
}

accepted_version : (n : ℕ) (b : Bool) → VersionChange n (if b then n + 1 else n)
accepted_version n true = next_version
accepted_version n false = same_version

acceptance-Movement :
    (i j : Interview) (pending : PendingInterviewOperation)
    → validate_acceptance i j pending ≡ ok tt
    → Movement i j
unfolding validate_acceptance
acceptance-Movement i j pending h =
    let e =
      canonical_inv j
        (record i {
          version = if j.version == i.version + 1 then i.version + 1 else i.version;
          phase = some processing;
          pending_operation = some (clone_pending pending);
          last_effective_activity_at = clone_date pending.accepted_at;
        })
        (ground arith) in
    record {
      status = rw (ap (λ z. z.status) e) same_status;
      version =
          rw (ap (λ z. z.version) e) (accepted_version i.version (j.version == i.version + 1));
      questions = kept (ap (λ z. z.questions) e);
    }

refresh-Movement :
    (i j : Interview) (before_it pending : PendingInterviewOperation)
    → validate_refresh i j before_it pending ≡ ok tt
    → Movement i j
unfolding validate_refresh
refresh-Movement i j before_it pending h =
    let e =
      canonical_inv j
        (record i {
          pending_operation = some (clone_pending pending);
          last_effective_activity_at = clone_date pending.accepted_at;
        })
        (ground arith) in
    rw e (record { status = same_status; version = same_version; questions = kept refl })

pending_change-Movement :
    (i j : Interview) (a b : Option PendingInterviewOperation)
    → validate_pending_change i j a b ≡ ok tt
    → Movement i j
unfolding validate_pending_change
pending_change-Movement i j none (some pending) h = acceptance-Movement i j pending h
pending_change-Movement i j (some p) (some pending) h = refresh-Movement i j p pending h
pending_change-Movement i j (some pending) none h =
    rw (canonical_inv j _ h)
      (record { status = same_status; version = same_version; questions = kept refl })
pending_change-Movement i j none none h = absurd (ground arith)

pub eventless-Movement :
    (i j : Interview) → validate_eventless_transition i j ≡ ok tt → Movement i j
unfolding validate_eventless_transition
eventless-Movement i j h = elim (Bool-cases (is_report_refresh i j)) [
  | inl fresh ↦
      let e =
        canonical_inv j
          (record i { last_effective_activity_at = clone_date j.last_effective_activity_at })
          (ground arith) in
      record {
        status = rw (ap (λ z. z.status) e) same_status;
        version = rw (ap (λ z. z.version) e) same_version;
        questions = kept (ap (λ z. z.questions) e);
      }
  | inr stale ↦ pending_change-Movement i j i.pending_operation j.pending_operation (ground arith)
]
