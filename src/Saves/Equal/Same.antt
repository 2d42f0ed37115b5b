-- ===== src/Saves/Equal/Same.antt =====
-- packages/db/src/repositories/transition-validation.ts: an interview with valid dates equals itself
-- under `deepEqual`.
use interview_agent.Common.{
  ℕ, ◌≡◌, refl, true, Bool, Option, none, some, List, [], ◌∷◌, text_eq, text_eq_refl, num_eq, Num,
  int, pos, negsuc, not_whole, Date, is_valid, same_time, All, arith, ◌==◌,
}
use interview_agent.Interview.{
  InterviewPhase, ReportKind, FollowUpKind, KnowledgeDomain, phase_eq, report_kind_eq,
  follow_up_kind_eq, domain_eq, FollowUpPurpose, ResponseClassification, AnswerMaterialKind,
  InterviewStatus, ZeroScoreReason, RubricItemSnapshot, FollowUpGoalSnapshot, QuestionSnapshot,
  InterviewBlueprintItem, InterviewBlueprint, AnswerMaterial, RubricItemEvaluation, QuestionOutcome,
  scored, zero_score, QuestionEvaluation,
}
use interview_agent.Engine.{
  QuestionClarification, SystemFollowUp, InterviewQuestionState, PendingInterviewOperation,
  Interview, OperationName,
}
use interview_agent.Engine.Accepted.{operation_eq}
use interview_agent.Saves.Equal.{
  list_eq, option_eq, status_eq, reason_eq, purpose_eq, material_kind_eq, classification_eq,
  flag_eq, outcome_eq, rubric_item_eq, goal_eq, snapshot_eq, item_eq, blueprint_eq, material_eq,
  award_eq, evaluation_eq, clarification_eq, system_follow_up_eq, question_eq, pending_eq,
  interview_eq, identity_eq, progress_eq, activity_eq,
}

abbrev IsValidDate : Date → Type 0
IsValidDate d = is_valid d ≡ true

abbrev pub IsValidOption : Option Date → Type 0
IsValidOption none = Unit
IsValidOption (some d) = IsValidDate d

-- The dates of a question's state are valid.
pub record HasValidDates (q : InterviewQuestionState) : Type 0 where
  pub answers : All (λ m. IsValidDate m.submitted_at) q.answer_material
  pub clarifications :
      All (λ c. IsValidDate c.requested_at × IsValidDate c.recorded_at) q.question_clarifications
  pub follow_ups : All (λ f. IsValidDate f.recorded_at) q.system_follow_ups

abbrev pub IsValidPending : Option PendingInterviewOperation → Type 0
IsValidPending none = Unit
IsValidPending (some p) = IsValidDate p.accepted_at

-- All dates of an interview are valid: none has the time value NaN.
pub record IsDated (i : Interview) : Type 0 where
  pub created : IsValidDate i.created_at
  pub active_last : IsValidDate i.last_effective_activity_at
  pub requested : IsValidOption i.report_requested_at
  pub pending : IsValidPending i.pending_operation
  pub questions : All HasValidDates i.questions

list_eq-same {ℓ κ} :
    {A : Type ℓ} (eq : A → A → Bool) (P : A → Type κ) (xs : List A)
    → ((x : A) → P x → eq x x ≡ true)
    → All P xs
    → list_eq eq xs xs ≡ true
unfolding list_eq
list_eq-same eq P [] f all = refl
list_eq-same eq P (x ∷ xs) f (here, all) = ground (arith, f x here, list_eq-same eq P xs f all)

pub list_eq-always {ℓ} :
    {A : Type ℓ} (eq : A → A → Bool) (xs : List A)
    → ((x : A) → eq x x ≡ true)
    → list_eq eq xs xs ≡ true
unfolding list_eq
list_eq-always eq [] f = refl
list_eq-always eq (x ∷ xs) f = ground (arith, f x, list_eq-always eq xs f)

option_eq-always {ℓ} :
    {A : Type ℓ} (eq : A → A → Bool) (o : Option A)
    → ((x : A) → eq x x ≡ true)
    → option_eq eq o o ≡ true
option_eq-always eq none f = refl
option_eq-always eq (some x) f = f x

same_time-same : (d : Date) → IsValidDate d → same_time d d ≡ true
same_time-same d h = ground arith

num_eq-same : (n : Num) → num_eq n n ≡ true
num_eq-same (int (pos k)) = ground arith
num_eq-same (int (negsuc k)) = ground arith
num_eq-same (not_whole t) = text_eq_refl t

rubric_item_eq-same : (x : RubricItemSnapshot) → rubric_item_eq x x ≡ true
unfolding rubric_item_eq
rubric_item_eq-same x =
    ground (arith, text_eq_refl x.id, text_eq_refl x.description, num_eq-same x.weight)

follow_up_kind_eq-same : (k : FollowUpKind) → follow_up_kind_eq k k ≡ true
follow_up_kind_eq-same k = ground arith

goal_eq-same : (x : FollowUpGoalSnapshot) → goal_eq x x ≡ true
unfolding goal_eq
goal_eq-same x =
    ground (arith, text_eq_refl x.id, text_eq_refl x.goal, follow_up_kind_eq-same x.kind)

domain_eq-same : (d : KnowledgeDomain) → domain_eq d d ≡ true
domain_eq-same d = ground arith

snapshot_eq-same : (x : QuestionSnapshot) → snapshot_eq x x ≡ true
unfolding snapshot_eq
snapshot_eq-same x =
    rw
      (
        text_eq_refl x.question_id,
        num_eq-same x.question_version,
        domain_eq-same x.domain,
        text_eq_refl x.source_wording,
        text_eq_refl x.displayed_wording,
        list_eq-always rubric_item_eq x.rubric rubric_item_eq-same,
        list_eq-always goal_eq x.follow_up_goals goal_eq-same,
        text_eq_refl x.knowledge_explanation,
      )
      refl

item_eq-same : (x : InterviewBlueprintItem) → item_eq x x ≡ true
unfolding item_eq
item_eq-same x = ground (arith, snapshot_eq-same x.question)

blueprint_eq-same : (x : InterviewBlueprint) → blueprint_eq x x ≡ true
unfolding blueprint_eq
blueprint_eq-same x =
    rw
      (
        text_eq_refl x.selection_seed,
        option_eq-always domain_eq x.unassessed_domain domain_eq-same,
        list_eq-always item_eq x.questions item_eq-same,
      )
      refl

material_kind_eq-same : (k : AnswerMaterialKind) → material_kind_eq k k ≡ true
material_kind_eq-same k = ground arith

material_eq-same : (x : AnswerMaterial) → IsValidDate x.submitted_at → material_eq x x ≡ true
unfolding material_eq
material_eq-same x h =
    rw
      (
        text_eq_refl x.id,
        material_kind_eq-same x.kind,
        text_eq_refl x.text,
        same_time-same x.submitted_at h,
      )
      refl

award_eq-same : (x : RubricItemEvaluation) → award_eq x x ≡ true
unfolding award_eq
award_eq-same x =
    rw
      (
        text_eq_refl x.rubric_item_id,
        list_eq-always text_eq x.evidence_material_ids text_eq_refl,
        num_eq-same x.awarded_points,
        list_eq-always text_eq x.missing_or_incorrect_points text_eq_refl,
      )
      refl

classification_eq-same : (c : ResponseClassification) → classification_eq c c ≡ true
classification_eq-same c = ground arith

reason_eq-same : (r : ZeroScoreReason) → reason_eq r r ≡ true
reason_eq-same r = ground arith

outcome_eq-same : (o : QuestionOutcome) → outcome_eq o o ≡ true
outcome_eq-same (scored n) = ground arith
outcome_eq-same (zero_score r) = reason_eq-same r

pub evaluation_eq-same : (x : QuestionEvaluation) → evaluation_eq x x ≡ true
unfolding evaluation_eq
evaluation_eq-same x =
    rw
      (
        text_eq_refl x.id,
        classification_eq-same x.classification,
        list_eq-always award_eq x.rubric_items award_eq-same,
        outcome_eq-same x.outcome,
      )
      refl

clarification_eq-same :
    (x : QuestionClarification)
    → IsValidDate x.requested_at × IsValidDate x.recorded_at
    → clarification_eq x x ≡ true
unfolding clarification_eq
clarification_eq-same x (h, k) =
    rw
      (
        text_eq_refl x.message_id,
        text_eq_refl x.text,
        same_time-same x.requested_at h,
        same_time-same x.recorded_at k,
      )
      refl

purpose_eq-same : (p : FollowUpPurpose) → purpose_eq p p ≡ true
purpose_eq-same p = ground arith

system_follow_up_eq-same :
    (x : SystemFollowUp) → IsValidDate x.recorded_at → system_follow_up_eq x x ≡ true
unfolding system_follow_up_eq
system_follow_up_eq-same x h =
    rw
      (
        text_eq_refl x.message_id,
        text_eq_refl x.goal_id,
        follow_up_kind_eq-same x.kind,
        purpose_eq-same x.purpose,
        classification_eq-same x.response_classification,
        text_eq_refl x.text,
        same_time-same x.recorded_at h,
      )
      refl

number_same : (n : ℕ) → (n == n) ≡ true
number_same n = ground arith

flag_eq-same : (b : Bool) → flag_eq b b ≡ true
flag_eq-same b = ground arith

question_eq-same : (q : InterviewQuestionState) → HasValidDates q → question_eq q q ≡ true
unfolding question_eq
question_eq-same q h =
    rw
      (
        number_same q.position,
        list_eq-same material_eq (λ m. IsValidDate m.submitted_at) q.answer_material
            material_eq-same h.answers,
        list_eq-same clarification_eq (λ c. IsValidDate c.requested_at × IsValidDate c.recorded_at)
            q.question_clarifications clarification_eq-same h.clarifications,
        list_eq-same system_follow_up_eq (λ f. IsValidDate f.recorded_at) q.system_follow_ups
            system_follow_up_eq-same h.follow_ups,
        option_eq-always evaluation_eq q.evaluation evaluation_eq-same,
        option_eq-always outcome_eq q.outcome outcome_eq-same,
        flag_eq-same q.frozen,
      )
      refl

phase_eq-same : (p : InterviewPhase) → phase_eq p p ≡ true
phase_eq-same p = ground arith

operation_eq-same : (o : OperationName) → operation_eq o o ≡ true
operation_eq-same o = ground arith

report_kind_eq-same : (k : ReportKind) → report_kind_eq k k ≡ true
report_kind_eq-same k = ground arith

status_eq-same : (s : InterviewStatus) → status_eq s s ≡ true
status_eq-same s = ground arith

pending_eq-same :
    (o : Option PendingInterviewOperation) → IsValidPending o → option_eq pending_eq o o ≡ true
unfolding pending_eq
pending_eq-same none h = refl
pending_eq-same (some p) h =
    rw
      (
        text_eq_refl p.operation_id,
        operation_eq-same p.operation,
        number_same p.question_position,
        same_time-same p.accepted_at h,
        phase_eq-same p.previous_phase,
      )
      refl

requested_same : (o : Option Date) → IsValidOption o → option_eq same_time o o ≡ true
requested_same none h = refl
requested_same (some d) h = same_time-same d h

identity_eq-same : (i : Interview) → IsDated i → identity_eq i i ≡ true
unfolding identity_eq
identity_eq-same i h =
    rw
      (
        text_eq_refl i.id,
        text_eq_refl i.account_id,
        number_same i.question_count,
        blueprint_eq-same i.blueprint,
        same_time-same i.created_at h.created,
      )
      refl

progress_eq-same : (i : Interview) → IsDated i → progress_eq i i ≡ true
unfolding progress_eq
progress_eq-same i h =
    rw
      (
        number_same i.version,
        status_eq-same i.status,
        option_eq-always phase_eq i.phase phase_eq-same,
        number_same i.current_question_position,
        list_eq-same question_eq HasValidDates i.questions question_eq-same h.questions,
      )
      refl

activity_eq-same : (i : Interview) → IsDated i → activity_eq i i ≡ true
unfolding activity_eq
activity_eq-same i h =
    rw
      (
        pending_eq-same i.pending_operation h.pending,
        option_eq-always report_kind_eq i.pending_report_kind report_kind_eq-same,
        requested_same i.report_requested_at h.requested,
        option_eq-always text_eq i.report_id text_eq_refl,
        same_time-same i.last_effective_activity_at h.active_last,
      )
      refl

-- An interview whose dates are valid equals itself under `deepEqual`.
pub interview_eq-same : (i : Interview) → IsDated i → interview_eq i i ≡ true
unfolding interview_eq
interview_eq-same i h = rw (identity_eq-same i h, progress_eq-same i h, activity_eq-same i h) refl
