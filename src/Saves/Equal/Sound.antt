-- ===== src/Saves/Equal/Sound.antt =====
-- packages/db/src/repositories/transition-validation.ts: values that `deepEqual` takes for equal are equal.
use interview_agent.Common.{
  Bool, true, ◌≡◌, refl, ap, none, some, [], ◌∷◌, text_eq, text_eq_sound, num_eq, int, not_whole,
  same_time, arith, ◌&&◌,
}
use interview_agent.Interview.{phase_eq, report_kind_eq, follow_up_kind_eq, domain_eq}
use interview_agent.Saves.Equal.{
  list_eq, option_eq, status_eq, reason_eq, purpose_eq, material_kind_eq, classification_eq,
  flag_eq, outcome_eq, rubric_item_eq, goal_eq, snapshot_eq, item_eq, blueprint_eq, material_eq,
  award_eq, evaluation_eq, clarification_eq, system_follow_up_eq, question_eq, pending_eq,
  interview_eq, identity_eq, progress_eq, activity_eq,
}
use interview_agent.Engine.{Interview}
use interview_agent.Engine.Accepted.{operation_eq}

-- The test is sound.
abbrev pub IsSound {ℓ} : {A : Type ℓ} → (A → A → Bool) → Type ℓ
IsSound {A = A} eq = (a b : A) → eq a b ≡ true → a ≡ b

pub list_eq-IsSound {ℓ} : {A : Type ℓ} (eq : A → A → Bool) → IsSound eq → IsSound (list_eq eq)
unfolding list_eq
list_eq-IsSound eq s [] [] h = refl
list_eq-IsSound eq s (x ∷ xs) (y ∷ ys) h = ground (arith, s x y, list_eq-IsSound eq s xs ys)
list_eq-IsSound eq s [] (y ∷ ys) h = cc
list_eq-IsSound eq s (x ∷ xs) [] h = cc

pub option_eq-IsSound {ℓ} : {A : Type ℓ} (eq : A → A → Bool) → IsSound eq → IsSound (option_eq eq)
option_eq-IsSound eq s none none h = refl
option_eq-IsSound eq s (some a) (some b) h = ap some (s a b h)
option_eq-IsSound eq s none (some b) h = cc
option_eq-IsSound eq s (some a) none h = cc

status_eq-IsSound : IsSound status_eq
status_eq-IsSound a b h = ground arith

reason_eq-IsSound : IsSound reason_eq
reason_eq-IsSound a b h = ground arith

purpose_eq-IsSound : IsSound purpose_eq
purpose_eq-IsSound a b h = ground arith

material_kind_eq-IsSound : IsSound material_kind_eq
material_kind_eq-IsSound a b h = ground arith

classification_eq-IsSound : IsSound classification_eq
classification_eq-IsSound a b h = ground arith

flag_eq-IsSound : IsSound flag_eq
flag_eq-IsSound a b h = ground arith

phase_eq-IsSound : IsSound phase_eq
phase_eq-IsSound a b h = ground arith

report_kind_eq-IsSound : IsSound report_kind_eq
report_kind_eq-IsSound a b h = ground arith

follow_up_kind_eq-IsSound : IsSound follow_up_kind_eq
follow_up_kind_eq-IsSound a b h = ground arith

domain_eq-IsSound : IsSound domain_eq
domain_eq-IsSound a b h = ground arith

operation_eq-IsSound : IsSound operation_eq
operation_eq-IsSound a b h = ground arith

num_eq-IsSound : IsSound num_eq
num_eq-IsSound (int a) b h = ground arith
num_eq-IsSound (not_whole a) (int b) h = absurd (ground arith)
num_eq-IsSound (not_whole a) (not_whole b) h = ap not_whole (text_eq_sound a b h)

pub same_time-IsSound : IsSound same_time
same_time-IsSound a b h = ground arith

outcome_eq-IsSound : IsSound outcome_eq
outcome_eq-IsSound a b h = ground arith

rubric_item_eq-IsSound : IsSound rubric_item_eq
unfolding rubric_item_eq
rubric_item_eq-IsSound a b h = ground (
  arith,
  text_eq_sound a.id b.id,
  text_eq_sound a.description b.description,
  num_eq-IsSound a.weight b.weight,
)

goal_eq-IsSound : IsSound goal_eq
unfolding goal_eq
goal_eq-IsSound a b h = ground (
  arith,
  text_eq_sound a.id b.id,
  follow_up_kind_eq-IsSound a.kind b.kind,
  text_eq_sound a.goal b.goal,
)

snapshot_eq-IsSound : IsSound snapshot_eq
unfolding snapshot_eq
snapshot_eq-IsSound a b h = ground (
  arith,
  text_eq_sound a.question_id b.question_id,
  num_eq-IsSound a.question_version b.question_version,
  domain_eq-IsSound a.domain b.domain,
  text_eq_sound a.source_wording b.source_wording,
  text_eq_sound a.displayed_wording b.displayed_wording,
  list_eq-IsSound rubric_item_eq rubric_item_eq-IsSound a.rubric b.rubric,
  list_eq-IsSound goal_eq goal_eq-IsSound a.follow_up_goals b.follow_up_goals,
  text_eq_sound a.knowledge_explanation b.knowledge_explanation,
)

item_eq-IsSound : IsSound item_eq
unfolding item_eq
item_eq-IsSound a b h = ground (arith, snapshot_eq-IsSound a.question b.question)

pub blueprint_eq-IsSound : IsSound blueprint_eq
unfolding blueprint_eq
blueprint_eq-IsSound a b h = ground (
  arith,
  text_eq_sound a.selection_seed b.selection_seed,
  option_eq-IsSound domain_eq domain_eq-IsSound a.unassessed_domain b.unassessed_domain,
  list_eq-IsSound item_eq item_eq-IsSound a.questions b.questions,
)

material_eq-IsSound : IsSound material_eq
unfolding material_eq
material_eq-IsSound a b h = ground (
  arith,
  text_eq_sound a.id b.id,
  material_kind_eq-IsSound a.kind b.kind,
  text_eq_sound a.text b.text,
  same_time-IsSound a.submitted_at b.submitted_at,
)

award_eq-IsSound : IsSound award_eq
unfolding award_eq
award_eq-IsSound a b h = ground (
  arith,
  text_eq_sound a.rubric_item_id b.rubric_item_id,
  list_eq-IsSound text_eq text_eq_sound a.evidence_material_ids b.evidence_material_ids,
  num_eq-IsSound a.awarded_points b.awarded_points,
  list_eq-IsSound text_eq text_eq_sound a.missing_or_incorrect_points b.missing_or_incorrect_points,
)

pub evaluation_eq-IsSound : IsSound evaluation_eq
unfolding evaluation_eq
evaluation_eq-IsSound a b h = ground (
  arith,
  text_eq_sound a.id b.id,
  classification_eq-IsSound a.classification b.classification,
  list_eq-IsSound award_eq award_eq-IsSound a.rubric_items b.rubric_items,
  outcome_eq-IsSound a.outcome b.outcome,
)

clarification_eq-IsSound : IsSound clarification_eq
unfolding clarification_eq
clarification_eq-IsSound a b h = ground (
  arith,
  text_eq_sound a.message_id b.message_id,
  text_eq_sound a.text b.text,
  same_time-IsSound a.requested_at b.requested_at,
  same_time-IsSound a.recorded_at b.recorded_at,
)

system_follow_up_eq-IsSound : IsSound system_follow_up_eq
unfolding system_follow_up_eq
system_follow_up_eq-IsSound a b h = ground (
  arith,
  text_eq_sound a.message_id b.message_id,
  text_eq_sound a.goal_id b.goal_id,
  follow_up_kind_eq-IsSound a.kind b.kind,
  purpose_eq-IsSound a.purpose b.purpose,
  classification_eq-IsSound a.response_classification b.response_classification,
  text_eq_sound a.text b.text,
  same_time-IsSound a.recorded_at b.recorded_at,
)

question_eq-IsSound : IsSound question_eq
unfolding question_eq
question_eq-IsSound a b h = ground (
  arith,
  list_eq-IsSound material_eq material_eq-IsSound a.answer_material b.answer_material,
  list_eq-IsSound clarification_eq clarification_eq-IsSound a.question_clarifications
      b.question_clarifications,
  list_eq-IsSound system_follow_up_eq system_follow_up_eq-IsSound a.system_follow_ups
      b.system_follow_ups,
  option_eq-IsSound evaluation_eq evaluation_eq-IsSound a.evaluation b.evaluation,
  option_eq-IsSound outcome_eq outcome_eq-IsSound a.outcome b.outcome,
  flag_eq-IsSound a.frozen b.frozen,
)

pending_eq-IsSound : IsSound pending_eq
unfolding pending_eq
pending_eq-IsSound a b h = ground (
  arith,
  text_eq_sound a.operation_id b.operation_id,
  operation_eq-IsSound a.operation b.operation,
  same_time-IsSound a.accepted_at b.accepted_at,
  phase_eq-IsSound a.previous_phase b.previous_phase,
)

identity_fields :
    (a b : Interview)
    → identity_eq a b ≡ true
    → (a.id ≡ b.id)
      × (a.account_id ≡ b.account_id)
      × (a.question_count ≡ b.question_count)
      × (a.blueprint ≡ b.blueprint)
      × (a.created_at ≡ b.created_at)
unfolding identity_eq
identity_fields a b h = ground (
  arith,
  text_eq_sound a.id b.id,
  text_eq_sound a.account_id b.account_id,
  blueprint_eq-IsSound a.blueprint b.blueprint,
  same_time-IsSound a.created_at b.created_at,
)

progress_fields :
    (a b : Interview)
    → progress_eq a b ≡ true
    → (a.version ≡ b.version)
      × (a.status ≡ b.status)
      × (a.phase ≡ b.phase)
      × (a.current_question_position ≡ b.current_question_position)
      × (a.questions ≡ b.questions)
unfolding progress_eq
progress_fields a b h = ground (
  arith,
  status_eq-IsSound a.status b.status,
  option_eq-IsSound phase_eq phase_eq-IsSound a.phase b.phase,
  list_eq-IsSound question_eq question_eq-IsSound a.questions b.questions,
)

activity_fields :
    (a b : Interview)
    → activity_eq a b ≡ true
    → (a.pending_operation ≡ b.pending_operation)
      × (a.pending_report_kind ≡ b.pending_report_kind)
      × (a.report_requested_at ≡ b.report_requested_at)
      × (a.report_id ≡ b.report_id)
      × (a.last_effective_activity_at ≡ b.last_effective_activity_at)
unfolding activity_eq
activity_fields a b h = ground (
  arith,
  option_eq-IsSound pending_eq pending_eq-IsSound a.pending_operation b.pending_operation,
  option_eq-IsSound report_kind_eq report_kind_eq-IsSound a.pending_report_kind
      b.pending_report_kind,
  option_eq-IsSound same_time same_time-IsSound a.report_requested_at b.report_requested_at,
  option_eq-IsSound text_eq text_eq_sound a.report_id b.report_id,
  same_time-IsSound a.last_effective_activity_at b.last_effective_activity_at,
)

and_true : (a b : Bool) → (a && b) ≡ true → (a ≡ true) × (b ≡ true)
and_true a b h = ground arith

-- Two interviews that `deepEqual` takes for equal are equal.
pub interview_eq-IsSound : IsSound interview_eq
unfolding interview_eq
interview_eq-IsSound a b h =
    let (h, third) = and_true (identity_eq a b && progress_eq a b) (activity_eq a b) h in
    let (first, second) = and_true (identity_eq a b) (progress_eq a b) h in
    let (i0, i1, i2, i3, i4) = identity_fields a b first in
    let (p0, p1, p2, p3, p4) = progress_fields a b second in
    let (a0, a1, a2, a3, a4) = activity_fields a b third in
    cc (i0, i1, i2, i3, i4, p0, p1, p2, p3, p4, a0, a1, a2, a3, a4)
