-- ===== src/Engine/Invariant.antt =====
-- packages/domain/src/engine.ts: what holds of every interview that the engine returns.
use interview_agent.Common.{
  ℕ, suc, ◌≤◌, ◌<◌, ◌≡◌, refl, Bool, true, false, Option, none, some, List, [], ◌∷◌, map, length,
  is_some, All, ◌==◌, Date, is_valid, Text, count_if, arith,
}
use interview_agent.Interview.{
  InterviewStatus, active, report_pending, completed, early_ended, abandoned, deleting,
  InterviewPhase, awaiting_response, processing, awaiting_continue, is_active, ReportKind,
  FollowUpKind, clarification, follow_up_kind_eq, InterviewBlueprintItem, QuestionEvaluation,
  QuestionOutcome, complete,
}
use interview_agent.Engine.{
  Interview, InterviewQuestionState, PendingInterviewOperation, OperationName, SystemFollowUp,
  answer_analysis, question_clarification,
}
use interview_agent.Engine.Guards.{replaced_by}

-- Positions count up from `n`.
abbrev pub Positions : ℕ → List InterviewQuestionState → Type 0
Positions n [] = Unit {0}
Positions n (question ∷ rest) = (question.position ≡ n) × Positions (suc n) rest

abbrev pub ItemPositions : ℕ → List InterviewBlueprintItem → Type 0
ItemPositions n [] = Unit {0}
ItemPositions n (item ∷ rest) = (item.position ≡ n) × ItemPositions (suc n) rest

-- Which operation may be accepted in which phase.
pub data Accepts : OperationName → InterviewPhase → Type 0 where
  analyse_answer : Accepts answer_analysis awaiting_response
  analyse_supplement : Accepts answer_analysis awaiting_continue
  clarify_question : Accepts question_clarification awaiting_response

-- The pending operation is about the current question, and its acceptance was the last activity.
pub record IsPending (current : ℕ) (last : Date) (p : PendingInterviewOperation) : Type 0 where
  pub about_current : p.question_position ≡ current
  pub is_last_activity : last ≡ p.accepted_at
  pub accepted_in : Accepts p.operation p.previous_phase

-- Which optional fields are set in which status.
abbrev pub Fields :
    ℕ
    → Date
    → InterviewStatus
    → Option InterviewPhase
    → Option PendingInterviewOperation
    → Option ReportKind
    → Option Date
    → Option Text
    → Type 0
Fields current last active (some awaiting_response) none none none none = Unit {0}
Fields current last active (some awaiting_continue) none none none none = Unit {0}
Fields current last active (some processing) (some p) none none none = IsPending current last p
Fields current last report_pending none none (some kind) (some requested) none =
    is_valid requested ≡ true
Fields current last completed none none none (some requested) (some id) = Unit {0}
Fields current last early_ended none none none (some requested) (some id) = Unit {0}
Fields current last abandoned none none none none none = Unit {0}
Fields current last deleting _ _ _ _ _ = Unit {0}
Fields current last _ _ _ _ _ _ = ⊥

-- The current question has an outcome in this phase: it waits to be continued, or did when an
-- operation was accepted.
abbrev pub is_answered : Option InterviewPhase → Option PendingInterviewOperation → Bool
is_answered (some awaiting_continue) p = true
is_answered (some processing) (some p) = is_continue p.previous_phase
  where
    is_continue : InterviewPhase → Bool
    is_continue awaiting_continue = true
    is_continue _ = false
is_answered _ _ = false

-- A recorded evaluation goes with its own outcome.
abbrev pub Agree : Option QuestionEvaluation → Option QuestionOutcome → Type 0
Agree none outcome = Unit {0}
Agree (some evaluation) outcome = outcome ≡ some evaluation.outcome

abbrev pub follow_ups_of : FollowUpKind → List SystemFollowUp → ℕ
follow_ups_of kind = count_if (λ follow_up. follow_up_kind_eq follow_up.kind kind)

-- A complete report is asked for, or has been stored.
abbrev pub is_complete : InterviewStatus → Option ReportKind → Bool
is_complete report_pending (some complete) = true
is_complete completed kind = true
is_complete _ _ = false

pub record QuestionOk (i : Interview) (q : InterviewQuestionState) : Type 0 where
  pub earlier_frozen : q.position < i.current_question_position → q.frozen ≡ true
  pub earlier_outcome : q.position < i.current_question_position → is_some q.outcome ≡ true
  pub later_open : i.current_question_position < q.position → q.frozen ≡ false
  pub later_empty : i.current_question_position < q.position → q.outcome ≡ none
  pub current_open :
      is_active i.status ≡ true → q.position ≡ i.current_question_position → q.frozen ≡ false
  pub current_answered :
      is_answered i.phase i.pending_operation ≡ true
      → q.position ≡ i.current_question_position
      → is_some q.outcome ≡ true
  pub complete_frozen : is_complete i.status i.pending_report_kind ≡ true → q.frozen ≡ true
  pub complete_outcome :
      is_complete i.status i.pending_report_kind ≡ true → is_some q.outcome ≡ true
  pub in_range : q.position ≤ i.question_count
  pub agree : Agree q.evaluation q.outcome
  pub one_clarification : follow_ups_of clarification q.system_follow_ups ≤ 1
  pub one_depth : follow_ups_of FollowUpKind.depth q.system_follow_ups ≤ 1

pub record IsWellFormed (i : Interview) : Type 0 where
  pub positions : Positions 1 i.questions
  pub counted : length i.questions ≡ i.question_count
  pub item_positions : ItemPositions 1 i.blueprint.questions
  pub items_counted : length i.blueprint.questions ≡ i.question_count
  pub current_from : 1 ≤ i.current_question_position
  pub current_to : i.current_question_position ≤ i.question_count
  pub active_valid : is_valid i.last_effective_activity_at ≡ true
  pub fields :
      Fields i.current_question_position i.last_effective_activity_at i.status i.phase
        i.pending_operation i.pending_report_kind i.report_requested_at i.report_id
  pub questions_ok : All (QuestionOk i) i.questions

-- Replacing a question keeps the positions.
pub Positions-replace :
    (n : ℕ) (q : InterviewQuestionState) (qs : List InterviewQuestionState)
    → Positions n qs
    → Positions n (map (replaced_by q) qs)
Positions-replace n q [] h = tt
Positions-replace n q (c ∷ qs) h = ground (arith, Positions-replace (suc n) q qs h.1)

-- A property of every question survives a replacement, if the new question has it.
pub All-replace {ℓ κ} :
    {P : InterviewQuestionState → Type ℓ} {P' : InterviewQuestionState → Type κ}
    (q : InterviewQuestionState) (qs : List InterviewQuestionState)
    → All P qs
    → P' q
    → ((c : InterviewQuestionState) → P c → (c.position == q.position) ≡ false → P' c)
    → All P' (map (replaced_by q) qs)
All-replace q [] h new keep = tt
All-replace {P' = P'} q (c ∷ qs) h new keep =
    (here (c.position == q.position) refl, All-replace q qs h.1 new keep)
  where
    here : (b : Bool) → (c.position == q.position) ≡ b → P' (replaced_by q c)
    here true e = rw (e, replaced_by) new
    here false e = rw (e, replaced_by) (keep c h.0 e)

pub All-map {ℓ κ} :
    {P : InterviewQuestionState → Type ℓ} {P' : InterviewQuestionState → Type κ}
    (qs : List InterviewQuestionState)
    → All P qs
    → ((c : InterviewQuestionState) → P c → P' c)
    → All P' qs
All-map [] h keep = tt
All-map (c ∷ qs) h keep = (keep c h.0, All-map qs h.1 keep)
