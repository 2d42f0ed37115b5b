-- ===== src/Engine/Theorems/Frozen.antt =====
-- packages/domain/src/engine.ts: what a call leaves as it was.
use interview_agent.Common.{
  ℕ, zero, suc, ◌≡◌, some, List, [], ◌∷◌, map, get_elem?, ok, arith, true, false, ◌==◌,
}
use interview_agent.Interview.{is_active}
use interview_agent.Engine.{Interview, InterviewQuestionState}
use interview_agent.Engine.Guards.{
  replaced_by, replace_current_question, advance_version, get_current_question_state,
}
use interview_agent.Engine.Plans.{accept_operation, accept_retried_operation}
use interview_agent.Engine.Immediate.{finish_questions, next_question, abandoned_state}
use interview_agent.Engine.Invariant.{IsWellFormed, QuestionOk}
use interview_agent.Engine.Preserve.{All-get_elem?, current_found}
use interview_agent.Engine.Step.{
  Step, accept, accept_again, refresh, cancel, revise, mark, move_on, finish, end_early, abandon,
  expire_accepted, report, retry_report,
}
use interview_agent.Engine.Theorems.WellFormed.{Call, Call-Step, Reachable, Reachable-IsWellFormed}
use interview_agent.Engine.Preserve.Steps.{revised_position}

-- Replacing a question at another position leaves an entry alone.
get_elem?-replace :
    (q c : InterviewQuestionState) (qs : List InterviewQuestionState) (k : ℕ)
    → get_elem? qs k ≡ some c
    → (c.position == q.position) ≡ false
    → get_elem? (map (replaced_by q) qs) k ≡ some c
get_elem?-replace q c [] k h ne = cc
get_elem?-replace q c (x ∷ qs) zero h ne = ground arith
get_elem?-replace q c (x ∷ qs) (suc k) h ne = get_elem?-replace q c qs k h ne

-- In an active interview a frozen question does not stand at the current position.
frozen_elsewhere :
    (i : Interview) (k : ℕ) (c q : InterviewQuestionState)
    → IsWellFormed i
    → is_active i.status ≡ true
    → get_elem? i.questions k ≡ some c
    → c.frozen ≡ true
    → get_current_question_state i ≡ ok q
    → (c.position == q.position) ≡ false
frozen_elsewhere i k c q w act h fr found =
    let ok_c = All-get_elem? (QuestionOk i) i.questions k c w.questions_ok h in
    let pos = (current_found i q found).1 in ground arith

Step-frozen :
    {i j : Interview} (k : ℕ) (c : InterviewQuestionState)
    → Step i j
    → IsWellFormed i
    → get_elem? i.questions k ≡ some c
    → c.frozen ≡ true
    → get_elem? j.questions k ≡ some c
unfolding accept_operation accept_retried_operation advance_version replace_current_question
    finish_questions next_question abandoned_state
Step-frozen k c (accept op name d prev act ph acc vd e) w h fr = rw e h
Step-frozen k c (accept_again op name d prev act ph acc vd e) w h fr = rw e h
Step-frozen k c (refresh d p act ph pend vd e) w h fr = rw e h
Step-frozen k c (cancel p act ph pend e) w h fr = rw e h
Step-frozen {i} k c (revise q q' next act ph found r e) w h fr = rw e (
    get_elem?-replace q' c i.questions k h
      (rw (revised_position r) (frozen_elsewhere i k c q w (rw act) h fr found)))
Step-frozen {i} k c (mark q reason d act ph found vd e) w h fr =
    rw e (get_elem?-replace _ c i.questions k h (frozen_elsewhere i k c q w (rw act) h fr found))
Step-frozen {i} k c (move_on q d act ph found out more vd e) w h fr =
    rw e (get_elem?-replace _ c i.questions k h (frozen_elsewhere i k c q w (rw act) h fr found))
Step-frozen {i} k c (finish q d act ph found out last vd e) w h fr =
    rw e (get_elem?-replace _ c i.questions k h (frozen_elsewhere i k c q w (rw act) h fr found))
Step-frozen k c (end_early d act out vd e) w h fr = rw e h
Step-frozen k c (abandon act e) w h fr = rw e h
Step-frozen k c (expire_accepted act e) w h fr = rw e h
Step-frozen k c (report id kind st p e) w h fr = rw e h
Step-frozen k c (retry_report d st vd e) w h fr = rw e h

-- A question that is frozen in a reachable interview is, after any call, in the same place and the
-- same in every field.
pub frozen_stays :
    {i j : Interview} (k : ℕ) (c : InterviewQuestionState)
    → Reachable i
    → Call i j
    → get_elem? i.questions k ≡ some c
    → c.frozen ≡ true
    → get_elem? j.questions k ≡ some c
frozen_stays k c r call h fr = Step-frozen k c (Call-Step call) (Reachable-IsWellFormed r) h fr
