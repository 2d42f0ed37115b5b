-- ===== src/Selection/Eligible.antt =====
-- packages/domain/src/blueprint-selection.ts: every selected question is an eligible one.
use interview_agent.Common.{
  ℕ, zero, suc, ◌+◌, ◌-◌, ◌≡◌, Bool, not, ◌==◌, ltb, Option, none, some, List, [], ◌∷◌, ◌++◌,
  length, has, All, Text, ok, Result-cases, ◌>>=◌, arith, inl, inr, Bool-cases, Entries, get, set,
  subst, bind_ok,
}
use interview_agent.Interview.{
  KnowledgeDomain, knowledge_domains, domain_eq, QuestionSnapshot, InterviewBlueprint,
}
use interview_agent.Selection.{BlueprintSelectionInput}
use interview_agent.Selection.Ranks.{
  insert, sort, rank_candidates, candidate_purpose, flexible_purpose,
}
use interview_agent.Selection.Choice.{
  Groups, group_or_none, push, group_loop, group_candidates, filter, take, pick, is_recent,
  selection_loop, blueprint_domain_minimums,
}
use interview_agent.Selection.Interleave.{
  keys, delete, requeue, interleave_loop, interleave_selected_questions, total, find_other,
  or_first, shift, queue_less,
}
use interview_agent.Selection.Select.{
  push_all, blueprint_items, flexible_questions, selected_ids, select, finished_blueprint,
  arranged_questions,
}

module _ {κ ℓ} {A : Type ℓ} (P : A → Type κ) where
  append-All : (xs ys : List A) → All P xs → All P ys → All P (xs ++ ys)
  append-All [] ys h k = k
  append-All (x ∷ xs) ys (here, h) k = (here, append-All xs ys h k)

  insert-All :
      (less : A → A → Bool) (x : A) (xs : List A) → P x → All P xs → All P (insert less x xs)
  unfolding insert
  insert-All less x [] h k = (h, tt)
  insert-All less x (y ∷ ys) h (here, k) = elim (Bool-cases (less y x)) [
    | inl e ↦ rw e (here, insert-All less x ys h k)
    | inr e ↦ rw e (h, (here, k))
  ]

  pub sort-All : (less : A → A → Bool) (xs : List A) → All P xs → All P (sort less xs)
  unfolding sort
  sort-All less [] h = tt
  sort-All less (x ∷ xs) (here, h) = insert-All less x (sort less xs) here (sort-All less xs h)

  filter-All : (test : A → Bool) (xs : List A) → All P xs → All P (filter test xs)
  unfolding filter
  filter-All test [] h = tt
  filter-All test (x ∷ xs) (here, h) = elim (Bool-cases (test x)) [
    | inl e ↦ rw e (here, filter-All test xs h)
    | inr e ↦ rw e (filter-All test xs h)
  ]

  take-All : (n : ℕ) (xs : List A) → All P xs → All P (take n xs)
  unfolding take
  take-All zero xs h = tt
  take-All (suc n) [] h = tt
  take-All (suc n) (x ∷ xs) (here, h) = (here, take-All n xs h)

module _ {κ} (P : QuestionSnapshot → Type κ) where
  -- Every question of the groups has the property.
  abbrev AllGroups : Groups → Type κ
  AllGroups groups = Entries (λ d qs. All P qs) groups

  get-All :
      (m : Groups) (d : KnowledgeDomain) → AllGroups m → All P (group_or_none (get domain_eq m d))
  unfolding get
  get-All [] d h = tt
  get-All ((k, qs) ∷ m) d (here, h) = elim (Bool-cases (domain_eq k d)) [
    | inl e ↦ rw e here
    | inr e ↦ rw e (get-All m d h)
  ]

  set-All :
      (m : Groups) (d : KnowledgeDomain) (qs : List QuestionSnapshot)
      → AllGroups m
      → All P qs
      → AllGroups (set domain_eq m d qs)
  unfolding set
  set-All [] d qs h k = (k, tt)
  set-All ((e, rs) ∷ m) d qs (here, h) k = elim (Bool-cases (domain_eq e d)) [
    | inl same ↦ rw same (k, h)
    | inr other ↦ rw other (here, set-All m d qs h k)
  ]

  delete-All : (m : Groups) (d : KnowledgeDomain) → AllGroups m → AllGroups (delete m d)
  unfolding delete
  delete-All [] d h = tt
  delete-All ((e, rs) ∷ m) d (here, h) = elim (Bool-cases (domain_eq e d)) [
    | inl same ↦ rw same h
    | inr other ↦ rw other (here, delete-All m d h)
  ]

  push-All : (m : Groups) (q : QuestionSnapshot) → AllGroups m → P q → AllGroups (push m q)
  unfolding push
  push-All m q h k = set-All m q.domain _ h (
      append-All P (group_or_none (get domain_eq m q.domain)) (q ∷ []) (get-All m q.domain h)
        (k, tt))

  group_loop-All :
      (seen : List Text) (m : Groups) (qs : List QuestionSnapshot) {r : Groups}
      → AllGroups m
      → All P qs
      → group_loop seen m qs ≡ ok r
      → AllGroups r
  unfolding group_loop
  group_loop-All seen m [] {r} h k e = subst (λ z. AllGroups z) (ground arith) h
  group_loop-All seen m (q ∷ qs) h (here, k) e =
      group_loop-All (q.question_id ∷ seen) (push m q) qs (push-All m q h here) k (ground arith)

  pick-All :
      (seed purpose : Text) (recent : List Text) (n : ℕ) (qs : List QuestionSnapshot)
      → All P qs
      → All P (pick seed purpose recent n qs)
  unfolding pick rank_candidates
  pick-All seed purpose recent n qs h =
      let first =
        take-All P n _
          (sort-All P _ _ (filter-All P (λ candidate. not (is_recent recent candidate)) qs h)) in
      elim (Bool-cases (
        ltb
          (length (
            take n (
              rank_candidates seed purpose
                (filter (λ candidate. not (is_recent recent candidate)) qs))))
          n)) [
            | inl e ↦ rw e (
                append-All P _ _ first
                  (take-All P _ _ (sort-All P _ _ (filter-All P (is_recent recent) qs h))))
            | inr e ↦ rw e first
          ]

  selection_loop-All :
      (seed : Text) (recent : List Text) (minimums : KnowledgeDomain → ℕ) (groups m : Groups)
      (ds : List KnowledgeDomain)
      → AllGroups groups
      → AllGroups m
      → AllGroups (selection_loop seed recent minimums groups m ds)
  unfolding selection_loop
  selection_loop-All seed recent minimums groups m [] h k = k
  selection_loop-All seed recent minimums groups m (d ∷ ds) h k =
      elim (Bool-cases (minimums d == 0)) [
        | inl e ↦ rw e (selection_loop-All seed recent minimums groups m ds h k)
        | inr e ↦ rw e (
            selection_loop-All seed recent minimums groups
              (set domain_eq m d (
                pick seed candidate_purpose recent (minimums d)
                  (group_or_none (get domain_eq groups d))))
              ds h
              (set-All m d _ k (
                pick-All seed candidate_purpose recent (minimums d)
                  (group_or_none (get domain_eq groups d)) (get-All groups d h))))
      ]

  push_all-All :
      (m : Groups) (qs : List QuestionSnapshot) → AllGroups m → All P qs → AllGroups (push_all m qs)
  unfolding push_all
  push_all-All m [] h k = h
  push_all-All m (q ∷ qs) h (here, k) = push_all-All (push m q) qs (push-All m q h here) k

  shift_group-All :
      (d : KnowledgeDomain) (o : Option (List QuestionSnapshot)) (q : QuestionSnapshot)
      (qs : List QuestionSnapshot)
      → shift d o ≡ ok (q, qs)
      → All P (group_or_none o)
      → P q × All P qs
  shift_group-All d none q qs e all = absurd (ground arith)
  shift_group-All d (some []) q qs e all = absurd (ground arith)
  shift_group-All d (some (x ∷ xs)) q qs e (here, all) =
      let first : x ≡ q = ground arith in
      let rest : xs ≡ qs = ground arith in (subst P first here, subst (All P) rest all)

  requeue-All :
      (m : Groups) (d : KnowledgeDomain) (qs : List QuestionSnapshot)
      → AllGroups m
      → All P qs
      → AllGroups (requeue m d qs)
  requeue-All m d [] h k = delete-All m d h
  requeue-All m d (q ∷ qs) h k = set-All m d (q ∷ qs) h k

  interleave_loop-All :
      (fuel : ℕ) (seed : Text) (m : Groups) (position : ℕ) (previous : Option KnowledgeDomain)
      {ordered : List QuestionSnapshot}
      → AllGroups m
      → interleave_loop fuel seed m position previous ≡ ok ordered
      → All P ordered
  unfolding interleave_loop
  interleave_loop-All fuel seed [] position previous {ordered} h e =
      let same : [] ≡ ordered = ground arith in subst (All P) same tt
  interleave_loop-All zero seed (queue ∷ m) position previous h e = absurd (ground arith)
  interleave_loop-All (suc fuel) seed (queue ∷ m) position previous {ordered} h e =
      let available = sort (queue_less seed (queue ∷ m) position) (keys (queue ∷ m)) in
      elim (Result-cases (or_first (find_other previous available) available)) [
        | inr (x, bad) ↦ absurd (ground arith)
        | inl (d, found) ↦ elim (Result-cases (shift d (get domain_eq (queue ∷ m) d))) [
          | inr (x, bad) ↦ absurd (ground arith)
          | inl (taken, took) ↦
              elim (Result-cases (
                interleave_loop fuel seed (requeue (queue ∷ m) d taken.1) (position + 1)
                  (some d))) [
                    | inr (x, bad) ↦ absurd (ground arith)
                    | inl (later, went) ↦
                        let (first, rest) =
                          shift_group-All d (get domain_eq (queue ∷ m) d) taken.0 taken.1 took
                            (get-All (queue ∷ m) d h) in
                        let same : taken.0 ∷ later ≡ ordered = ground arith in
                        subst (All P) same (
                          first,
                          interleave_loop-All fuel seed (requeue (queue ∷ m) d taken.1)
                              (position + 1) (some d) {ordered = later}
                              (requeue-All (queue ∷ m) d taken.1 h rest) went,
                        )
                  ]
        ]
      ]

  flexible_questions-All :
      (input : BlueprintSelectionInput) (selected : Groups)
      → All P input.eligible_questions
      → All P (flexible_questions input selected)
  unfolding flexible_questions
  flexible_questions-All input selected h =
      pick-All input.selection_seed flexible_purpose input.recent_question_ids
        (input.question_count - total selected) _
        (filter-All P (λ candidate. not (has (selected_ids selected) candidate.question_id))
          input.eligible_questions h)

  blueprint_items-All :
      (position : ℕ) (qs : List QuestionSnapshot)
      → All P qs
      → All (λ item. P item.question) (blueprint_items position qs)
  unfolding blueprint_items
  blueprint_items-All position [] h = tt
  blueprint_items-All position (q ∷ qs) (here, h) = (here, blueprint_items-All (position + 1) qs h)

-- The items of a finished blueprint are the ordered questions.
finished_blueprint_items :
    (input : BlueprintSelectionInput) (ordered : List QuestionSnapshot)
    {blueprint : InterviewBlueprint}
    → finished_blueprint input ordered ≡ ok blueprint
    → blueprint_items 1 ordered ≡ blueprint.questions
unfolding finished_blueprint
finished_blueprint_items input ordered h = ground arith

arranged_questions-All {κ} :
    (P : QuestionSnapshot → Type κ) (input : BlueprintSelectionInput) (groups : Groups)
    (minimums : KnowledgeDomain → ℕ) {ordered : List QuestionSnapshot}
    → All P input.eligible_questions
    → Entries (λ d qs. All P qs) groups
    → arranged_questions input groups minimums ≡ ok ordered
    → All P ordered
unfolding arranged_questions interleave_selected_questions
arranged_questions-All P input groups minimums {ordered} h k e =
    let selected =
      selection_loop input.selection_seed input.recent_question_ids minimums groups []
        knowledge_domains in
    let flexible = flexible_questions input selected in
    let queues = push_all selected flexible in
    let all_selected =
      selection_loop-All P input.selection_seed input.recent_question_ids minimums groups []
        knowledge_domains k tt in
    let all_queues =
      push_all-All P selected flexible all_selected (flexible_questions-All P input selected h) in
    interleave_loop-All P (total queues) input.selection_seed queues 1 none {ordered = ordered}
      all_queues (ground arith)

-- What holds of every eligible question holds of every question of the blueprint that `select` returns, so
-- that it holds eligible questions only, as they are.
pub select-All {κ} :
    (P : QuestionSnapshot → Type κ) (input : BlueprintSelectionInput)
    {blueprint : InterviewBlueprint}
    → All P input.eligible_questions
    → select input ≡ ok blueprint
    → All (λ item. P item.question) blueprint.questions
unfolding select
select-All P input {blueprint} h e =
    let (groups, (grouped, e1)) =
      bind_ok (group_candidates input.eligible_questions)
        (λ groups.
          blueprint_domain_minimums input.question_count input.selection_seed groups
            input.recent_question_ids
          >>= λ minimums. arranged_questions input groups minimums >>= finished_blueprint input)
        e in
    let (minimums, (fixed, e2)) =
      bind_ok
        (blueprint_domain_minimums input.question_count input.selection_seed groups
          input.recent_question_ids)
        (λ minimums. arranged_questions input groups minimums >>= finished_blueprint input) e1 in
    let (ordered, (arranged, finished)) =
      bind_ok (arranged_questions input groups minimums) (finished_blueprint input) e2 in
    let all_groups = group_loop-All P [] [] input.eligible_questions {r = groups} tt h grouped in
    subst (All (λ item. P item.question)) (finished_blueprint_items input ordered finished) (
      blueprint_items-All P 1 ordered
        (arranged_questions-All P input groups minimums h all_groups arranged))
