-- ===== src/Selection/Rounds.antt =====
-- packages/domain/src/blueprint-selection.ts: the interleaving ends and throws nothing.
use interview_agent.Common.{
  ℕ, zero, suc, ◌+◌, ◌≤◌, ◌≡◌, refl, Bool, true, is_some, Option, none, some, List, [], ◌∷◌, length,
  All, Text, ok, arith, inl, inr, Bool-cases, Option-cases, Entries, Entries-get, get, set, subst,
  ap, ◌∙◌, ◌⊎◌,
}
use interview_agent.Interview.{KnowledgeDomain, domain_eq, QuestionSnapshot}
use interview_agent.Reports.Counts.{domain-IsEquality}
use interview_agent.Selection.Ranks.{insert, sort}
use interview_agent.Selection.Choice.{Groups}
use interview_agent.Selection.Interleave.{
  keys, queue_less, find_other, is_other_domain, or_first, delete, requeue, interleave_loop,
  interleave_selected_questions, total,
}
use interview_agent.Selection.Eligible.{sort-All}

-- No queue is empty.
abbrev pub HasQuestions : Groups → Type 0
HasQuestions groups = Entries (λ d qs. 1 ≤ length qs) groups

-- The domain has a queue.
abbrev HasQueue : Groups → KnowledgeDomain → Type 0
HasQueue m d = is_some (get domain_eq m d) ≡ true

HasQueue-later :
    (d : KnowledgeDomain) (qs : List QuestionSnapshot) (m : Groups) (ds : List KnowledgeDomain)
    → All (HasQueue m) ds
    → All (HasQueue ((d, qs) ∷ m)) ds
unfolding get
HasQueue-later d qs m [] h = tt
HasQueue-later d qs m (e ∷ ds) (here, h) = (ground arith, HasQueue-later d qs m ds h)

keys-HasQueue : (m : Groups) → All (HasQueue m) (keys m)
unfolding keys get
keys-HasQueue [] = tt
keys-HasQueue ((d, qs) ∷ m) =
    (ground (arith, domain-IsEquality.same d), HasQueue-later d qs m (keys m) (keys-HasQueue m))

find_other-HasQueue :
    (m : Groups) (previous : Option KnowledgeDomain) (ds : List KnowledgeDomain)
    (d : KnowledgeDomain)
    → All (HasQueue m) ds
    → find_other previous ds ≡ some d
    → HasQueue m d
unfolding find_other
find_other-HasQueue m previous [] d h e = absurd (ground arith)
find_other-HasQueue m previous (x ∷ ds) d (here, h) e =
    elim (Bool-cases (is_other_domain previous x)) [
      | inl other ↦ subst (HasQueue m) (ground arith) here
      | inr same ↦ find_other-HasQueue m previous ds d h (ground arith)
    ]

-- A domain with a queue is found among the sorted keys.
or_first-HasQueue :
    (m : Groups) (previous : Option KnowledgeDomain) (ds : List KnowledgeDomain)
    → 1 ≤ length ds
    → All (HasQueue m) ds
    → (d : KnowledgeDomain) × ((or_first (find_other previous ds) ds ≡ ok d) × HasQueue m d)
or_first-HasQueue m previous [] some_key h = absurd (omega (arith, some_key))
or_first-HasQueue m previous (x ∷ ds) some_key (here, h) =
    elim (Option-cases (find_other previous (x ∷ ds))) [
      | inl e ↦ (x, (rw e refl, here))
      | inr (d, e) ↦ (d, (rw e refl, find_other-HasQueue m previous (x ∷ ds) d (here, h) e))
    ]

insert-length :
    {A : Type 0} (less : A → A → Bool) (x : A) (xs : List A)
    → length (insert less x xs) ≡ length xs + 1
unfolding insert
insert-length less x [] = omega arith
insert-length less x (y ∷ ys) = ground (arith, insert-length less x ys)

sort-length : {A : Type 0} (less : A → A → Bool) (xs : List A) → length (sort less xs) ≡ length xs
unfolding sort
sort-length less [] = refl
sort-length less (x ∷ xs) = ground (arith, insert-length less x (sort less xs), sort-length less xs)

-- Taking a question from a queue leaves one question less, and no empty queue.
set-total :
    (m : Groups) (d : KnowledgeDomain) (q r : QuestionSnapshot) (qs : List QuestionSnapshot)
    → HasQuestions m
    → get domain_eq m d ≡ some (q ∷ r ∷ qs)
    → (total (set domain_eq m d (r ∷ qs)) + 1 ≡ total m) × HasQuestions (set domain_eq m d (r ∷ qs))
unfolding get set total
set-total [] d q r qs h e = absurd (ground arith)
set-total ((k, rs) ∷ m) d q r qs (here, h) e = elim (Bool-cases (domain_eq k d)) [
  | inl same ↦ rw same (ground arith, (omega arith, h))
  | inr other ↦
      let (fewer, rest) = set-total m d q r qs h (ground arith) in
      rw other (omega (arith, fewer), (here, rest))
]

delete-total :
    (m : Groups) (d : KnowledgeDomain) (q : QuestionSnapshot)
    → HasQuestions m
    → get domain_eq m d ≡ some (q ∷ [])
    → (total (delete m d) + 1 ≡ total m) × HasQuestions (delete m d)
unfolding get delete total
delete-total [] d q h e = absurd (ground arith)
delete-total ((k, rs) ∷ m) d q (here, h) e = elim (Bool-cases (domain_eq k d)) [
  | inl same ↦ rw same (ground arith, h)
  | inr other ↦
      let (fewer, rest) = delete-total m d q h (ground arith) in
      rw other (omega (arith, fewer), (here, rest))
]

requeue-total :
    (m : Groups) (d : KnowledgeDomain) (q : QuestionSnapshot) (qs : List QuestionSnapshot)
    → HasQuestions m
    → get domain_eq m d ≡ some (q ∷ qs)
    → (total (requeue m d qs) + 1 ≡ total m) × HasQuestions (requeue m d qs)
requeue-total m d q [] h e = delete-total m d q h e
requeue-total m d q (r ∷ qs) h e = set-total m d q r qs h e

group-cases :
    (qs : List QuestionSnapshot)
    → (qs ≡ []) ⊎ ((q : QuestionSnapshot) × ((rest : List QuestionSnapshot) × (qs ≡ q ∷ rest)))
group-cases [] = inl refl
group-cases (q ∷ rest) = inr (q, (rest, refl))

interleave_loop-returns :
    (fuel : ℕ) (seed : Text) (m : Groups) (position : ℕ) (previous : Option KnowledgeDomain)
    → total m ≤ fuel
    → HasQuestions m
    → (qs : List QuestionSnapshot) × ((interleave_loop fuel seed m position previous ≡ ok qs)
        × (length qs ≡ total m))
unfolding interleave_loop total keys
interleave_loop-returns fuel seed [] position previous enough h = ([], (refl, refl))
interleave_loop-returns zero seed ((k, rs) ∷ m) position previous enough (here, h) =
    absurd (omega (arith, enough, here))
interleave_loop-returns (suc fuel) seed ((k, rs) ∷ m) position previous enough h =
    let queues = (k, rs) ∷ m in
    let less = queue_less seed queues position in
    let available = sort less (keys queues) in
    let (d, (found, queue)) =
      or_first-HasQueue queues previous available (omega (arith, sort-length less (keys queues)))
        (sort-All (HasQueue queues) less (keys queues) (keys-HasQueue queues)) in
    elim (Option-cases (get domain_eq queues d)) [
      | inl e ↦ absurd (ground (arith, queue, e))
      | inr (taken, e) ↦ elim (group-cases taken) [
        | inl none_left ↦ absurd (
            omega (
              arith,
              Entries-get domain_eq (λ d qs. 1 ≤ length qs) queues d domain-IsEquality h e,
              ap length none_left,
            ))
        | inr (q, (qs, one)) ↦
            let has_one = e ∙ ap some one in
            let (fewer, kept) = requeue-total queues d q qs h has_one in
            let (later, (went, counted)) =
              interleave_loop-returns fuel seed (requeue queues d qs) (position + 1) (some d)
                (omega (arith, fewer, enough)) kept in
            (q ∷ later, (ground (arith, found, has_one, went), omega (arith, counted, fewer)))
      ]
    ]

-- As long as no queue is empty, the loop of `interleaveSelectedQuestions` ends, with one round for each
-- question and none of its errors, and it returns as many questions as the queues had.
pub interleave-returns :
    (seed : Text) (queues : Groups)
    → HasQuestions queues
    → (ordered : List QuestionSnapshot) × ((interleave_selected_questions seed queues ≡ ok ordered)
        × (length ordered ≡ total queues))
unfolding interleave_selected_questions
interleave-returns seed queues h =
    interleave_loop-returns (total queues) seed queues 1 none (omega arith) h
