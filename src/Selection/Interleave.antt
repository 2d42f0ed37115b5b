-- ===== src/Selection/Interleave.antt =====
-- packages/domain/src/blueprint-selection.ts: `interleaveSelectedQuestions`.
use interview_agent.Common.{
  whole, ℕ, zero, suc, ◌+◌, Bool, true, false, not, ltb, if◌then◌else◌, Option, none, some, List,
  [], ◌∷◌, length, Text, Result, ok, err, ◌>>=◌, get, set,
}
use interview_agent.Interview.{KnowledgeDomain, domain_eq, QuestionSnapshot}
use interview_agent.Selection.{
  SelectionError, invalid_selection_input, empty_queues, queues_not_emptied, missing_queue,
  empty_queue,
}
use interview_agent.Selection.Ranks.{sort, domain_less, text_part, number_part, order_purpose}
use interview_agent.Selection.Choice.{Groups, group_or_none}

-- `[...queues.keys()]`
unfoldable pub keys : Groups → List KnowledgeDomain
keys [] = []
keys ((domain, questions) ∷ rest) = domain ∷ keys rest

-- The comparison of `availableDomains`: more questions first, then the rank at this position.
unfoldable pub queue_less : Text → Groups → ℕ → KnowledgeDomain → KnowledgeDomain → Bool
unfolding domain_less
queue_less seed queues position left right =
    let left_count = length (group_or_none (get domain_eq queues left)) in
    let right_count = length (group_or_none (get domain_eq queues right)) in
    let ranked =
      domain_less seed (text_part order_purpose ∷ number_part (whole position) ∷ []) left right in
    if ltb right_count left_count
    then true
    else if ltb left_count right_count
    then false
    else ranked

-- `candidate !== previousDomain`
abbrev pub is_other_domain : Option KnowledgeDomain → KnowledgeDomain → Bool
is_other_domain none domain = true
is_other_domain (some previous) domain = not (domain_eq domain previous)

-- `availableDomains.find(…) ?? availableDomains[0]`
unfoldable pub find_other : Option KnowledgeDomain → List KnowledgeDomain → Option KnowledgeDomain
find_other previous [] = none
find_other previous (domain ∷ rest) =
    let later = find_other previous rest in
    if is_other_domain previous domain then some domain else later

abbrev pub or_first :
    Option KnowledgeDomain → List KnowledgeDomain → Result SelectionError KnowledgeDomain
or_first (some domain) domains = ok domain
or_first none [] = err (invalid_selection_input empty_queues)
or_first none (domain ∷ rest) = ok domain

-- `queue.shift()`
abbrev pub shift :
    KnowledgeDomain
    → Option (List QuestionSnapshot)
    → Result SelectionError (QuestionSnapshot × List QuestionSnapshot)
shift domain none = err (invalid_selection_input (missing_queue domain))
shift domain (some []) = err (invalid_selection_input (empty_queue domain))
shift domain (some (question ∷ rest)) = ok (question, rest)

-- `queues.delete(domain)`
unfoldable pub delete : Groups → KnowledgeDomain → Groups
delete [] domain = []
delete ((d, questions) ∷ rest) domain =
    let later = delete rest domain in if domain_eq d domain then rest else (d, questions) ∷ later

abbrev pub requeue : Groups → KnowledgeDomain → List QuestionSnapshot → Groups
requeue queues domain [] = delete queues domain
requeue queues domain (question ∷ rest) = set domain_eq queues domain (question ∷ rest)

-- The loop, on fuel, with the next position and the previous domain.
unfoldable pub interleave_loop :
    ℕ → Text → Groups → ℕ → Option KnowledgeDomain → Result SelectionError (List QuestionSnapshot)
unfolding sort keys queue_less find_other delete
interleave_loop fuel seed [] position previous = ok []
interleave_loop zero seed (queue ∷ queues) position previous =
    err (invalid_selection_input queues_not_emptied)
interleave_loop (suc fuel) seed (queue ∷ queues) position previous = do
  let available = sort (queue_less seed (queue ∷ queues) position) (keys (queue ∷ queues))
  domain ← or_first (find_other previous available) available
  taken ← shift domain (get domain_eq (queue ∷ queues) domain)
  later ←
      interleave_loop fuel seed (requeue (queue ∷ queues) domain taken.1) (position + 1)
        (some domain)
  ok (taken.0 ∷ later)

-- The number of questions in the queues.
unfoldable pub total : Groups → ℕ
total [] = 0
total ((domain, questions) ∷ rest) = length questions + total rest

-- Every round takes one question, so their number is the fuel.
unfoldable pub interleave_selected_questions :
    Text → Groups → Result SelectionError (List QuestionSnapshot)
unfolding interleave_loop total
interleave_selected_questions seed selected = interleave_loop (total selected) seed selected 1 none
