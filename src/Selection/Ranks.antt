-- ===== src/Selection/Ranks.antt =====
-- packages/domain/src/blueprint-selection.ts: `stableRank` and the orders that it gives.
use interview_agent.Common.{
  ℕ, zero, suc, ◌+◌, ◌-◌, ◌*◌, ◌/◌, ◌%◌, ◌^◌, Bool, true, false, ◌&&◌, ◌||◌, ◌==◌, ltb, leb,
  if◌then◌else◌, List, [], ◌∷◌, ◌++◌, Text, Num, int, pos, negsuc, not_whole,
}
use Prim.Native.Nat.{bit_xor}
use interview_agent.Interview.{
  KnowledgeDomain, go_language, concurrency_runtime_performance, http_rpc_api, database_storage,
  cache_messaging_distributed, testing_observability_engineering, QuestionSnapshot,
}

-- The text of a domain's name.
abbrev pub domain_text : KnowledgeDomain → Text
domain_text go_language = 103 ∷ 111 ∷ 95 ∷ 108 ∷ 97 ∷ 110 ∷ 103 ∷ 117 ∷ 97 ∷ 103 ∷ 101 ∷ []
domain_text concurrency_runtime_performance =
    99 ∷ 111 ∷ 110 ∷ 99 ∷ 117 ∷ 114 ∷ 114 ∷ 101 ∷ 110 ∷ 99 ∷ 121 ∷ 95 ∷ 114 ∷ 117 ∷ 110 ∷ 116 ∷ 105
    ∷ 109 ∷ 101 ∷ 95 ∷ 112 ∷ 101 ∷ 114 ∷ 102 ∷ 111 ∷ 114 ∷ 109 ∷ 97 ∷ 110 ∷ 99 ∷ 101 ∷ []
domain_text http_rpc_api = 104 ∷ 116 ∷ 116 ∷ 112 ∷ 95 ∷ 114 ∷ 112 ∷ 99 ∷ 95 ∷ 97 ∷ 112 ∷ 105 ∷ []
domain_text database_storage =
    100 ∷ 97 ∷ 116 ∷ 97 ∷ 98 ∷ 97 ∷ 115 ∷ 101 ∷ 95 ∷ 115 ∷ 116 ∷ 111 ∷ 114 ∷ 97 ∷ 103 ∷ 101 ∷ []
domain_text cache_messaging_distributed =
    99 ∷ 97 ∷ 99 ∷ 104 ∷ 101 ∷ 95 ∷ 109 ∷ 101 ∷ 115 ∷ 115 ∷ 97 ∷ 103 ∷ 105 ∷ 110 ∷ 103 ∷ 95 ∷ 100
    ∷ 105 ∷ 115 ∷ 116 ∷ 114 ∷ 105 ∷ 98 ∷ 117 ∷ 116 ∷ 101 ∷ 100 ∷ []
domain_text testing_observability_engineering =
    116 ∷ 101 ∷ 115 ∷ 116 ∷ 105 ∷ 110 ∷ 103 ∷ 95 ∷ 111 ∷ 98 ∷ 115 ∷ 101 ∷ 114 ∷ 118 ∷ 97 ∷ 98 ∷ 105
    ∷ 108 ∷ 105 ∷ 116 ∷ 121 ∷ 95 ∷ 101 ∷ 110 ∷ 103 ∷ 105 ∷ 110 ∷ 101 ∷ 101 ∷ 114 ∷ 105 ∷ 110 ∷ 103
    ∷ []

-- "candidate"
abbrev pub candidate_purpose : Text
candidate_purpose = 99 ∷ 97 ∷ 110 ∷ 100 ∷ 105 ∷ 100 ∷ 97 ∷ 116 ∷ 101 ∷ []

-- "flexible-candidate"
abbrev pub flexible_purpose : Text
flexible_purpose =
    102 ∷ 108 ∷ 101 ∷ 120 ∷ 105 ∷ 98 ∷ 108 ∷ 101 ∷ 45 ∷ 99 ∷ 97 ∷ 110 ∷ 100 ∷ 105 ∷ 100 ∷ 97 ∷ 116
    ∷ 101 ∷ []

-- "omitted-domain"
abbrev pub omitted_purpose : Text
omitted_purpose =
    111 ∷ 109 ∷ 105 ∷ 116 ∷ 116 ∷ 101 ∷ 100 ∷ 45 ∷ 100 ∷ 111 ∷ 109 ∷ 97 ∷ 105 ∷ 110 ∷ []

-- "blueprint-order"
abbrev pub order_purpose : Text
order_purpose =
    98 ∷ 108 ∷ 117 ∷ 101 ∷ 112 ∷ 114 ∷ 105 ∷ 110 ∷ 116 ∷ 45 ∷ 111 ∷ 114 ∷ 100 ∷ 101 ∷ 114 ∷ []

-- An element of `parts`.
pub data RankPart : Type 0 where
  text_part : Text → RankPart
  number_part : Num → RankPart

-- The code unit is the first or the second of a surrogate pair.
abbrev is_high : ℕ → Bool
is_high c = leb 55296 c && leb c 56319

abbrev is_low : ℕ → Bool
is_low c = leb 56320 c && leb c 57343

abbrev hex_digit : ℕ → ℕ
hex_digit d = if ltb d 10 then 48 + d else 87 + d

-- A backslash, the letter u and four digits.
abbrev unicode_escape : ℕ → List ℕ
unicode_escape c =
    92
    ∷ 117
    ∷ hex_digit (c / 4096)
    ∷ hex_digit (c / 256 % 16)
    ∷ hex_digit (c / 16 % 16)
    ∷ hex_digit (c % 16)
    ∷ []

-- A code unit that is not in a surrogate pair, as it stands in a JSON string.
unfoldable pub json_unit : ℕ → List ℕ
json_unit c =
    if c == 34 || c == 92
    then 92 ∷ c ∷ []
    else if c == 8
    then 92 ∷ 98 ∷ []
    else if c == 9
    then 92 ∷ 116 ∷ []
    else if c == 10
    then 92 ∷ 110 ∷ []
    else if c == 12
    then 92 ∷ 102 ∷ []
    else if c == 13
    then 92 ∷ 114 ∷ []
    else if ltb c 32 || is_high c || is_low c
    then unicode_escape c
    else c ∷ []

-- The code points of a JSON string between its quotes.
unfoldable pub json_points : Text → List ℕ
unfolding json_unit
json_points [] = []
json_points (c ∷ []) = json_unit c
json_points (c ∷ d ∷ rest) =
    let after_pair = json_points rest in
    let after_unit = json_points (d ∷ rest) in
    if is_high c && is_low d
    then (65536 + (c - 55296) * 1024 + (d - 56320)) ∷ after_pair
    else json_unit c ++ after_unit

-- The decimal digits of a number, on fuel: a number has fewer digits than its successor.
unfoldable pub digits_loop : ℕ → ℕ → List ℕ → List ℕ
digits_loop zero n rest = rest
digits_loop (suc fuel) n rest =
    let more = digits_loop fuel (n / 10) ((48 + n % 10) ∷ rest) in
    if ltb n 10 then (48 + n) ∷ rest else more

-- The text of a number that is not finite: `NaN`, `Infinity` or `-Infinity`.
abbrev is_not_finite : Text → Bool
is_not_finite [] = false
is_not_finite (c ∷ []) = false
is_not_finite (c ∷ d ∷ rest) = c == 78 || c == 73 || (c == 45 && d == 73)

-- A number in JSON: its text, and `null` for one that is not finite.
unfoldable pub json_number : Num → List ℕ
unfolding digits_loop
json_number (int (pos n)) = digits_loop (n + 1) n []
json_number (int (negsuc n)) = 45 ∷ digits_loop (n + 2) (n + 1) []
json_number (not_whole text) = if is_not_finite text then 110 ∷ 117 ∷ 108 ∷ 108 ∷ [] else text

unfoldable pub json_part : RankPart → List ℕ
unfolding json_points json_number
json_part (text_part t) = 34 ∷ json_points t ++ 34 ∷ []
json_part (number_part n) = json_number n

-- The further elements after a comma each, and the bracket.
unfoldable pub json_tail : List RankPart → List ℕ
unfolding json_part
json_tail [] = 93 ∷ []
json_tail (part ∷ rest) = 44 ∷ json_part part ++ json_tail rest

-- The code points of `JSON.stringify(parts)`.
unfoldable pub json_array : List RankPart → List ℕ
unfolding json_tail json_part
json_array [] = 91 ∷ 93 ∷ []
json_array (part ∷ rest) = 91 ∷ json_part part ++ json_tail rest

-- The rounds of the hash, on 64 bits.
unfoldable pub hash_loop : ℕ → List ℕ → ℕ
hash_loop hash [] = hash
hash_loop hash (point ∷ rest) = hash_loop ((bit_xor hash point * 1099511628211) % (2 ^ 64)) rest

unfoldable pub stable_rank : List RankPart → ℕ
unfolding json_array hash_loop
stable_rank parts = hash_loop 14695981039346656037 (json_array parts)

-- `compareText(left, right) < 0`
unfoldable pub text_less : Text → Text → Bool
text_less xs [] = false
text_less [] (y ∷ ys) = true
text_less (x ∷ xs) (y ∷ ys) =
    let later = text_less xs ys in if ltb x y then true else if ltb y x then false else later

-- The stable sort of `Array.prototype.sort`, by the test that the comparison is negative.
unfoldable pub insert {ℓ} : {A : Type ℓ} → (A → A → Bool) → A → List A → List A
insert less x [] = x ∷ []
insert less x (y ∷ ys) = let later = insert less x ys in if less y x then y ∷ later else x ∷ y ∷ ys

unfoldable pub sort {ℓ} : {A : Type ℓ} → (A → A → Bool) → List A → List A
unfolding insert
sort less [] = []
sort less (x ∷ xs) = insert less x (sort less xs)

-- A comparison of two ranks, and another comparison where they agree.
abbrev pub rank_less : ℕ → ℕ → Bool → Bool
rank_less left right otherwise =
    if ltb left right then true else if ltb right left then false else otherwise

-- `left - right < 0` for whole numbers. The value of a number that is not whole is not in the model: a
-- comparison with it counts as not negative.
abbrev num_less : Num → Num → Bool
num_less (int (pos a)) (int (pos b)) = ltb a b
num_less (int (pos a)) (int (negsuc b)) = false
num_less (int (negsuc a)) (int (pos b)) = true
num_less (int (negsuc a)) (int (negsuc b)) = ltb b a
num_less (not_whole a) right = false
num_less (int a) (not_whole b) = false

-- The rank of a candidate.
unfoldable pub candidate_rank : Text → Text → QuestionSnapshot → ℕ
unfolding stable_rank
candidate_rank seed purpose question = stable_rank (
    text_part seed
    ∷ text_part purpose
    ∷ text_part (domain_text question.domain)
    ∷ text_part question.question_id
    ∷ number_part question.question_version
    ∷ [])

-- The comparison of `rankCandidates` and of `rankFlexibleCandidates`, which differ in the purpose.
unfoldable pub candidate_less : Text → Text → QuestionSnapshot → QuestionSnapshot → Bool
unfolding candidate_rank
candidate_less seed purpose left right =
    rank_less (candidate_rank seed purpose left) (candidate_rank seed purpose right) (
      if text_less left.question_id right.question_id
      then true
      else if text_less right.question_id left.question_id
      then false
      else num_less left.question_version right.question_version)

unfoldable pub rank_candidates : Text → Text → List QuestionSnapshot → List QuestionSnapshot
unfolding sort candidate_less
rank_candidates seed purpose candidates = sort (candidate_less seed purpose) candidates

unfoldable pub domain_less : Text → List RankPart → KnowledgeDomain → KnowledgeDomain → Bool
unfolding stable_rank
domain_less seed parts left right =
    rank_less (stable_rank (text_part seed ∷ parts ++ text_part (domain_text left) ∷ []))
      (stable_rank (text_part seed ∷ parts ++ text_part (domain_text right) ∷ []))
      (text_less (domain_text left) (domain_text right))

unfoldable pub rank_domains : Text → List KnowledgeDomain → List KnowledgeDomain
unfolding sort domain_less
rank_domains seed domains = sort (domain_less seed (text_part omitted_purpose ∷ [])) domains
