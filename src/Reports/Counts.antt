-- ===== src/Reports/Counts.antt =====
-- packages/domain/src/reports.ts: what the counts of `semanticIssues` tell.
use interview_agent.Common.{
  ℕ, zero, suc, ◌+◌, ◌≤◌, ◌<◌, ◌≡◌, refl, sym, ◌∙◌, ap, Bool, true, false, ◌||◌, ◌==◌, ltb, is_some,
  Option-cases, Bool-cases, inl, inr, List, [], ◌∷◌, ◌++◌, count_if, any, arith, get, set, get-set,
  IsEquality, Entries, Entries-get, ==→eq, ==→ne, eq→==, text_eq, text_eq_sound, text_eq_refl,
  length,
}
use interview_agent.Reports.{IssuePath, ReportSnapshotValidationCode}
use interview_agent.Reports.Questions.{issue_if}
use interview_agent.Reports.Snapshots.{count_or_zero, tally, repeated, missing_positions}
use interview_agent.Interview.{KnowledgeDomain, domain_eq}

-- A list of issues in two parts is empty when both parts are.
pub none_of {ℓ} : {A : Type ℓ} (xs ys : List A) → xs ++ ys ≡ [] → (xs ≡ []) × (ys ≡ [])
none_of [] ys h = (refl, h)
none_of (x ∷ xs) ys h = absurd (ground arith)

pub issue_if-none :
    (b : Bool) (path : IssuePath) (code : ReportSnapshotValidationCode)
    → issue_if b path code ≡ []
    → b ≡ false
issue_if-none true path code h = absurd (ground arith)
issue_if-none false path code h = refl

domain_eq_sound : (a b : KnowledgeDomain) → domain_eq a b ≡ true → a ≡ b
domain_eq_sound a b h = ground arith

domain_eq_same : (a : KnowledgeDomain) → domain_eq a a ≡ true
domain_eq_same a = ground arith

module _ {ℓ} {K : Type ℓ} (eq : K → K → Bool) (law : IsEquality eq) where
  pub count-tally :
      (m : List (K × ℕ)) (ks : List K) (k : K)
      → count_or_zero (get eq (tally eq m ks) k)
        ≡ count_or_zero (get eq m k) + count_if (λ j. eq j k) ks
  unfolding tally count_if
  count-tally m [] k = ground arith
  count-tally m (j ∷ ks) k =
      let ih = count-tally (set eq m j (count_or_zero (get eq m j) + 1)) ks k in
      let step = get-set eq m j (count_or_zero (get eq m j) + 1) k law in
      elim (Bool-cases (eq j k)) [
        | inl e ↦ let same = law.sound j k e in ground (arith, ih, step, same, ap (get eq m) same)
        | inr e ↦ ground (arith, ih, step)
      ]

  pub is_some-tally :
      (m : List (K × ℕ)) (ks : List K) (k : K)
      → is_some (get eq (tally eq m ks) k) ≡ (is_some (get eq m k) || any (λ j. eq j k) ks)
  unfolding tally any
  is_some-tally m [] k = ground arith
  is_some-tally m (j ∷ ks) k =
      let ih = is_some-tally (set eq m j (count_or_zero (get eq m j) + 1)) ks k in
      let step = get-set eq m j (count_or_zero (get eq m j) + 1) k law in ground (arith, ih, step)

  repeated-Entries :
      (code : ReportSnapshotValidationCode) (m : List (K × ℕ))
      → repeated code m ≡ []
      → Entries (λ k n. n ≤ 1) m
  unfolding repeated
  repeated-Entries code [] h = tt
  repeated-Entries code ((k, n) ∷ m) h =
      let (first, rest) = none_of (issue_if (ltb 1 n) _ code) (repeated code m) h in
      (ground (arith, issue_if-none (ltb 1 n) _ code first), repeated-Entries code m rest)

  -- Without an issue for repeated keys, every key occurs at most once.
  pub repeated-tally :
      (code : ReportSnapshotValidationCode) (ks : List K) (k : K)
      → repeated code (tally eq [] ks) ≡ []
      → count_if (λ j. eq j k) ks ≤ 1
  unfolding get
  repeated-tally code ks k h =
      let total = count-tally [] ks k in
      elim (Option-cases (get eq (tally eq [] ks) k)) [
        | inl e ↦ ground (arith, total, e)
        | inr (n, e) ↦
            let most =
              Entries-get eq (λ k n. n ≤ 1) (tally eq [] ks) k law
                (repeated-Entries code (tally eq [] ks) h) e in
            ground (arith, total, e, most)
      ]

pub number-IsEquality : IsEquality ◌==◌
number-IsEquality = record { sound = ==→eq; same = λ a. eq→== a a refl }

pub text-IsEquality : IsEquality text_eq
text-IsEquality = record { sound = text_eq_sound; same = text_eq_refl }

pub domain-IsEquality : IsEquality domain_eq
domain-IsEquality = record { sound = domain_eq_sound; same = domain_eq_same }

count_if-any {ℓ} : {A : Type ℓ} (p : A → Bool) (xs : List A) → any p xs ≡ true → 1 ≤ count_if p xs
unfolding any count_if
count_if-any p [] h = absurd (ground arith)
count_if-any p (x ∷ xs) h = ground (arith, count_if-any p xs)

missing_found :
    (m : List (ℕ × ℕ)) (count first n : ℕ)
    → missing_positions m count first ≡ []
    → first ≤ n
    → n < first + count
    → is_some (get ◌==◌ m n) ≡ true
unfolding missing_positions
missing_found m zero first n h low high = absurd (omega (arith, low, high))
missing_found m (suc count) first n h low high = elim (Bool-cases (first == n)) [
  | inl e ↦ ground (arith, ap (get ◌==◌ m) (==→eq first n e))
  | inr e ↦
      missing_found m count (first + 1) n (ground arith) (ground (arith, ==→ne first n e))
        (ground arith)
]

no_entries {ℓ} : {A : Type ℓ} (xs : List A) → ltb 0 (length xs) ≡ false → xs ≡ []
no_entries [] h = refl
no_entries (x ∷ xs) h = absurd (ground arith)

-- Without missing positions, every position from 1 on occurs.
pub missing_positions-tally :
    (ks : List ℕ) (count n : ℕ)
    → ltb 0 (length (missing_positions (tally ◌==◌ [] ks) count 1)) ≡ false
    → 1 ≤ n
    → n ≤ count
    → 1 ≤ count_if (λ j. j == n) ks
unfolding get
missing_positions-tally ks count n h low high =
    let found =
      missing_found (tally ◌==◌ [] ks) count 1 n (no_entries _ h) low (omega (arith, high)) in
    count_if-any (λ j. j == n) ks (sym (is_some-tally ◌==◌ number-IsEquality [] ks n) ∙ found)
