-- ===== src/Scoring/Average.antt =====
-- packages/domain/src/scoring.ts: the rounded average and the aggregation of scores.
use interview_agent.Common.{ℕ, ◌+◌, ◌*◌, ◌≤◌, ◌<◌, ◌≢◌, refl, List, [], ◌∷◌, length, All, arith}
use interview_agent.Scoring.{sum, rounded_average}
use native.Mathlib.Nat.{div-add-mod, mod-lt}

rounded_average_near :
    (scores : List ℕ)
    → scores ≢ []
    → (2 * length scores * rounded_average scores ≤ 2 * sum scores + length scores)
      × (2 * sum scores + length scores
          < 2 * length scores * rounded_average scores + 2 * length scores)
unfolding rounded_average
rounded_average_near [] h = absurd (h refl)
rounded_average_near (x ∷ xs) h =
    let scores = x ∷ xs in
    omega (
      arith,
      div-add-mod (2 * sum scores + length scores) (2 * length scores),
      mod-lt (2 * sum scores + length scores) {m = 2 * length scores} (omega arith),
    )

-- The sum lies between length times the bounds.
sum_bounds :
    (lo hi : ℕ) (scores : List ℕ)
    → All (λ s. (lo ≤ s) × (s ≤ hi)) scores
    → (length scores * lo ≤ sum scores) × (sum scores ≤ length scores * hi)
unfolding sum
sum_bounds lo hi [] h = (omega arith, omega arith)
sum_bounds lo hi (s ∷ rest) h = omega (arith, sum_bounds lo hi rest h.1)

between_low : (n lo q t : ℕ) → 2 * t + n < 2 * n * q + 2 * n → n * lo ≤ t → lo ≤ q
between_low n lo q t h from = grind arith

between_high : (n hi q t : ℕ) → 0 < n → 2 * n * q ≤ 2 * t + n → t ≤ n * hi → q ≤ hi
between_high n hi q t pos h to = grind arith

-- The average of scores between two bounds lies between them.
pub rounded_average_bounds :
    (lo hi : ℕ) (scores : List ℕ)
    → scores ≢ []
    → All (λ s. (lo ≤ s) × (s ≤ hi)) scores
    → (lo ≤ rounded_average scores) × (rounded_average scores ≤ hi)
rounded_average_bounds lo hi [] ne h = absurd (ne refl)
rounded_average_bounds lo hi (x ∷ xs) ne h =
    let scores = x ∷ xs in
    let (low, high) = rounded_average_near scores ne in
    let (from, to) = sum_bounds lo hi scores h in
    (
      between_low (length scores) lo (rounded_average scores) (sum scores) high from,
      between_high (length scores) hi (rounded_average scores) (sum scores) (omega arith) low to,
    )
