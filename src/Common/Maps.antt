-- ===== src/Common/Maps.antt =====
-- A `Map` of the code: its entries in the order in which their keys were first set.
use mathlib.Core.Path.{◌≡◌, refl, subst}
use mathlib.Core.Logic.{inl, inr}
use mathlib.Core.Bool.{Bool, true}
use mathlib.Core.Option.{Option, none, some}
use mathlib.Core.List.{List, [], ◌∷◌}
use native.Mathlib.Omega.{arith}
use interview_agent.Common.Tests.{if◌then◌else◌, Bool-cases}

-- A Boolean test of equality that answers as equality does.
pub record IsEquality {ℓ} {K : Type ℓ} (eq : K → K → Bool) : Type ℓ where
  pub sound : (a b : K) → eq a b ≡ true → a ≡ b
  pub same : (a : K) → eq a a ≡ true

-- What holds of every entry.
abbrev pub Entries {ℓ κ μ} : {K : Type ℓ} {V : Type κ} → (K → V → Type μ) → List (K × V) → Type μ
Entries P [] = Unit
Entries P ((k, v) ∷ rest) = P k v × Entries P rest

module _ {ℓ κ} {K : Type ℓ} {V : Type κ} (eq : K → K → Bool) where
  unfoldable pub get : List (K × V) → K → Option V
  get [] key = none
  get ((k, v) ∷ rest) key = let later = get rest key in if eq k key then some v else later

  unfoldable pub set : List (K × V) → K → V → List (K × V)
  set [] key value = (key, value) ∷ []
  set ((k, v) ∷ rest) key value =
      let later = set rest key value in if eq k key then (k, value) ∷ rest else (k, v) ∷ later

  pub get-set :
      (m : List (K × V)) (key : K) (value : V) (other : K)
      → IsEquality eq
      → get (set m key value) other ≡ (if eq key other then some value else get m other)
  unfolding get set
  get-set [] key value other law = refl
  get-set ((k, v) ∷ rest) key value other law = ground (
    arith,
    get-set rest key value other law,
    law.sound k key,
    law.sound k other,
    law.sound key other,
    law.same k,
    law.same key,
  )

  pub Entries-get {μ} :
      (P : K → V → Type μ) (m : List (K × V)) (key : K) {value : V}
      → IsEquality eq
      → Entries P m
      → get m key ≡ some value
      → P key value
  unfolding get
  Entries-get P [] key law all h = absurd (ground arith)
  Entries-get P ((k, v) ∷ rest) key {value} law (here, all) h = elim (Bool-cases (eq k key)) [
    | inl e ↦ subst (λ z. P z value) (law.sound k key e) (subst (P k) (ground arith) here)
    | inr e ↦ Entries-get P rest key law all (ground arith)
  ]
