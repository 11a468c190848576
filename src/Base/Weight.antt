-- ===== src/Base/Weight.antt =====
-- Sums over the values of a dictionary, and how the operations change them.
use Prim.Native.Nat.{ℕ, ◌+◌, ◌<◌}
use mathlib.Core.Path.{◌≡◌, refl}
use mathlib.Core.Bool.{Bool, true, false}
use mathlib.Core.Option.{Option, none, some}
use mathlib.Core.List.{List, [], ◌∷◌}
use native.Mathlib.Omega.{arith}
use openzeppelin_foundry_upg.Base.Tests.{Eq, ◌==◌}
use openzeppelin_foundry_upg.Base.Dict.{Dict, lookup, insert, erase}

-- 1 for a test that holds.
abbrev pub indicator : Bool → ℕ
indicator true = 1
indicator false = 0

abbrev pub weight_opt {κ} : {V : Type κ} → (V → ℕ) → Option V → ℕ
weight_opt f none = 0
weight_opt f (some v) = f v

abbrev pub sum_of {κ} : {V : Type κ} → (V → ℕ) → List V → ℕ
sum_of f [] = 0
sum_of f (v ∷ l) = f v + sum_of f l

module _ {ℓ κ} {K : Type ℓ} {V : Type κ} where
  unfoldable pub weight : (V → ℕ) → Dict K V → ℕ
  weight f [] = 0
  weight f ((k, v) ∷ d) = f v + weight f d

module _ {ℓ κ} {K : Type ℓ} {V : Type κ} ⦃e : Eq K⦄ where
  pub weight-insert :
      (f : V → ℕ) (k : K) (v : V) (d : Dict K V)
      → weight f (insert k v d) + weight_opt f (lookup k d) ≡ weight f d + f v
  unfolding weight insert lookup
  weight-insert f k v [] = omega arith
  weight-insert f k v ((j, w) ∷ d) = ground (arith, weight-insert f k v d)

  pub weight-erase :
      (f : V → ℕ) (k : K) (d : Dict K V)
      → weight f (erase k d) + weight_opt f (lookup k d) ≡ weight f d
  unfolding weight erase lookup
  weight-erase f k [] = omega arith
  weight-erase f k ((j, w) ∷ d) = ground (arith, weight-erase f k d)

module _ {ℓ κ} {K : Type ℓ} {V : Type κ} ⦃e : Eq K⦄ where
  -- How often a key stands in a dictionary.
  unfoldable pub count_key : K → Dict K V → ℕ
  count_key k [] = 0
  count_key k ((j, v) ∷ d) = indicator (j == k) + count_key k d

  pub count_key-lookup-none : (k : K) (d : Dict K V) → lookup k d ≡ none → count_key k d ≡ 0
  unfolding count_key lookup
  count_key-lookup-none k [] h = refl
  count_key-lookup-none k ((j, v) ∷ d) h = ground (arith, count_key-lookup-none k d)

  pub count_key-insert :
      (j k : K) (v : V) (d : Dict K V)
      → lookup k d ≡ none
      → count_key j (insert k v d) ≡ count_key j d + indicator (k == j)
  unfolding count_key lookup insert
  count_key-insert j k v [] h = omega arith
  count_key-insert j k v ((i, w) ∷ d) h = ground (arith, count_key-insert j k v d)

  -- Erasing a key that stands in the dictionary takes it away once.
  pub count_key-erase :
      (j k : K) (d : Dict K V)
      → 0 < count_key k d
      → count_key j (erase k d) + indicator (k == j) ≡ count_key j d
  unfolding count_key erase
  count_key-erase j k [] h = absurd (omega arith)
  count_key-erase j k ((i, w) ∷ d) h =
      ground (arith, e.beq_iff i k, e.beq_iff i j, e.beq_iff k j, count_key-erase j k d)
