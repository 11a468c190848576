-- ===== src/Base/Loops.antt =====
-- Loops whose body can throw: `for … of` over the entries of an object, and `map` over a list.
use mathlib.Core.Path.{◌≡◌, refl}
use mathlib.Core.Logic.{inl, inr}
use mathlib.Core.Option.{some}
use mathlib.Core.List.{List, [], ◌∷◌}
use native.Mathlib.Omega.{arith}
use openzeppelin_foundry_upg.Base.Tests.{Bool-cases, Eq, ◌==◌}
use openzeppelin_foundry_upg.Base.Result.{Result, ok, err, ◌>>=◌, ◌>>◌}
use openzeppelin_foundry_upg.Base.Dict.{Dict, lookup, insert}

-- `for (const [k, v] of Object.entries(d)) body(k, v)`
unfoldable pub each {ℓ κ} :
    {K : Type ℓ} {V : Type κ} → (K → V → Result (Unit {0})) → Dict K V → Result (Unit {0})
each body [] = ok tt
each body ((k, v) ∷ d) = do body k v; each body d

-- `list.map(f)`
unfoldable pub map_all {ℓ κ} : {A : Type ℓ} {B : Type κ} → (A → Result B) → List A → Result (List B)
map_all f [] = ok []
map_all f (x ∷ xs) = do y ← f x; ys ← map_all f xs; ok (y ∷ ys)

-- Two results in a row.
pub >>-split {ℓ} :
    {A : Type ℓ} (m : Result (Unit {0})) (k : Result A) (r : A)
    → (m >> k) ≡ ok r
    → (m ≡ ok tt) × (k ≡ ok r)
>>-split (ok tt) k r h = (refl, h)
>>-split (err e) k r h = cc

module _ {V : Type 0} {K : Type 0} ⦃e : Eq K⦄ (body : K → V → Result (Unit {0})) where
  pub each-lookup :
      (k : K) (v : V) (d : Dict K V) → each body d ≡ ok tt → lookup k d ≡ some v → body k v ≡ ok tt
  unfolding each lookup
  each-lookup k v [] h found = cc
  each-lookup k v ((j, w) ∷ d) h found =
      let (now, later) = >>-split (body j w) (each body d) tt h in
      elim (Bool-cases (j == k)) [
        | inl hit ↦ ground (arith, now, e.beq_iff j k)
        | inr miss ↦ each-lookup k v d later (ground arith)
      ]

  pub each-insert :
      (k : K) (v : V) (d : Dict K V)
      → each body d ≡ ok tt
      → body k v ≡ ok tt
      → each body (insert k v d) ≡ ok tt
  unfolding each insert
  each-insert k v [] h good = ground arith
  each-insert k v ((j, w) ∷ d) h good =
      let (now, later) = >>-split (body j w) (each body d) tt h in
      elim (Bool-cases (j == k)) [
        | inl hit ↦ ground (arith, later, e.beq_iff j k, good)
        | inr miss ↦ ground (arith, now, each-insert k v d later good)
      ]
