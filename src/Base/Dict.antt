-- ===== src/Base/Dict.antt =====
-- JavaScript objects used as maps, and `Map`: the entries in insertion order, a key once.
use mathlib.Core.Path.{◌≡◌, refl, sym, subst, subst₂}
use mathlib.Core.Logic.{◌⊎◌, inl, inr}
use mathlib.Core.Bool.{Bool, true, false}
use mathlib.Core.Option.{Option, none, some}
use mathlib.Core.List.{List, [], ◌∷◌}
use native.Mathlib.Omega.{arith}
use openzeppelin_foundry_upg.Base.Tests.{if◌then◌else◌, if-ind, Bool-cases, Eq, ◌==◌, Bool-cases}

abbrev pub Dict {ℓ κ} : Type ℓ → Type κ → Type (ℓ ⊔ κ)
Dict K V = List (K × V)

module _ {ℓ κ} {K : Type ℓ} {V : Type κ} ⦃e : Eq K⦄ where
  -- `d[k]`, `d.get(k)`
  unfoldable pub lookup : K → Dict K V → Option V
  lookup k [] = none
  lookup k ((j, v) ∷ d) = if j == k then some v else lookup k d

  -- `d[k] = v`, `d.set(k, v)`: an old key keeps its place, a new one comes last.
  unfoldable pub insert : K → V → Dict K V → Dict K V
  insert k v [] = (k, v) ∷ []
  insert k v ((j, w) ∷ d) = if j == k then (j, v) ∷ d else (j, w) ∷ insert k v d

  -- `d.delete(k)`
  unfoldable pub erase : K → Dict K V → Dict K V
  erase k [] = []
  erase k ((j, v) ∷ d) = if j == k then d else (j, v) ∷ erase k d

  unfoldable pub has : K → Dict K V → Bool
  unfolding lookup
  has k d = elim (lookup k d) [ none ↦ false | some _ ↦ true ]

  -- Every key stands once.
  abbrev pub IsUnique : Dict K V → Type 0
  IsUnique [] = Unit {0}
  IsUnique ((k, v) ∷ d) = (has k d ≡ false) × IsUnique d

  pub lookup-insert :
      (k j : K) (v : V) (d : Dict K V)
      → lookup j (insert k v d) ≡ (if k == j then some v else lookup j d)
  unfolding lookup insert
  lookup-insert k j v [] = refl
  lookup-insert k j v ((i, w) ∷ d) =
      ground (arith, e.beq_iff k j, e.beq_iff i k, e.beq_iff i j, lookup-insert k j v d)

  -- What is found after one entry is written, by whether it is that entry.
  pub found_insert :
      (k : K) (v : V) (d : Dict K V) (j : K) (w : V)
      → lookup j (insert k v d) ≡ some w
      → ((k ≡ j) × (w ≡ v)) ⊎ (lookup j d ≡ some w)
  found_insert k v d j w found = elim (Bool-cases (k == j)) [
    | inl hit ↦ inl ((e.beq_iff k j).0 hit, ground (arith, lookup-insert k j v d))
    | inr miss ↦ inr (ground (arith, lookup-insert k j v d))
  ]

  pub insert-IsUnique : (k : K) (v : V) (d : Dict K V) → IsUnique d → IsUnique (insert k v d)
  unfolding has insert
  insert-IsUnique k v [] u = (refl, tt)
  insert-IsUnique k v ((i, w) ∷ d) u =
      ground (arith, e.beq_iff i k, e.beq_iff k i, lookup-insert k i v d, insert-IsUnique k v d u.1)

  pub lookup-erase :
      (k j : K) (d : Dict K V)
      → IsUnique d
      → lookup j (erase k d) ≡ (if k == j then none else lookup j d)
  unfolding has erase
  lookup-erase k j [] u = ground arith
  lookup-erase k j ((i, w) ∷ d) u =
      ground (arith, e.beq_iff k j, e.beq_iff i k, e.beq_iff i j, lookup-erase k j d u.1, u.0)

  pub erase-IsUnique : (k : K) (d : Dict K V) → IsUnique d → IsUnique (erase k d)
  unfolding has erase
  erase-IsUnique k [] u = tt
  erase-IsUnique k ((i, w) ∷ d) u =
      ground (arith, e.beq_iff k i, lookup-erase k i d u.1, erase-IsUnique k d u.1)

-- A property of every entry.
module _ {ℓ κ μ} {K : Type ℓ} {V : Type κ} (P : K → V → Type μ) where
  abbrev pub Entries : Dict K V → Type μ
  Entries [] = Unit
  Entries ((k, v) ∷ d) = P k v × Entries d

module _ {ℓ κ μ} {K : Type ℓ} {V : Type κ} ⦃e : Eq K⦄ (P : K → V → Type μ) where
  pub Entries-lookup : (k : K) (v : V) (d : Dict K V) → Entries P d → lookup k d ≡ some v → P k v
  unfolding lookup
  Entries-lookup k v [] h p = cc
  Entries-lookup k v ((j, w) ∷ d) h p = elim (Bool-cases (j == k)) [
    | inl hit ↦ subst₂ P ((e.beq_iff j k).0 hit) (ground (arith)) h.0
    | inr miss ↦ Entries-lookup k v d h.1 (ground arith)
  ]

  pub Entries-insert :
      (k : K) (v : V) (d : Dict K V) → Entries P d → P k v → Entries P (insert k v d)
  unfolding insert
  Entries-insert k v [] h p = (p, tt)
  Entries-insert k v ((j, w) ∷ d) h p =
      if-ind (Entries P) (j == k) (λ hit. (subst (λ i. P i v) (sym ((e.beq_iff j k).0 hit)) p, h.1))
        (λ _. (h.0, Entries-insert k v d h.1 p))

  pub Entries-erase : (k : K) (d : Dict K V) → Entries P d → Entries P (erase k d)
  unfolding erase
  Entries-erase k [] h = h
  Entries-erase k ((j, w) ∷ d) h =
      if-ind (Entries P) (j == k) (λ _. h.1) (λ _. (h.0, Entries-erase k d h.1))
