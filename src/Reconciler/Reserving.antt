-- ===== src/Reconciler/Reserving.antt =====
-- Slots: a nonce of a caller that a record's plan takes is below the caller's reserved counter, and
-- no two records take the same.
use openzeppelin_foundry_upg.Base.{
  ℕ, ◌≤◌, ◌<◌, ◌≡◌, refl, sym, ◌∙◌, true, false, some, [], ◌∷◌, nat_eq, list_eq, match_option,
  arith, inl, inr, ◌⊎◌,
}
use openzeppelin_foundry_upg.Base.Text.{Text, text_iff}
use openzeppelin_foundry_upg.Base.Dict.{
  Dict, lookup, insert, has, IsUnique, lookup-insert, found_insert,
}
use openzeppelin_foundry_upg.Journal.State.{JournalRecord}
use openzeppelin_foundry_upg.Journal.Attempts.{slots}
use openzeppelin_foundry_upg.Journal.Moves.{
  Records, Moves, arrives, recovers, builds, broadcasts, confirms, retains, fails,
}
use openzeppelin_foundry_upg.Journal.State.{native_built}
use openzeppelin_foundry_upg.Reconciler.Prepare.{reserve_all}

-- The loop of `reserveChildCreateCounters` writes the final counters over the others.
pub lookup-reserve_all :
    (finals next : Dict Text ℕ) (caller : Text)
    → IsUnique finals
    → lookup caller (reserve_all finals next)
      ≡ match_option (lookup caller finals) (lookup caller next) (λ final. some final)
unfolding reserve_all lookup has
lookup-reserve_all [] next caller unique = refl
lookup-reserve_all ((k, final) ∷ finals) next caller unique = ground (
  arith,
  lookup-reserve_all finals (insert k final next) caller unique.1,
  lookup-insert k caller final next,
  text_iff k caller,
  unique.0,
)

module _ {R : Type 0} where
  -- How often the plan of a record takes a nonce of a caller.
  unfoldable pub slots_of : Text → ℕ → JournalRecord R → ℕ
  slots_of caller nonce r =
      match_option r.built 0 (λ b. slots caller nonce b.prepared.child_create_plan.attempts)

  abbrev pub IsReserved : Records R → (Text → ℕ) → Type 0
  IsReserved records count =
      (hash : Text) (r : JournalRecord R) (caller : Text) (nonce : ℕ)
      → lookup hash records ≡ some r
      → 0 < slots_of caller nonce r
      → nonce < count caller

  abbrev pub IsSlotOnce : Records R → Type 0
  IsSlotOnce records =
      (first second : Text) (a b : JournalRecord R) (caller : Text) (nonce : ℕ)
      → lookup first records ≡ some a
      → lookup second records ≡ some b
      → 0 < slots_of caller nonce a
      → 0 < slots_of caller nonce b
      → first ≡ second

  abbrev pub Reserves : Records R → (Text → ℕ) → Type 0
  Reserves records count = IsReserved records count × IsSlotOnce records

  -- A slot of a record that is written was its own before, or was free and is reserved now.
  abbrev pub Takes : Records R → Text → JournalRecord R → (Text → ℕ) → (Text → ℕ) → Type 0
  Takes records hash after count later =
      (caller : Text) (nonce : ℕ)
      → 0 < slots_of caller nonce after
      → ((r : JournalRecord R) × (lookup hash records ≡ some r) × (0 < slots_of caller nonce r))
        ⊎ ((count caller ≤ nonce) × (nonce < later caller))

  module _ (records : Records R) (count later : Text → ℕ) (hash : Text) (after : JournalRecord R)
      (grows : (caller : Text) → count caller ≤ later caller)
      (takes : Takes records hash after count later) (before : Reserves records count) where
    insert-IsReserved : IsReserved (insert hash after records) later
    insert-IsReserved key r caller nonce found taken =
        elim (found_insert hash after records key r found) [
          | inl (hit, same) ↦ elim (takes caller nonce (ground (arith, same, taken))) [
            | inl (old, there, held) ↦
                omega (arith, before.0 hash old caller nonce there held, grows caller)
            | inr (free, now) ↦ now
          ]
          | inr old ↦ omega (arith, before.0 key r caller nonce old taken, grows caller)
        ]

    -- Another record does not take a slot of the written one.
    only_taker :
        (other : Text) (b : JournalRecord R) (caller : Text) (nonce : ℕ)
        → lookup other records ≡ some b
        → 0 < slots_of caller nonce after
        → 0 < slots_of caller nonce b
        → hash ≡ other
    only_taker other b caller nonce found taken taken' = elim (takes caller nonce taken) [
      | inl (old, there, held) ↦ before.1 hash other old b caller nonce there found held taken'
      | inr (free, now) ↦ absurd (omega (arith, before.0 other b caller nonce found taken', free))
    ]

    pub insert-Reserves : Reserves (insert hash after records) later
    insert-Reserves = (
      insert-IsReserved,
      λ first second a b caller nonce fa fb ta tb.
          elim (found_insert hash after records first a fa) [
            | inl (hit, same) ↦ elim (found_insert hash after records second b fb) [
              | inl (hit', _) ↦ sym hit ∙ hit'
              | inr old ↦
                  sym hit ∙ only_taker second b caller nonce old (ground (arith, ta, same)) tb
            ]
            | inr old ↦ elim (found_insert hash after records second b fb) [
              | inl (hit', same) ↦
                  sym (only_taker first a caller nonce old (ground (arith, tb, same)) ta) ∙ hit'
              | inr old' ↦ before.1 first second a b caller nonce old old' ta tb
            ]
          ],
    )

  -- A move that builds nothing takes no slot.
  pub Moves-Takes :
      (owner : Text) (records : Records R) (hash : Text) (after : JournalRecord R)
      (count later : Text → ℕ)
      → Moves owner records hash after
      → (after.state ≡ native_built → false ≡ true)
      → Takes records hash after count later
  unfolding slots_of
  Moves-Takes owner records hash after count later (arrives source absent e) idle caller nonce
        taken =
      absurd (ground arith)
  Moves-Takes owner records hash after count later (recovers r found waits e) idle caller nonce
        taken =
      inl (r, found, ground arith)
  Moves-Takes owner records hash after count later (builds r native prepared found waits own free e)
        idle caller nonce taken =
      absurd (ground (arith, idle))
  Moves-Takes owner records hash after count later (broadcasts r found b e) idle caller nonce
        taken =
      inl (r, found, ground arith)
  Moves-Takes owner records hash after count later (confirms r receipt found b e) idle caller nonce
        taken =
      inl (r, found, ground arith)
  Moves-Takes owner records hash after count later (retains r failure receipt found b e) idle caller
        nonce taken =
      inl (r, found, ground arith)
  Moves-Takes owner records hash after count later (fails r failure found s t own e) idle caller
        nonce taken =
      inl (r, found, ground arith)
