-- ===== src/Store/Crashes.antt =====
-- The state file holds the old state or the new one, whichever operation fails and whenever the
-- process stops.
use openzeppelin_foundry_upg.Base.{
  ◌≡◌, ◌≢◌, Option, none, some, [], All, nat_eq, list_eq, arith, ◌⊎◌, inl, inr, String,
}
use openzeppelin_foundry_upg.Base.Text.{Text}
use openzeppelin_foundry_upg.Base.Result.{Result, ok, err, Result-cases}
use openzeppelin_foundry_upg.Store.State.{StoreState}
use openzeppelin_foundry_upg.Store.Files.{
  File, holds, Files, Faults, effect, look, remove_temporary, perform_all, sync_ending, write_state,
}
use openzeppelin_foundry_upg.Store.Transactions.{JsonStore, prepare, transaction}

module _ {C : Type 0} (faults : Faults) (state : StoreState C) (files : Files C) where
  -- What a reader may find: the old contents or the new state.
  abbrev pub IsOldOrNew : Option (File C) → Type 0
  IsOldOrNew t = (t ≡ files.target) ⊎ (t ≡ some (holds state))

  write_state-target :
      ((write_state faults state files).1 ≡ none
        → (write_state faults state files).0.target ≡ some (holds state))
      × ((write_state faults state files).1 ≢ none
          → sync_ending faults ≡ none
          → (write_state faults state files).0.target ≡ files.target)
  unfolding write_state perform_all effect look remove_temporary
  write_state-target = (λ h. ground arith, λ h k. ground arith)

  write_state-either : IsOldOrNew (write_state faults state files).0.target
  unfolding write_state perform_all effect look remove_temporary
  write_state-either = ground arith

  write_state-seen :
      All IsOldOrNew files.seen → All IsOldOrNew (write_state faults state files).0.seen
  unfolding write_state perform_all effect look remove_temporary
  write_state-seen start = ground arith

module _ {C T : Type 0} (store : JsonStore C) (faults : Faults) (files : Files C) (identity : Text)
    (callback : C → Result (C × T)) where
  -- Whatever operations of the file system fail, and at whatever point of a transaction the process
  -- stops, the state file is what it was or holds the whole state that the transaction prepared:
  -- never a part of it.
  pub transaction_atomic :
      (next : StoreState C) (result : T)
      → prepare store faults files identity callback ≡ ok (next, result)
      → files.seen ≡ []
      → All (IsOldOrNew faults next files) (transaction store faults files identity callback).0.seen
  unfolding transaction
  transaction_atomic next result ready start =
      let seen = write_state-seen faults next files (ground (arith, start)) in
      ground (arith, ready, seen)

  -- A transaction that throws has left the state file as it was, unless only the synchronisation of
  -- the directory failed, after the new state was in place.
  pub transaction_failure :
      (e : String)
      → (transaction store faults files identity callback).1 ≡ err e
      → sync_ending faults ≡ none
      → (transaction store faults files identity callback).0.target ≡ files.target
  unfolding transaction
  transaction_failure e failure synced =
      elim (Result-cases (prepare store faults files identity callback)) [
        | inl (e', refused) ↦ ground (arith, refused)
        | inr ((next, result), ready) ↦ ground (arith, ready, write_state-target faults next files)
      ]

  -- A transaction that returns has replaced the state file by the state that it prepared.
  pub transaction_success :
      (result : T)
      → (transaction store faults files identity callback).1 ≡ ok result
      → (next : StoreState C) × (prepare store faults files identity callback ≡ ok (next, result))
        × ((transaction store faults files identity callback).0.target ≡ some (holds next))
  unfolding transaction
  transaction_success result success =
      elim (Result-cases (prepare store faults files identity callback)) [
        | inl (e', refused) ↦ absurd (ground (arith, refused))
        | inr ((next, r), ready) ↦ (
          next,
          ground (arith, ready),
          ground (arith, ready, write_state-target faults next files),
        )
      ]

  -- However a transaction ends, the state file is the old one or holds what was prepared.
  pub transaction_either :
      ((transaction store faults files identity callback).0.target ≡ files.target)
      ⊎ ((next : StoreState C) × (result : T) × (prepare store faults files identity callback
            ≡ ok (next, result))
          × ((transaction store faults files identity callback).0.target ≡ some (holds next)))
  unfolding transaction
  transaction_either = elim (Result-cases (prepare store faults files identity callback)) [
    | inl (e, refused) ↦ inl (ground (arith, refused))
    | inr ((next, result), ready) ↦ elim (write_state-either faults next files) [
      | inl old ↦ inl (ground (arith, ready, old))
      | inr new ↦ inr (next, result, ready, ground (arith, ready, new))
    ]
  ]
