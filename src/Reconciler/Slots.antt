-- ===== src/Reconciler/Slots.antt =====
-- rpc-src/create-reconciler.ts and rpc-src/journal.ts together: children are predicted from
-- different nonces, however preparations and the calls of the journal follow one another.
use openzeppelin_foundry_upg.Base.{
  ℕ, ◌<◌, ◌≡◌, subst, false, none, some, List, [], ◌∷◌, Eq, nat_eq, list_eq, arith, inl, inr,
}
use openzeppelin_foundry_upg.Base.Text.{Text, codes}
use openzeppelin_foundry_upg.Base.Result.{Result-cases}
use openzeppelin_foundry_upg.Base.Dict.{lookup}
use openzeppelin_foundry_upg.Journal.State.{
  NativeTransaction, OperationContext, JournalRecord, Chain, Runtime,
}
use openzeppelin_foundry_upg.Journal.Moves.{records_of, Writes}
use openzeppelin_foundry_upg.Journal.Requests.{
  Request, is_building, callback, callback-Writes, perform,
}
use openzeppelin_foundry_upg.Reconciler.State.{Outcome-cases, Simulation}
use openzeppelin_foundry_upg.Reconciler.Prepare.{
  prepare_in_chain, record_prepared_native, as_reconciliation_error,
}
use openzeppelin_foundry_upg.Reconciler.Preparing.{
  counter, ChainReserves, idle-ChainReserves, prepare-ChainReserves, refuse-ChainReserves,
}
use openzeppelin_foundry_upg.Reconciler.Reserving.{slots_of}

-- A call of the reconciler, or one of the journal that builds no native transaction.
pub data Call (R : Type 0) : Type 0 where
  prepares :
      (source_hash : Text) (native : NativeTransaction) (simulation : Simulation)
      (context : OperationContext)
      → Call R
  asks : (request : Request R) → is_building request ≡ false → Call R

module _ {R : Type 0} ⦃eq_receipt : Eq R⦄ (env : Runtime R) where
  unfoldable pub perform_call : Text → Call R → Chain R → Chain R
  perform_call owner (prepares source_hash native simulation context) chain =
      (record_prepared_native env owner source_hash native simulation context chain).0
  perform_call owner (asks request plain) chain = perform env owner request chain

  -- Calls in order, each with the journal instance that makes it.
  unfoldable pub run_calls : List (Text × Call R) → Chain R → Chain R
  run_calls [] chain = chain
  run_calls ((owner, c) ∷ rest) chain = run_calls rest (perform_call owner c chain)

  call-ChainReserves :
      (owner : Text) (c : Call R) (chain : Chain R)
      → ChainReserves chain
      → ChainReserves (perform_call owner c chain)
  unfolding perform_call record_prepared_native perform
  call-ChainReserves owner (prepares source_hash native simulation context) chain before =
      elim (Outcome-cases
        (prepare_in_chain env owner source_hash native simulation context chain)) [
          | inl (e, f) ↦ subst ChainReserves (ground (arith, f)) (
              refuse-ChainReserves env owner source_hash
                (as_reconciliation_error (codes "CHILD_CREATE_PREFLIGHT_FAILED") e) chain before)
          | inr ((later, r), f) ↦ subst ChainReserves (ground (arith, f)) (
              prepare-ChainReserves env owner source_hash native simulation context chain later r f
                before)
        ]
  call-ChainReserves owner (asks request plain) chain before =
      elim (Result-cases (callback env owner request chain)) [
        | inl (e, f) ↦ subst ChainReserves (ground (arith, f)) before
        | inr ((later, r), f) ↦ subst ChainReserves (ground (arith, f)) (
            idle-ChainReserves owner chain later
              (subst (λ b. Writes owner b chain later) plain
                (callback-Writes env owner request chain later r f))
              before)
      ]

  run-ChainReserves :
      (calls : List (Text × Call R)) (chain : Chain R)
      → ChainReserves chain
      → ChainReserves (run_calls calls chain)
  unfolding run_calls
  run-ChainReserves [] chain before = before
  run-ChainReserves ((owner, c) ∷ rest) chain before =
      run-ChainReserves rest (perform_call owner c chain) (call-ChainReserves owner c chain before)

  start-ChainReserves : (chain : Chain R) → chain.transaction_journal ≡ none → ChainReserves chain
  unfolding records_of lookup
  start-ChainReserves chain empty = (
    λ hash r caller nonce found. absurd (ground (arith, empty, found)),
    λ first second a b caller nonce fa. absurd (ground (arith, empty, fa)),
  )

  -- However preparations and the other calls of any journal instances follow one another from a
  -- chain without a journal, two records whose plans take the same nonce of the same caller are the
  -- same record.
  pub slots_once :
      (calls : List (Text × Call R)) (chain : Chain R)
      → chain.transaction_journal ≡ none
      → (first second : Text) (a b : JournalRecord R) (caller : Text) (nonce : ℕ)
      → lookup first (records_of (run_calls calls chain)) ≡ some a
      → lookup second (records_of (run_calls calls chain)) ≡ some b
      → 0 < slots_of caller nonce a
      → 0 < slots_of caller nonce b
      → first ≡ second
  slots_once calls chain empty = (run-ChainReserves calls chain (start-ChainReserves chain empty)).1

  -- However preparations and the other calls of any journal instances follow one another from a
  -- chain without a journal, every nonce that the plan of a record takes of a caller is below the
  -- nonce that the chain holds reserved for the next child of that caller.
  pub slots_reserved :
      (calls : List (Text × Call R)) (chain : Chain R)
      → chain.transaction_journal ≡ none
      → (hash : Text) (r : JournalRecord R) (caller : Text) (nonce : ℕ)
      → lookup hash (records_of (run_calls calls chain)) ≡ some r
      → 0 < slots_of caller nonce r
      → nonce < counter (run_calls calls chain) caller
  slots_reserved calls chain empty =
      (run-ChainReserves calls chain (start-ChainReserves chain empty)).0
