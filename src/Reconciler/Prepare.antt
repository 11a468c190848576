-- ===== src/Reconciler/Prepare.antt =====
-- rpc-src/create-reconciler.ts: `reserveChildCreateCounters`, `recordPreparedNative`, `nextNonce`.
use openzeppelin_foundry_upg.Base.{
  ℕ, Bool, false, none, some, [], ◌∷◌, Eq, nat_eq, list_eq, match_option, if◌then◌else◌,
}
use openzeppelin_foundry_upg.Base.Text.{Text, codes}
use openzeppelin_foundry_upg.Base.Patterns.{to_lower}
use openzeppelin_foundry_upg.Base.Result.{ok, err}
use openzeppelin_foundry_upg.Base.Dict.{Dict, lookup, insert}
use openzeppelin_foundry_upg.Journal.State.{
  received, NativeTransaction, Failure, OperationContext, ChildCreatePlan, JournalRecord, Journal,
  Chain, Runtime,
}
use openzeppelin_foundry_upg.Journal.Records.{require_journal}
use openzeppelin_foundry_upg.Journal.Operations.{
  is_state, record_native_built_in_chain, record_failed_in_chain, get,
}
use openzeppelin_foundry_upg.Reconciler.State.{
  Thrown, reconciliation_error, other_error, Outcome, throws, returns, ◌>>=◌, lift, Simulation,
}
use openzeppelin_foundry_upg.Reconciler.Checks.{normalize_trace_address, require_reconciliation}
use openzeppelin_foundry_upg.Reconciler.Derive.{derive_plan, next_nonce_of}

-- `nextNonceByCaller[caller] = final` for every entry of the first map
unfoldable pub reserve_all : Dict Text ℕ → Dict Text ℕ → Dict Text ℕ
reserve_all [] next = next
reserve_all ((caller, final) ∷ finals) next = reserve_all finals (insert caller final next)

-- What is stored of an error, and thrown again.
unfoldable pub as_reconciliation_error : Text → Thrown → Thrown
as_reconciliation_error code (reconciliation_error c message) = reconciliation_error c message
as_reconciliation_error code (other_error message) = reconciliation_error code message

unfoldable pub failure_of : Thrown → Failure
failure_of (reconciliation_error code message) = record { code = code; message = message }
failure_of (other_error message) = record { code = []; message = message }

module _ {R : Type 0} ⦃eq_receipt : Eq R⦄ (env : Runtime R) where
  unfoldable pub reserve_child_create_counters : Chain R → ChildCreatePlan → Outcome (Chain R)
  reserve_child_create_counters chain plan = do
    state ← require_reconciliation env chain
    returns (record chain {
      child_create_reconciliation = some (record state {
        next_nonce_by_caller = reserve_all plan.counter_finals state.next_nonce_by_caller;
      });
    })

  -- Whether the record was received, before the plan is derived.
  unfoldable pub was_received : Journal R → Text → Bool
  was_received journal source_hash =
      match_option (lookup (to_lower source_hash) journal.records) false
        (λ r. is_state r.state received)

  -- The callback of the store transaction in `recordPreparedNative`.
  unfoldable pub prepare_in_chain :
      Text
      → Text
      → NativeTransaction
      → Simulation
      → OperationContext
      → Chain R
      → Outcome (Chain R × JournalRecord R)
  prepare_in_chain owner source_hash native simulation context chain = do
    journal ← lift (require_journal env chain)
    preparation ← derive_plan env chain simulation context native.native_transaction_id
    built ← lift (record_native_built_in_chain env owner source_hash native preparation chain)
    later ←
        if was_received journal source_hash
        then reserve_child_create_counters built.0 preparation.child_create_plan
        else returns built.0
    returns (later, built.1)

  -- The `catch` of `recordPreparedNative`, on the chain that the transaction left alone.
  unfoldable pub refuse_received :
      Text → Text → Thrown → Chain R → Chain R × Outcome (JournalRecord R)
  refuse_received owner source_hash failure chain = elim (get env (some chain) source_hash) [
    | err e ↦ (chain, throws (other_error (codes e)))
    | ok none ↦ (chain, throws failure)
    | ok (some r) ↦
        if is_state r.state received
        then (elim (record_failed_in_chain env owner source_hash (failure_of failure) chain) [
          | err e ↦ (chain, throws (other_error (codes e)))
          | ok (later, failed_record) ↦ (later, throws failure)
        ])
        else (chain, throws failure)
  ]

  unfoldable pub record_prepared_native :
      Text
      → Text
      → NativeTransaction
      → Simulation
      → OperationContext
      → Chain R
      → Chain R × Outcome (JournalRecord R)
  record_prepared_native owner source_hash native simulation context chain =
      elim (prepare_in_chain owner source_hash native simulation context chain) [
        | returns (later, r) ↦ (later, returns r)
        | throws e ↦
            refuse_received owner source_hash
              (as_reconciliation_error (codes "CHILD_CREATE_PREFLIGHT_FAILED") e) chain
      ]

  unfoldable pub next_nonce : Chain R → Text → Outcome ℕ
  next_nonce chain predicted_caller = do
    caller ← normalize_trace_address env predicted_caller false
    state ← require_reconciliation env chain
    returns (next_nonce_of state caller)
