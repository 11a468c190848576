-- ===== src/Reconciler/Reconcile.antt =====
-- rpc-src/create-reconciler.ts: `reconcile`.
use openzeppelin_foundry_upg.Base.{
  ℕ, Bool, true, false, not, ◌&&◌, ◌||◌, Option, none, some, List, [], ◌∷◌, Eq, eqb, leb, ◌==◌,
  nat_eq, list_eq, match_option, if◌then◌else◌, length,
}
use openzeppelin_foundry_upg.Base.Text.{Text, codes}
use openzeppelin_foundry_upg.Base.Patterns.{to_lower}
use openzeppelin_foundry_upg.Base.Result.{Result, ok, err}
use openzeppelin_foundry_upg.Base.Dict.{Dict, lookup, insert, has}
use openzeppelin_foundry_upg.AddressMap.State.{AddressMapping, AddressMapIndexes, ChainState}
use openzeppelin_foundry_upg.AddressMap.Mappings.{require_indexes, set_mapping_in_chain}
use openzeppelin_foundry_upg.AddressMap.Metadata.{set_contract_metadata_in_chain}
use openzeppelin_foundry_upg.Journal.State.{
  broadcast, confirmed, failed, exact_signed, SimulationMode, deployment, OperationContext,
  ChildCreateMetadata, ChildCreateAttempt, Built, JournalRecord, ReconciliationState, Chain,
  Runtime,
}
use openzeppelin_foundry_upg.Journal.Equality.{same_kind, same_mode, same_bool}
use openzeppelin_foundry_upg.Journal.Records.{require_journal}
use openzeppelin_foundry_upg.Journal.Operations.{
  is_state, record_confirmed_in_chain, record_retained_failure_in_chain, get,
}
use openzeppelin_foundry_upg.Identities.{strip_root}
use openzeppelin_foundry_upg.Reconciler.State.{
  Thrown, reconciliation_error, other_error, Outcome, throws, returns, ◌>>=◌, ◌>>◌, lift, refuse,
  demand,
}
use openzeppelin_foundry_upg.Reconciler.Checks.{for_each, require_reconciliation}
use openzeppelin_foundry_upg.Reconciler.Derive.{predicted_root, next_nonce_of}
use openzeppelin_foundry_upg.Reconciler.Prepare.{failure_of}
use openzeppelin_foundry_upg.Reconciler.Receipt.{
  ConfirmedReceipt, ReceiptCreation, assert_top_level_receipt, receipt_creations,
  rewrite_internal_creations,
}

-- A caller that the plan does not know yet is resolved by its persisted mapping.
unfoldable pub add_persisted :
    AddressMapIndexes → List ChildCreateAttempt → Dict Text Text → Dict Text Text
add_persisted indexes [] known = known
add_persisted indexes (attempt ∷ rest) known =
    let caller = attempt.predicted_caller in
    let later =
      if has caller known
      then known
      else match_option (lookup caller indexes.by_predicted) known
          (λ m. insert caller m.actual known) in
    add_persisted indexes rest later

-- The creation of the receipt is the planned one.
unfoldable pub matches_plan :
    SimulationMode → ChildCreateAttempt → ReceiptCreation → Dict Text Text → Bool
matches_plan mode planned creation known =
    same_bool planned.success creation.success
    && match_option (lookup planned.predicted_caller known) false
        (λ expected. expected == creation.caller_address)
    && not (
        same_mode mode exact_signed
        && (not (planned.actual_caller == creation.caller_address)
            || not (planned.simulated_actual_address == creation.actual_address)))

-- The loop over the attempts and the creations, which are as many.
unfoldable pub match_attempts :
    SimulationMode
    → List ChildCreateAttempt
    → List ReceiptCreation
    → Dict Text Text
    → Outcome (Unit {0})
match_attempts mode [] creations known = returns tt
match_attempts mode (planned ∷ rest) [] known =
    refuse "CHILD_CREATE_MISMATCH" "Receipt internal CREATE topology differs"
match_attempts mode (planned ∷ rest) (creation ∷ creations) known = do
  demand (matches_plan mode planned creation known) "CHILD_CREATE_MISMATCH"
      "Receipt internal CREATE topology differs"
  match_attempts mode rest creations (
      if planned.success
      then insert planned.predicted_address creation.actual_address known
      else known)

-- The reservation of one caller is intact.
unfoldable pub check_counter_kept : ReconciliationState → Text → ℕ → Outcome (Unit {0})
check_counter_kept state caller final =
    demand (leb final (next_nonce_of state caller)) "CHILD_CREATE_COUNTER_CONFLICT"
      "Child CREATE counter regressed"

unfoldable pub successful_attempts : List ChildCreateAttempt → List ChildCreateAttempt
successful_attempts [] = []
successful_attempts (attempt ∷ rest) =
    let later = successful_attempts rest in if attempt.success then attempt ∷ later else later

unfoldable pub successful_creations : List ReceiptCreation → List ReceiptCreation
successful_creations [] = []
successful_creations (creation ∷ rest) =
    let later = successful_creations rest in if creation.success then creation ∷ later else later

-- `text.includes(part)`
unfoldable pub includes : Text → Text → Bool
includes part [] = match_option (strip_root part []) false (λ rest. true)
includes part (c ∷ text) =
    let later = includes part text in match_option (strip_root part (c ∷ text)) later (λ rest. true)

-- The error that is kept of what was thrown.
unfoldable pub reconcile_error : Thrown → Thrown
reconcile_error (reconciliation_error code message) = reconciliation_error code message
reconcile_error (other_error message) =
    if includes (codes "mapping") (to_lower message)
      || includes (codes "conflict") (to_lower message)
    then reconciliation_error (codes "CHILD_CREATE_CONFLICT") message
    else reconciliation_error (codes "CHILD_CREATE_RECONCILIATION_FAILED") message

module _ {X : Type 0} (env : Runtime (ConfirmedReceipt X)) where
  abbrev Known : Type 0
  Known = Dict Text Text

  -- A mapping and, when there is any, its metadata.
  unfoldable pub record_contract :
      AddressMapping → Option ChildCreateMetadata → ChainState → Result ChainState
  record_contract mapping metadata addresses =
      elim (set_mapping_in_chain env.codec addresses mapping) [
        | err e ↦ err e
        | ok (mapped, stored) ↦ match_option metadata (ok mapped) (λ m.
            elim (set_contract_metadata_in_chain env.codec mapped (record {
              predicted = mapping.predicted;
              contract_kind = m.contract_kind;
              artifact_identity = m.artifact_identity;
              source_transaction = mapping.source_transaction;
              provenance_hash = none;
            })) [ err e ↦ err e | ok (described, m') ↦ ok described ])
      ]

  -- The contract that a deployment creates.
  unfoldable pub record_deployment :
      JournalRecord (ConfirmedReceipt X)
      → OperationContext
      → ChainState × Known
      → Outcome (ChainState × Known)
  record_deployment r context (addresses, known) =
      if not (same_kind context.kind deployment)
      then returns (addresses, known)
      else match_option context.predicted_contract_address
          (throws (other_error (codes "Invalid address mapping")))
          (λ predicted. do
            later ← lift (
                record_contract
                  (record {
                    predicted = predicted;
                    actual = context.actual_target;
                    creator = context.from;
                    sender = context.from;
                    source_transaction = r.source_transaction_hash;
                  })
                  (match_option context.contract_kind none (λ kind.
                    match_option context.artifact_identity none (λ identity.
                      some (record { contract_kind = kind; artifact_identity = identity }))))
                  addresses)
            returns (later, insert context.actual_target predicted known))

  -- The children that were created, in order.
  unfoldable pub record_children :
      Text
      → Text
      → List ChildCreateAttempt
      → List ReceiptCreation
      → ChainState × Known
      → Outcome (ChainState × Known)
  record_children sender source [] creations state = returns state
  record_children sender source (planned ∷ rest) [] state = returns state
  record_children sender source (planned ∷ rest) (creation ∷ creations) (addresses, known) = do
    later ← lift (
        record_contract
          (record {
            predicted = planned.predicted_address;
            actual = creation.actual_address;
            creator = planned.predicted_caller;
            sender = sender;
            source_transaction = source;
          })
          planned.child_metadata addresses)
    record_children sender source rest creations
        (later, insert creation.actual_address planned.predicted_address known)

  module _ ⦃eq_receipt : Eq (ConfirmedReceipt X)⦄ where
    -- The callback, from the record that was found broadcast and what was built for it.
    unfoldable pub settle_in_chain :
        Text
        → ConfirmedReceipt X
        → Chain (ConfirmedReceipt X)
        → JournalRecord (ConfirmedReceipt X)
        → Built
        → Outcome (Chain (ConfirmedReceipt X) × JournalRecord (ConfirmedReceipt X))
    settle_in_chain source_hash receipt chain r built = do
      let context = built.prepared.operation_context
      let plan = built.prepared.child_create_plan
      assert_top_level_receipt env r context receipt
      creations ← receipt_creations env receipt built.native.native_transaction_id
      demand (eqb (length plan.attempts) (length creations)) "CHILD_CREATE_MISMATCH"
          "Simulation and receipt differ in their internal CREATE attempts"
      indexes ← lift (require_indexes env.codec chain.addresses)
      let sender_known = insert plan.sender plan.sender []
      let root_known =
          match_option (predicted_root context) sender_known
            (λ root. insert root context.actual_target sender_known)
      match_attempts plan.mode plan.attempts creations
          (add_persisted indexes plan.attempts root_known)
      state ← require_reconciliation env chain
      for_each (check_counter_kept state) plan.counter_finals
      deployed ← record_deployment r context (chain.addresses, indexes.by_actual)
      settled ←
          record_children plan.sender r.source_transaction_hash (successful_attempts plan.attempts)
            (successful_creations creations) deployed
      let later = record chain { addresses = settled.0; child_create_reconciliation = some state }
      lift (
          record_confirmed_in_chain env source_hash (rewrite_internal_creations receipt settled.1)
            later)

    unfoldable pub reconcile_in_chain :
        Text
        → ConfirmedReceipt X
        → Chain (ConfirmedReceipt X)
        → Outcome (Chain (ConfirmedReceipt X) × JournalRecord (ConfirmedReceipt X))
    reconcile_in_chain source_hash receipt chain = do
      journal ← lift (require_journal env chain)
      match_option (lookup (to_lower source_hash) journal.records)
          (throws (other_error (codes "Unknown source transaction")))
          (λ r.
            if not (is_state r.state broadcast)
            then refuse "CHILD_CREATE_STATE_MISMATCH" "Transaction cannot reconcile a receipt"
            else match_option r.built
                (throws (other_error (codes "Corrupt transaction journal record")))
                (settle_in_chain source_hash receipt chain r))

    -- The `catch`: the failure is kept with the receipt, in a transaction of its own.
    unfoldable pub retain_failure :
        Text
        → ConfirmedReceipt X
        → Thrown
        → Chain (ConfirmedReceipt X)
        → Chain (ConfirmedReceipt X) × Outcome (JournalRecord (ConfirmedReceipt X))
    retain_failure source_hash receipt failure chain =
        elim (record_retained_failure_in_chain env source_hash (failure_of failure) receipt chain) [
          | err e ↦ (chain, throws (other_error (codes e)))
          | ok (later, failed_record) ↦ (later, throws failure)
        ]

    unfoldable pub reconcile_open :
        Text
        → ConfirmedReceipt X
        → Chain (ConfirmedReceipt X)
        → Chain (ConfirmedReceipt X) × Outcome (JournalRecord (ConfirmedReceipt X))
    reconcile_open source_hash receipt chain = elim (reconcile_in_chain source_hash receipt chain) [
      | returns (later, r) ↦ (later, returns r)
      | throws e ↦ retain_failure source_hash receipt (reconcile_error e) chain
    ]

    -- A record that is confirmed is returned, and a failure is thrown again.
    unfoldable pub reconcile :
        Text
        → ConfirmedReceipt X
        → Chain (ConfirmedReceipt X)
        → Chain (ConfirmedReceipt X) × Outcome (JournalRecord (ConfirmedReceipt X))
    reconcile source_hash receipt chain = elim (get env (some chain) source_hash) [
      | err e ↦ (chain, throws (other_error (codes e)))
      | ok none ↦ reconcile_open source_hash receipt chain
      | ok (some r) ↦
          if is_state r.state confirmed
          then (chain, returns r)
          else if is_state r.state failed
          then (
            chain,
            match_option r.failure
                (throws (other_error (codes "Corrupt transaction journal record")))
                (λ failure. throws (reconciliation_error failure.code failure.message)),
          )
          else reconcile_open source_hash receipt chain
    ]
