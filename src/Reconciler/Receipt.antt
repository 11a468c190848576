-- ===== src/Reconciler/Receipt.antt =====
-- rpc-src/create-reconciler.ts: `receiptCreations` to `rewriteInternalCreations`. `X` is the type of
-- the fields of a receipt that the reconciler does not read.
use openzeppelin_foundry_upg.Base.{
  ℕ, suc, Bool, true, false, not, ◌&&◌, Option, none, some, List, [], ◌∷◌, ◌==◌, nat_eq, list_eq,
  option_eq, match_option, if◌then◌else◌, String,
}
use openzeppelin_foundry_upg.Base.Text.{Text, codes}
use openzeppelin_foundry_upg.Base.Patterns.{to_lower, is_transaction_hash}
use openzeppelin_foundry_upg.Base.Result.{Result, ok, err}
use openzeppelin_foundry_upg.Base.Dict.{Dict, lookup}
use openzeppelin_foundry_upg.Journal.State.{deployment, OperationContext, JournalRecord, Runtime}
use openzeppelin_foundry_upg.Journal.Equality.{same_kind}
use openzeppelin_foundry_upg.Receipts.Creations.{InternalTransaction, internal_create_attempts}
use openzeppelin_foundry_upg.Reconciler.State.{Outcome, returns, ◌>>=◌, ◌>>◌, refuse, demand}
use openzeppelin_foundry_upg.Reconciler.Checks.{bare_id, normalize_trace_address}

pub record ConfirmedReceipt (X : Type 0) : Type 0 where
  pub transaction_hash : Text
  pub from : Text
  pub to : Option Text
  pub contract_address : Option Text
  pub status : Text
  pub native_transaction_id : Text
  pub actual_contract_address : Option Text
  pub internal_transactions : Option (List InternalTransaction)
  pub others : X

pub record ReceiptCreation : Type 0 where
  pub index : ℕ
  pub caller_address : Text
  pub actual_address : Text
  pub success : Bool

-- `catch (error) { throw new CreateReconciliationError('TOP_LEVEL_RECEIPT_MISMATCH', message) }`
abbrev pub top_level : {A : Type 0} → String → Result A → Outcome A
top_level message (ok a) = returns a
top_level message (err e) = refuse "TOP_LEVEL_RECEIPT_MISMATCH" message

unfoldable pub normalize_receipt_hash : Text → Outcome Text
normalize_receipt_hash value =
    if is_transaction_hash value
    then returns (to_lower value)
    else refuse "TOP_LEVEL_RECEIPT_MISMATCH" "Receipt source transaction hash is invalid"

module _ {X : Type 0} (env : Runtime (ConfirmedReceipt X)) where
  -- A confirmed creation, at its index of the filtered list.
  unfoldable pub receipt_creation : ℕ → InternalTransaction → Outcome ReceiptCreation
  receipt_creation index transaction = do
    caller ← normalize_trace_address env transaction.caller_address false
    actual ← normalize_trace_address env transaction.transfer_to_address transaction.rejected
    returns (record {
      index = index;
      caller_address = caller;
      actual_address = actual;
      success = not transaction.rejected;
    })

  unfoldable pub creations_from : ℕ → List InternalTransaction → Outcome (List ReceiptCreation)
  creations_from index [] = returns []
  creations_from index (transaction ∷ rest) = do
    creation ← receipt_creation index transaction
    later ← creations_from (suc index) rest
    returns (creation ∷ later)

  unfoldable pub receipt_creations : ConfirmedReceipt X → Text → Outcome (List ReceiptCreation)
  receipt_creations receipt native_transaction_id = do
    demand (bare_id receipt.native_transaction_id == bare_id native_transaction_id)
        "CHILD_CREATE_MISMATCH" "Confirmed receipt native transaction ID mismatch"
    elim (internal_create_attempts receipt.internal_transactions) [
      | err e ↦ refuse "CHILD_CREATE_MISMATCH" e
      | ok attempts ↦ creations_from 0 attempts
    ]

  -- `toEvmAddress` of a field that may be null, which throws.
  unfoldable pub address_of : Option Text → Result Text
  address_of value = match_option value (err "Invalid address") env.codec.to_evm_address

  unfoldable pub assert_deployment_receipt :
      OperationContext → ConfirmedReceipt X → Outcome (Unit {0})
  assert_deployment_receipt context receipt = do
    predicted ←
        top_level "Confirmed deployment receipt addresses are invalid"
          (address_of receipt.contract_address)
    actual ←
        top_level "Confirmed deployment receipt addresses are invalid"
          (address_of receipt.actual_contract_address)
    demand
        ((receipt.to == none)
          && (some predicted == context.predicted_contract_address)
          && (actual == context.actual_target))
        "TOP_LEVEL_RECEIPT_MISMATCH"
        "Confirmed deployment receipt does not match its predicted and actual addresses"

  unfoldable pub reported_target : ConfirmedReceipt X → Outcome (Option Text)
  reported_target receipt = match_option receipt.actual_contract_address (returns none) (λ value. do
    target ← top_level "Confirmed call native target is invalid" (env.codec.to_evm_address value)
    returns (some target))

  unfoldable pub assert_call_receipt : OperationContext → ConfirmedReceipt X → Outcome (Unit {0})
  assert_call_receipt context receipt = do
    to ← top_level "Confirmed call target is invalid" (address_of receipt.to)
    reported ← reported_target receipt
    demand
        ((some to == context.to)
          && (receipt.contract_address == none)
          && match_option reported true (λ target. target == context.actual_target))
        "TOP_LEVEL_RECEIPT_MISMATCH" "Confirmed call receipt does not match its target"

  unfoldable pub assert_top_level_receipt :
      JournalRecord (ConfirmedReceipt X)
      → OperationContext
      → ConfirmedReceipt X
      → Outcome (Unit {0})
  assert_top_level_receipt r context receipt = do
    from ← top_level "Confirmed receipt sender is invalid" (env.codec.to_evm_address receipt.from)
    demand (receipt.status == codes "0x1") "TOP_LEVEL_RECEIPT_MISMATCH"
        "Confirmed native transaction was not successful"
    hash ← normalize_receipt_hash receipt.transaction_hash
    demand ((hash == r.source_transaction_hash) && (from == context.from))
        "TOP_LEVEL_RECEIPT_MISMATCH"
        "Confirmed receipt does not match its source transaction and sender"
    if same_kind context.kind deployment
        then assert_deployment_receipt context receipt
        else assert_call_receipt context receipt

-- `actualToPredicted.get(address) ?? address`
unfoldable pub predicted_or_same : Dict Text Text → Text → Text
predicted_or_same actual_to_predicted address =
    match_option (lookup address actual_to_predicted) address (λ predicted. predicted)

unfoldable pub rewrite_all : Dict Text Text → List InternalTransaction → List InternalTransaction
rewrite_all actual_to_predicted [] = []
rewrite_all actual_to_predicted (transaction ∷ rest) =
    record transaction {
      caller_address = predicted_or_same actual_to_predicted transaction.caller_address;
      transfer_to_address = predicted_or_same actual_to_predicted transaction.transfer_to_address;
    }
    ∷ rewrite_all actual_to_predicted rest

unfoldable pub rewrite_internal_creations :
    {X : Type 0} → ConfirmedReceipt X → Dict Text Text → ConfirmedReceipt X
rewrite_internal_creations receipt actual_to_predicted = record receipt {
  internal_transactions =
      match_option receipt.internal_transactions none
        (λ transactions. some (rewrite_all actual_to_predicted transactions));
}
