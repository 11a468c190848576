-- ===== src/Reconciler/ReceiptEquality.antt =====
-- rpc-src/create-reconciler.ts: equality of receipts, as `isDeepStrictEqual` decides it in the journal.
use openzeppelin_foundry_upg.Base.{
  ◌≡◌, ◌↔◌, Bool, true, ◌&&◌, Eq, ◌==◌, nat_eq, list_eq, option_eq, arith, option_beq_iff,
}
use openzeppelin_foundry_upg.Base.Text.{text_iff}
use openzeppelin_foundry_upg.Journal.Equality.{same_bool}
use openzeppelin_foundry_upg.Receipts.Creations.{InternalTransaction}
use openzeppelin_foundry_upg.Reconciler.Receipt.{ConfirmedReceipt}

unfoldable pub same_internal : InternalTransaction → InternalTransaction → Bool
same_internal a b =
    (a.hash == b.hash)
    && (a.caller_address == b.caller_address)
    && (a.transfer_to_address == b.transfer_to_address)
    && (a.note == b.note)
    && same_bool a.rejected b.rejected

pub same_internal_iff : (a b : InternalTransaction) → (same_internal a b ≡ true) ↔ (a ≡ b)
unfolding same_internal same_bool
same_internal_iff a b = ground (
  arith,
  text_iff a.hash b.hash,
  text_iff a.caller_address b.caller_address,
  text_iff a.transfer_to_address b.transfer_to_address,
  option_beq_iff a.note b.note,
)

instance abbrev pub internal_eq : Eq InternalTransaction
internal_eq = record { beq = same_internal; beq_iff = same_internal_iff }

module _ {X : Type 0} where
  unfoldable pub same_outline : ConfirmedReceipt X → ConfirmedReceipt X → Bool
  same_outline a b =
      (a.transaction_hash == b.transaction_hash)
      && (a.from == b.from)
      && (a.to == b.to)
      && (a.contract_address == b.contract_address)
      && (a.status == b.status)

  same_outline_iff :
      (a b : ConfirmedReceipt X)
      → (same_outline a b ≡ true) ↔ (
          (a.transaction_hash ≡ b.transaction_hash)
          × (a.from ≡ b.from)
          × (a.to ≡ b.to)
          × (a.contract_address ≡ b.contract_address)
          × (a.status ≡ b.status))
  unfolding same_outline
  same_outline_iff a b = ground (
    arith,
    text_iff a.transaction_hash b.transaction_hash,
    text_iff a.from b.from,
    option_beq_iff a.to b.to,
    option_beq_iff a.contract_address b.contract_address,
    text_iff a.status b.status,
  )

module _ {X : Type 0} ⦃e : Eq X⦄ where
  unfoldable pub same_details : ConfirmedReceipt X → ConfirmedReceipt X → Bool
  same_details a b =
      (a.native_transaction_id == b.native_transaction_id)
      && (a.actual_contract_address == b.actual_contract_address)
      && (a.internal_transactions == b.internal_transactions)
      && (a.others == b.others)

  same_details_iff :
      (a b : ConfirmedReceipt X)
      → (same_details a b ≡ true) ↔ (
          (a.native_transaction_id ≡ b.native_transaction_id)
          × (a.actual_contract_address ≡ b.actual_contract_address)
          × (a.internal_transactions ≡ b.internal_transactions)
          × (a.others ≡ b.others))
  unfolding same_details
  same_details_iff a b = ground (
    arith,
    text_iff a.native_transaction_id b.native_transaction_id,
    option_beq_iff a.actual_contract_address b.actual_contract_address,
    option_beq_iff a.internal_transactions b.internal_transactions,
    e.beq_iff a.others b.others,
  )

  unfoldable pub same_receipt : ConfirmedReceipt X → ConfirmedReceipt X → Bool
  same_receipt a b = same_outline a b && same_details a b

  pub same_receipt_iff : (a b : ConfirmedReceipt X) → (same_receipt a b ≡ true) ↔ (a ≡ b)
  unfolding same_receipt
  same_receipt_iff a b = ground (arith, same_outline_iff a b, same_details_iff a b)

  instance abbrev pub receipt_eq : Eq (ConfirmedReceipt X)
  receipt_eq = record { beq = same_receipt; beq_iff = same_receipt_iff }
