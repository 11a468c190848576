-- ===== src/Reconciler/SettlingExamples.antt =====
-- Witness of the reconciliation: the receipt of the factory call.
use openzeppelin_foundry_upg.Base.{
  ℕ, ◌≡◌, true, false, none, some, [], ◌∷◌, ◌++◌, replicate, drop, nat_eq, list_eq, option_eq,
}
use openzeppelin_foundry_upg.Base.Text.{codes}
use openzeppelin_foundry_upg.Codec.{plain_codec}
use openzeppelin_foundry_upg.AddressMap.State.{empty_chain}
use openzeppelin_foundry_upg.Journal.State.{broadcast, Preparation, JournalRecord, Chain, Runtime}
use openzeppelin_foundry_upg.Journal.Operations.{built_record, fresh_record}
use openzeppelin_foundry_upg.Journal.Examples.{alice, signed, hash, native, context}
use openzeppelin_foundry_upg.Receipts.Creations.{InternalTransaction}
use openzeppelin_foundry_upg.Reconciler.Examples.{factory_plan}
use openzeppelin_foundry_upg.Reconciler.Receipt.{ConfirmedReceipt}
use openzeppelin_foundry_upg.Reconciler.ReceiptEquality.{receipt_eq}
use openzeppelin_foundry_upg.Reconciler.Reconcile.{reconcile}
use openzeppelin_foundry_upg.Reconciler.Preparing.{counter}
use openzeppelin_foundry_upg.Reconciler.Settling.{reconcile_counters}

abbrev settling_env : Runtime (ConfirmedReceipt ℕ)
settling_env = record {
  codec = plain_codec;
  keccak256 = λ t. (48 ∷ 120 ∷ replicate 62 97) ++ drop 2 t;
  get_create_address = λ from nonce. from;
  json_safe = λ r. true;
}

abbrev created : InternalTransaction
created = record {
  hash = codes "child";
  caller_address = codes "native box";
  transfer_to_address = codes "native child";
  note = some (codes "create");
  rejected = false;
}

abbrev receipt : ConfirmedReceipt ℕ
receipt = record {
  transaction_hash = hash;
  from = alice;
  to = some (codes "box");
  contract_address = none;
  status = codes "0x1";
  native_transaction_id = native.native_transaction_id;
  actual_contract_address = some (codes "native box");
  internal_transactions = some (created ∷ []);
  others = 0;
}

abbrev factory_call : Preparation
factory_call = record { operation_context = context; child_create_plan = factory_plan }

abbrev sent : JournalRecord (ConfirmedReceipt ℕ)
sent = record (built_record native factory_call (fresh_record (codes "gateway") hash signed)) {
  state = broadcast;
}

abbrev sent_chain : Chain (ConfirmedReceipt ℕ)
sent_chain = record {
  addresses = empty_chain;
  transaction_journal = some (record { version = 1; records = (hash, sent) ∷ [] });
  child_create_reconciliation =
      some (record { version = 1; next_nonce_by_caller = (codes "box", 2) ∷ [] });
}

reconcile_counters_example :
    counter (reconcile settling_env hash receipt sent_chain).0 (codes "box")
    ≡ counter sent_chain (codes "box")
reconcile_counters_example = reconcile_counters settling_env hash receipt sent_chain (codes "box")
