-- ===== src/Journal/Examples.antt =====
-- A run of the journal: a transaction is received, built and broadcast.
use openzeppelin_foundry_upg.Store.State.{
  empty_state, check_identity, is_forbidden, is_identity_char, is_identity_start, matches_identity,
  validate_chain_identity, validate_state,
}
use openzeppelin_foundry_upg.Store.Refinement.{view}
use openzeppelin_foundry_upg.Store.Files.{
  look_up, effect, look, remove_temporary, is_ignored, perform_all, sync_ending, write_state, holds,
  Files, Faults, sync_directory,
}
use openzeppelin_foundry_upg.Store.Transactions.{
  found_file, chain_or_blank, parse, prepare, read_state, transaction, JsonStore,
}
use openzeppelin_foundry_upg.Journal.Durable.{
  durable_call, DurableCall, stored_records, run_durable, durable_nonces_once, durable_records_last,
}
use openzeppelin_foundry_upg.Journal.Plan.{
  check_final, check_final_at_least, create_address, keys_in, same_keys, validate_attempt,
  validate_attempts, validate_child_create_plan, validate_preparation,
}
use openzeppelin_foundry_upg.Journal.Equality.{
  same_failure, same_native, entries_in, same_attempt, same_attempts, same_bool,
  same_child_metadata, same_context, same_counters, same_kind, same_mode, same_plan,
}
use openzeppelin_foundry_upg.AddressMap.Equality.{same_identity}
use openzeppelin_foundry_upg.Base.Loops.{each}
use openzeppelin_foundry_upg.Base.Tests.{option_beq, list_beq}
use openzeppelin_foundry_upg.Journal.Records.{
  require_record, check_built, check_confirmed, check_entry, check_failed, check_native,
  check_receipt, check_received, check_state, has_fields, same_preparation, validate_record,
  require_journal,
}
use openzeppelin_foundry_upg.Base.Patterns.{
  is_canonical_hex, is_contract_kind, is_digit, is_hex_lower, is_kind_char, is_lower, lower_char,
  is_hex, to_lower,
}
use openzeppelin_foundry_upg.Journal.Validation.{
  check_counter, durable_receipt, is_alphanumeric, is_coherent, is_native_id, is_owner_char,
  is_owner_id, is_some, normalize_address, normalize_source_hash, nullable, valid_or_null,
  validate_artifact_identity, validate_child_metadata, validate_counter_map, validate_failure,
  validate_native_transaction, validate_operation_context, validate_owner_id, is_hex_bytes,
  normalize_source_transaction, starts_0x, strip_0x,
}
use openzeppelin_foundry_upg.Base.{
  inr, false, is_empty, ◌≡◌, refl, true, none, some, List, [], ◌∷◌, replicate, ◌++◌, nat_eq,
  list_eq, option_eq, ℕ, drop,
}
use openzeppelin_foundry_upg.Base.Text.{Text, codes}
use openzeppelin_foundry_upg.Base.Result.{ok}
use openzeppelin_foundry_upg.Base.Dict.{has, insert, lookup}
use openzeppelin_foundry_upg.Codec.{plain_codec}
use openzeppelin_foundry_upg.AddressMap.State.{empty_chain}
use openzeppelin_foundry_upg.Journal.State.{
  broadcast, call, exact_signed, NativeTransaction, OperationContext, ChildCreatePlan, Preparation,
  JournalRecord, Chain, Runtime, ReceiveResult,
}
use openzeppelin_foundry_upg.Journal.Operations.{
  is_claimed_by, is_state, nonce_in_flight, record_confirmed_in_chain, record_failed_in_chain,
  record_retained_failure_in_chain, recover_received_in_chain, same_built,
  record_broadcast_in_chain, record_native_built_in_chain, occupies, put_record, fresh_record,
  built_record, receive_in_chain, occupies_nonce,
}
use openzeppelin_foundry_upg.Journal.Moves.{records_of}
use openzeppelin_foundry_upg.Journal.Requests.{
  callback, perform, Request, receives, records_native_built, records_broadcast, run,
}
use openzeppelin_foundry_upg.Journal.Nonces.{nonces_once}
use openzeppelin_foundry_upg.Journal.Lifecycle.{IsLater, records_last, received_once}

-- Receipts are numbers here, and the hash keeps the last digits of a transaction.
abbrev pub env : Runtime ℕ
env = record {
  codec = plain_codec;
  keccak256 = λ t. (48 ∷ 120 ∷ replicate 62 97) ++ drop 2 t;
  get_create_address = λ from nonce. from;
  json_safe = λ r. true;
}

abbrev pub alice : Text
alice = codes "alice"

abbrev pub signed : Text
signed = codes "0x01"

abbrev pub hash : Text
hash = (48 ∷ 120 ∷ replicate 62 97) ++ codes "01"

abbrev pub native : NativeTransaction
native = record {
  signed_native_transaction = codes "0a0b";
  native_transaction_id = replicate 64 98;
}

abbrev pub context : OperationContext
context = record {
  kind = call;
  from = alice;
  to = some (codes "box");
  nonce = 7;
  predicted_contract_address = none;
  actual_target = codes "native box";
  contract_kind = none;
  artifact_identity = none;
  provenance_hash = none;
}

abbrev pub plan : ChildCreatePlan
plan = record {
  version = 1;
  mode = exact_signed;
  sender = alice;
  simulation_root_address = codes "native box";
  attempts = [];
  counter_bases = [];
  counter_finals = [];
}

abbrev prepared : Preparation
prepared = record { operation_context = context; child_create_plan = plan }

abbrev pub new_chain : Chain ℕ
new_chain = record {
  addresses = empty_chain;
  transaction_journal = none;
  child_create_reconciliation = none;
}

abbrev pub arrived : JournalRecord ℕ
arrived = fresh_record (codes "gateway") hash signed

abbrev sent : JournalRecord ℕ
sent = record (built_record native prepared arrived) { state = broadcast }

abbrev pub chain_with : JournalRecord ℕ → Chain ℕ
chain_with r = record new_chain {
  transaction_journal = some (record { version = 1; records = (hash, r) ∷ [] });
}

abbrev calls : List (Text × Request ℕ)
calls =
    (codes "gateway", records_native_built hash native prepared)
    ∷ (codes "gateway", records_broadcast hash)
    ∷ []

abbrev asked : ReceiveResult ℕ
asked = record { journal_record = arrived; should_build = true }

abbrev refused : ReceiveResult ℕ
refused = record { journal_record = sent; should_build = false }

received_signed :
    receive_in_chain env (codes "gateway") signed new_chain ≡ ok (chain_with arrived, asked)
unfolding receive_in_chain normalize_source_transaction starts_0x is_hex_bytes is_empty strip_0x
    is_hex require_journal lookup put_record to_lower insert
received_signed = refl

received_again :
    receive_in_chain env (codes "gateway") signed (chain_with sent) ≡ ok (chain_with sent, refused)
unfolding receive_in_chain normalize_source_transaction starts_0x is_hex_bytes is_empty strip_0x
    is_hex require_journal each check_entry is_canonical_hex validate_record normalize_source_hash
    to_lower list_beq check_state check_native check_built same_identity has insert lookup
    is_contract_kind is_digit is_hex_lower is_kind_char is_lower lower_char option_beq entries_in
    same_attempt same_attempts same_bool same_child_metadata same_context same_counters same_kind
    same_mode same_plan put_record check_final check_final_at_least create_address keys_in same_keys
    validate_attempt validate_attempts validate_child_create_plan validate_preparation
    check_confirmed check_failed check_receipt check_received has_fields same_preparation
    check_counter durable_receipt is_alphanumeric is_coherent is_native_id is_owner_char is_owner_id
    is_some normalize_address nullable valid_or_null validate_artifact_identity
    validate_child_metadata validate_counter_map validate_failure validate_native_transaction
    validate_operation_context validate_owner_id
received_again = refl

calls_done : run env calls (chain_with arrived) ≡ chain_with sent
unfolding run perform record_broadcast_in_chain normalize_source_hash is_canonical_hex to_lower
    require_journal record_native_built_in_chain validate_native_transaction is_hex_bytes is_empty
    strip_0x is_hex is_native_id validate_preparation validate_operation_context valid_or_null
    normalize_address nullable is_coherent is_some validate_child_create_plan validate_counter_map
    each same_keys keys_in validate_attempts list_beq check_entry validate_record
    normalize_source_transaction starts_0x check_state check_received validate_owner_id
    same_identity has insert lookup is_contract_kind is_digit is_hex_lower is_kind_char is_lower
    lower_char option_beq entries_in same_attempt same_attempts same_bool same_child_metadata
    same_context same_counters same_failure same_kind same_mode same_native same_plan is_claimed_by
    is_state nonce_in_flight occupies occupies_nonce put_record receive_in_chain
    record_confirmed_in_chain record_failed_in_chain record_retained_failure_in_chain
    recover_received_in_chain same_built check_final check_final_at_least create_address
    validate_attempt check_built check_confirmed check_failed check_native check_receipt has_fields
    require_record same_preparation check_counter durable_receipt is_alphanumeric is_owner_char
    is_owner_id validate_artifact_identity validate_child_metadata validate_failure callback
calls_done = refl

sent_all :
    lookup hash (records_of (run env ((codes "gateway", receives signed) ∷ calls) new_chain))
    ≡ some sent
unfolding run lookup records_of perform record_broadcast_in_chain normalize_source_hash
    is_canonical_hex to_lower require_journal record_native_built_in_chain
    validate_native_transaction is_hex_bytes is_empty strip_0x is_hex is_native_id
    validate_preparation validate_operation_context valid_or_null normalize_address nullable
    is_coherent is_some validate_child_create_plan validate_counter_map each same_keys keys_in
    validate_attempts list_beq receive_in_chain normalize_source_transaction starts_0x put_record
    insert same_identity has is_contract_kind is_digit is_hex_lower is_kind_char is_lower lower_char
    option_beq entries_in same_attempt same_attempts same_bool same_child_metadata same_context
    same_counters same_failure same_kind same_mode same_native same_plan is_claimed_by is_state
    nonce_in_flight occupies occupies_nonce record_confirmed_in_chain record_failed_in_chain
    record_retained_failure_in_chain recover_received_in_chain same_built check_final
    check_final_at_least create_address validate_attempt check_built check_confirmed check_entry
    check_failed check_native check_receipt check_received check_state has_fields require_record
    same_preparation validate_record check_counter durable_receipt is_alphanumeric is_owner_char
    is_owner_id validate_artifact_identity validate_child_metadata validate_failure
    validate_owner_id callback
sent_all = refl

sent_keeps : occupies_nonce alice 7 sent ≡ true
unfolding occupies_nonce occupies list_beq
sent_keeps = refl

arrived_there : lookup hash (records_of (chain_with arrived)) ≡ some arrived
unfolding lookup records_of list_beq
arrived_there = refl

nonces_once_example : hash ≡ hash
nonces_once_example =
    nonces_once env ((codes "gateway", receives signed) ∷ calls) new_chain refl hash hash sent sent
      alice 7 sent_all sent_all sent_keeps sent_keeps

records_last_example :
    (after : JournalRecord ℕ) × (lookup hash (records_of (run env calls (chain_with arrived)))
      ≡ some after)
    × IsLater arrived after
records_last_example = records_last env calls (chain_with arrived) hash arrived arrived_there

received_once_example : refused.should_build ≡ false
received_once_example =
    received_once env (codes "gateway") (codes "gateway") signed new_chain (chain_with arrived)
      (chain_with sent) (chain_with sent) asked refused calls received_signed calls_done
      received_again

-- The store of the command line, which does not create a missing file.
abbrev disk : JsonStore (Chain ℕ)
disk = record { create_if_missing = false; assert_writable = ok tt; blank = new_chain }

-- The file that `createStateFile` writes.
abbrev new_files : Files (Chain ℕ)
new_files = record { target = some (holds empty_state); temporary = none; seen = [] }

-- The directory cannot be synchronised.
abbrev late_fault : Faults
late_fault sync_directory = some (codes "EIO")
late_fault _ = none

-- The state file cannot be looked up.
abbrev unseen_fault : Faults
unseen_fault look_up = some (codes "EACCES")
unseen_fault _ = none

abbrev durable_calls : List (DurableCall ℕ)
durable_calls =
    record { faults = late_fault; owner = codes "gateway"; request = receives signed }
    ∷ record {
      faults = unseen_fault;
      owner = codes "gateway";
      request = records_native_built hash native prepared;
    }
    ∷ record {
      faults = late_fault;
      owner = codes "gateway";
      request = records_native_built hash native prepared;
    }
    ∷ []

abbrev waiting_to_send : JournalRecord ℕ
waiting_to_send = built_record native prepared arrived

abbrev stored_files : Files (Chain ℕ)
stored_files = record {
  target = some (holds (record { version = 1; chains = (codes "tron", chain_with arrived) ∷ [] }));
  temporary = none;
  seen = [];
}

stored_arrived : lookup hash (stored_records env disk (codes "tron") stored_files) ≡ some arrived
unfolding stored_records lookup records_of view read_state parse validate_state each check_identity
    validate_chain_identity matches_identity is_identity_start is_digit is_lower is_identity_char
    is_forbidden list_beq found_file run_durable durable_call transaction prepare callback
    receive_in_chain normalize_source_transaction starts_0x is_hex_bytes is_empty strip_0x is_hex
    require_journal chain_or_blank insert write_state perform_all sync_ending is_ignored
    remove_temporary look effect record_native_built_in_chain normalize_source_hash is_canonical_hex
    to_lower validate_native_transaction is_native_id validate_preparation
    validate_operation_context valid_or_null normalize_address nullable is_coherent is_some
    same_identity has is_contract_kind is_hex_lower is_kind_char lower_char option_beq entries_in
    same_attempt same_attempts same_bool same_child_metadata same_context same_counters same_failure
    same_kind same_mode same_native same_plan is_claimed_by is_state nonce_in_flight occupies
    occupies_nonce put_record record_broadcast_in_chain record_confirmed_in_chain
    record_failed_in_chain record_retained_failure_in_chain recover_received_in_chain same_built
    check_final check_final_at_least create_address keys_in same_keys validate_attempt
    validate_attempts validate_child_create_plan check_built check_confirmed check_entry
    check_failed check_native check_receipt check_received check_state has_fields require_record
    same_preparation validate_record check_counter durable_receipt is_alphanumeric is_owner_char
    is_owner_id validate_artifact_identity validate_child_metadata validate_counter_map
    validate_failure validate_owner_id
stored_arrived = refl

stored_built :
    lookup hash (
      stored_records env disk
        (codes "tron")
        (run_durable env disk (codes "tron") durable_calls new_files))
    ≡ some waiting_to_send
unfolding run_durable lookup stored_records records_of view read_state durable_call transaction
    prepare validate_chain_identity matches_identity is_identity_start is_digit is_lower
    is_identity_char is_forbidden list_beq callback receive_in_chain normalize_source_transaction
    starts_0x is_hex_bytes is_empty strip_0x is_hex require_journal chain_or_blank validate_state
    each insert check_identity write_state perform_all sync_ending is_ignored remove_temporary look
    effect parse record_native_built_in_chain normalize_source_hash is_canonical_hex to_lower
    validate_native_transaction is_native_id validate_preparation validate_operation_context
    valid_or_null normalize_address nullable is_coherent is_some same_identity has is_contract_kind
    is_hex_lower is_kind_char lower_char option_beq entries_in same_attempt same_attempts same_bool
    same_child_metadata same_context same_counters same_failure same_kind same_mode same_native
    same_plan is_claimed_by is_state nonce_in_flight occupies occupies_nonce put_record
    record_broadcast_in_chain record_confirmed_in_chain record_failed_in_chain
    record_retained_failure_in_chain recover_received_in_chain same_built check_final
    check_final_at_least create_address keys_in same_keys validate_attempt validate_attempts
    validate_child_create_plan check_built check_confirmed check_entry check_failed check_native
    check_receipt check_received check_state has_fields require_record same_preparation
    validate_record check_counter durable_receipt is_alphanumeric is_owner_char is_owner_id
    validate_artifact_identity validate_child_metadata validate_counter_map validate_failure
    validate_owner_id found_file
stored_built = refl

built_keeps : occupies_nonce alice 7 waiting_to_send ≡ true
unfolding occupies_nonce occupies list_beq
built_keeps = refl

durable_nonces_once_example : hash ≡ hash
durable_nonces_once_example =
    durable_nonces_once env disk (codes "tron") durable_calls new_files (inr refl) refl hash hash
      waiting_to_send waiting_to_send alice 7 stored_built stored_built built_keeps built_keeps

durable_records_last_example :
    (after : JournalRecord ℕ) × (lookup hash (
        stored_records env disk
          (codes "tron")
          (run_durable env disk (codes "tron") (drop 1 durable_calls) stored_files))
      ≡ some after)
    × IsLater arrived after
durable_records_last_example =
    durable_records_last env disk (codes "tron") (drop 1 durable_calls) stored_files hash arrived
      refl stored_arrived
