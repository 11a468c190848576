-- ===== src/Reconciler/Examples.antt =====
-- Tests and witnesses of the reconciler: a factory call that creates one child.
use openzeppelin_foundry_upg.Base.{◌⊎◌, ap}
use openzeppelin_foundry_upg.AddressMap.Mappings.{empty_indexes, require_indexes}
use openzeppelin_foundry_upg.Journal.Equality.{same_kind, same_mode}
use openzeppelin_foundry_upg.Reconciler.Checks.{
  assert_available, assert_child_mapping_available, deploys_transparent_proxy, empty_reconciliation,
  proxy_admin_metadata, assert_constant_profile, bare_id, normalize_trace_address,
  require_reconciliation, validate_simulation,
}
use openzeppelin_foundry_upg.Reconciler.Derive.{
  advance_caller, next_nonce_of, nonce_of_caller, open_caller, plan_child, add_caller, add_root,
  check_kind, first_callers, plan_attempt, plan_attempts, predicted_root, resolve_caller,
  upper_char, derive_plan,
}
use openzeppelin_foundry_upg.Base.Loops.{each}
use openzeppelin_foundry_upg.Base.Patterns.{
  is_canonical_hex, is_contract_kind, is_digit, is_hex, is_kind_char, is_lower, lower_char,
  to_lower,
}
use openzeppelin_foundry_upg.Journal.Validation.{
  is_native_id, validate_native_transaction, is_alphanumeric, is_coherent, is_owner_char,
  is_owner_id, is_some, normalize_source_hash, valid_or_null, validate_operation_context,
  validate_owner_id, check_counter, is_hex_bytes, normalize_address, normalize_source_transaction,
  nullable, starts_0x, strip_0x, validate_artifact_identity, validate_child_metadata,
  validate_counter_map,
}
use openzeppelin_foundry_upg.Journal.Records.{
  require_record, check_entry, check_received, check_state, has_fields, validate_record,
  require_journal,
}
use openzeppelin_foundry_upg.Reconciler.Prepare.{
  reserve_all, reserve_child_create_counters, was_received, prepare_in_chain,
  record_prepared_native,
}
use openzeppelin_foundry_upg.Base.Tests.{list_beq, option_beq}
use openzeppelin_foundry_upg.Base.{
  ◌⊎◌, is_empty, ℕ, ◌≡◌, ◌<◌, refl, true, false, none, some, List, [], ◌∷◌, nat_eq, list_eq, arith,
}
use openzeppelin_foundry_upg.Base.Text.{Text, codes}
use openzeppelin_foundry_upg.Base.Dict.{has, insert, lookup}
use openzeppelin_foundry_upg.Base.Result.{ok}
use openzeppelin_foundry_upg.Journal.State.{
  exact_signed, ChildCreateAttempt, ChildCreatePlan, JournalRecord, Chain,
}
use openzeppelin_foundry_upg.Journal.Operations.{
  is_claimed_by, is_state, nonce_in_flight, record_native_built_in_chain, put_record,
  receive_in_chain, built_record,
}
use openzeppelin_foundry_upg.Journal.Moves.{records_of}
use openzeppelin_foundry_upg.Journal.Requests.{callback, perform, Request, receives, is_building}
use openzeppelin_foundry_upg.Journal.Plan.{
  validate_preparation, check_final, check_final_at_least, create_address, keys_in, same_keys,
  validate_attempt, validate_attempts, validate_child_create_plan,
}
use openzeppelin_foundry_upg.Journal.Attempts.{slots, Range, plan_slots}
use openzeppelin_foundry_upg.Journal.Examples.{
  env, alice, signed, hash, native, context, new_chain, arrived, chain_with,
}
use openzeppelin_foundry_upg.Reconciler.State.{RawAttempt, Simulation}
use openzeppelin_foundry_upg.Reconciler.Reserving.{slots_of}
use openzeppelin_foundry_upg.Reconciler.Preparing.{counter}
use openzeppelin_foundry_upg.Reconciler.Slots.{
  perform_call, Call, prepares, asks, run_calls, slots_once, slots_reserved,
}

abbrev raw : RawAttempt
raw = record {
  kind = some (codes "create");
  index = some 0;
  caller_address = codes "native box";
  created_address = codes "native child";
  success = true;
}

abbrev simulation : Simulation
simulation = record {
  trace_complete = true;
  mode = exact_signed;
  native_transaction_id = native.native_transaction_id;
  simulation_root_address = codes "native box";
  child_create_attempts = raw ∷ [];
}

abbrev attempt : ChildCreateAttempt
attempt = record {
  index = 0;
  actual_caller = codes "native box";
  predicted_caller = codes "box";
  nonce = 1;
  predicted_address = codes "box";
  simulated_actual_address = codes "native child";
  success = true;
  child_metadata = none;
}

abbrev pub factory_plan : ChildCreatePlan
factory_plan = record {
  version = 1;
  mode = exact_signed;
  sender = alice;
  simulation_root_address = codes "native box";
  attempts = attempt ∷ [];
  counter_bases = (codes "box", 1) ∷ [];
  counter_finals = (codes "box", 2) ∷ [];
}

abbrev made : JournalRecord ℕ
made =
    built_record native (record { operation_context = context; child_create_plan = factory_plan })
      arrived

abbrev after : Chain ℕ
after = record (chain_with made) {
  child_create_reconciliation =
      some (record { version = 1; next_nonce_by_caller = (codes "box", 2) ∷ [] });
}

abbrev arrival : Request ℕ
arrival = receives signed

plain : is_building arrival ≡ false
unfolding is_building
plain = refl

abbrev calls : List (Text × Call ℕ)
calls =
    (codes "gateway", asks arrival plain)
    ∷ (codes "gateway", prepares hash native simulation context)
    ∷ []

calls_made : run_calls env calls new_chain ≡ after
unfolding run_calls perform_call record_prepared_native prepare_in_chain require_journal perform
    callback receive_in_chain normalize_source_transaction starts_0x is_hex_bytes is_empty strip_0x
    is_hex lookup put_record each insert validate_child_create_plan validate_counter_map
    check_counter normalize_address list_beq same_keys keys_in has check_final_at_least
    validate_attempts validate_attempt option_beq create_address to_lower nullable records_of
    slots_of slots check_final is_contract_kind is_digit is_kind_char is_lower lower_char
    validate_artifact_identity validate_child_metadata check_entry is_canonical_hex validate_record
    normalize_source_hash check_state check_received validate_owner_id is_owner_id is_alphanumeric
    is_owner_char has_fields is_some derive_plan validate_operation_context valid_or_null
    is_coherent validate_simulation bare_id assert_constant_profile same_mode require_indexes
    require_reconciliation first_callers add_caller add_root predicted_root same_kind plan_attempts
    plan_attempt check_kind upper_char resolve_caller normalize_trace_address proxy_admin_metadata
    deploys_transparent_proxy plan_child assert_child_mapping_available assert_available
    empty_indexes advance_caller open_caller record_native_built_in_chain
    validate_native_transaction is_native_id validate_preparation next_nonce_of empty_reconciliation
    nonce_of_caller require_record nonce_in_flight was_received reserve_child_create_counters
    reserve_all is_state is_claimed_by
calls_made = refl

factory_plan_accepted : validate_child_create_plan env factory_plan ≡ ok factory_plan
unfolding validate_child_create_plan validate_counter_map each check_counter normalize_address
    list_beq same_keys keys_in has check_final_at_least validate_attempts validate_attempt
    option_beq create_address to_lower nullable insert check_final lookup is_empty is_contract_kind
    is_digit is_kind_char is_lower lower_char validate_artifact_identity validate_child_metadata
factory_plan_accepted = refl

made_found : lookup hash (records_of (run_calls env calls new_chain)) ≡ some made
unfolding lookup records_of list_beq
made_found = ap (λ (c : Chain ℕ). lookup hash (records_of c)) calls_made

made_takes : 0 < slots_of (codes "box") 1 made
unfolding slots_of slots list_beq
made_takes = omega arith

plan_slots_example :
    (factory_plan.counter_bases ≡ factory_plan.counter_bases)
    × (factory_plan.counter_finals ≡ factory_plan.counter_finals)
    × ((slots (codes "box") 1 factory_plan.attempts ≡ 0)
        ⊎ ((slots (codes "box") 1 factory_plan.attempts ≡ 1)
            × Range factory_plan.counter_bases factory_plan.counter_finals (codes "box") 1))
plan_slots_example = plan_slots env factory_plan factory_plan (codes "box") 1 factory_plan_accepted

slots_once_example : hash ≡ hash
slots_once_example =
    slots_once env calls new_chain refl hash hash made made (codes "box") 1 made_found made_found
      made_takes made_takes

slots_reserved_example : 1 < counter (run_calls env calls new_chain) (codes "box")
slots_reserved_example =
    slots_reserved env calls new_chain refl hash made (codes "box") 1 made_found made_takes
