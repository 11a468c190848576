-- ===== src/Reconciler/Derive.antt =====
-- rpc-src/create-reconciler.ts: `derivePlan`. What its loop keeps in three maps is the record
-- `Planning`; each attempt of the simulation takes it on.
use openzeppelin_foundry_upg.Base.{
  ℕ, suc, ◌-◌, true, false, not, ◌&&◌, Option, none, some, List, [], ◌∷◌, eqb, leb, ◌==◌, nat_eq,
  list_eq, match_option, if◌then◌else◌, is_empty, map,
}
use openzeppelin_foundry_upg.Base.Text.{Text, codes}
use openzeppelin_foundry_upg.Base.Dict.{Dict, lookup, insert, has}
use openzeppelin_foundry_upg.AddressMap.State.{AddressMapIndexes}
use openzeppelin_foundry_upg.AddressMap.Mappings.{require_indexes}
use openzeppelin_foundry_upg.AddressMap.Metadata.{resolve_contract_metadata_in_chain}
use openzeppelin_foundry_upg.Journal.State.{
  SimulationMode, exact_signed, constant_create, deployment, OperationContext, ChildCreateMetadata,
  ChildCreateAttempt, Preparation, ReconciliationState, Chain, Runtime,
}
use openzeppelin_foundry_upg.Journal.Equality.{same_kind, same_mode}
use openzeppelin_foundry_upg.Journal.Validation.{validate_operation_context}
use openzeppelin_foundry_upg.Journal.Plan.{create_address}
use openzeppelin_foundry_upg.Reconciler.State.{
  Outcome, returns, ◌>>=◌, ◌>>◌, lift, refuse, demand, RawAttempt, Simulation, Caller,
}
use openzeppelin_foundry_upg.Reconciler.Checks.{
  normalize_trace_address, require_reconciliation, contract_metadata_of, proxy_admin_metadata,
  assert_predicted_child_available, assert_child_mapping_available, validate_simulation,
  assert_constant_profile,
}

-- The callers by their actual addresses, the next nonce of each predicted caller, and the nonce
-- that it starts from.
pub record Planning : Type 0 where
  pub provisional : Dict Text Caller
  pub next_by_caller : Dict Text ℕ
  pub counter_bases : Dict Text ℕ

abbrev pub no_planning : Planning
no_planning = record { provisional = []; next_by_caller = []; counter_bases = [] }

-- `toUpperCase` of an ASCII character
unfoldable pub upper_char : ℕ → ℕ
upper_char c = if leb 97 c && leb c 122 then c - 32 else c

-- The tests on the opcode kind of an attempt.
unfoldable pub check_kind : SimulationMode → Option Text → Outcome (Unit {0})
check_kind mode none =
    if same_mode mode exact_signed
    then refuse "CHILD_CREATE_KIND_UNKNOWN"
        "Child CREATE attempt is missing its opcode kind and cannot be confirmed as plain CREATE"
    else returns tt
check_kind mode (some kind) = do
  demand (not (is_empty kind)) "INVALID_CHILD_CREATE_TRACE" "Invalid child CREATE attempt kind"
  demand (map upper_char kind == codes "CREATE") "CHILD_CREATE2_REJECTED"
      "Child CREATE attempt uses unsupported opcode"

-- The predicted address of the contract that the operation creates or calls.
unfoldable pub predicted_root : OperationContext → Option Text
predicted_root context =
    if same_kind context.kind deployment then context.predicted_contract_address else context.to

-- The nonce that the next child of a caller takes.
unfoldable pub next_nonce_of : ReconciliationState → Text → ℕ
next_nonce_of state caller =
    match_option (lookup caller state.next_nonce_by_caller) 1 (λ nonce. nonce)

-- A caller that is seen for the first time starts from its reserved nonce.
unfoldable pub open_caller : ReconciliationState → Text → Planning → Planning
open_caller state caller p = if has caller p.next_by_caller then p else record p {
  next_by_caller = insert caller (next_nonce_of state caller) p.next_by_caller;
  counter_bases = insert caller (next_nonce_of state caller) p.counter_bases;
}

-- `nextByCaller.get(caller)`, of a caller that is there.
unfoldable pub nonce_of_caller : Text → Planning → ℕ
nonce_of_caller caller p = match_option (lookup caller p.next_by_caller) 1 (λ nonce. nonce)

-- The caller's nonce is taken.
unfoldable pub advance_caller : Text → Planning → Planning
advance_caller caller p = record p {
  next_by_caller = insert caller (suc (nonce_of_caller caller p)) p.next_by_caller;
}

module _ {R : Type 0} (env : Runtime R) where
  unfoldable pub add_caller : Text → Text → Option ChildCreateMetadata → Planning → Outcome Planning
  add_caller actual predicted metadata p = do
    normalized_actual ← normalize_trace_address env actual false
    normalized_predicted ← normalize_trace_address env predicted false
    demand
        (match_option (lookup normalized_actual p.provisional) true
          (λ c. c.predicted == normalized_predicted))
        "CHILD_CREATE_CALLER_CONFLICT" "Conflicting provisional caller mapping"
    returns (record p {
      provisional =
          insert normalized_actual
            (record { predicted = normalized_predicted; metadata = metadata }) p.provisional;
    })

  -- The root, whose predicted address the context may lack.
  unfoldable pub add_root :
      Text → Option Text → Option ChildCreateMetadata → Planning → Outcome Planning
  add_root actual predicted metadata p =
      match_option predicted (refuse "INVALID_CHILD_CREATE_TRACE" "Invalid address")
        (λ address. add_caller actual address metadata p)

  -- The callers that are known before the first attempt.
  unfoldable pub first_callers : SimulationMode → Text → OperationContext → Outcome Planning
  first_callers mode simulation_root_address context = do
    p ← add_caller context.from context.from none no_planning
    let metadata = contract_metadata_of context.contract_kind context.artifact_identity
    q ← add_root context.actual_target (predicted_root context) metadata p
    if same_mode mode constant_create
        then add_root simulation_root_address (predicted_root context) metadata q
        else returns q

  unfoldable pub resolve_caller : Chain R → AddressMapIndexes → Planning → Text → Outcome Caller
  resolve_caller chain indexes p actual =
      match_option (lookup actual p.provisional)
        (match_option
          (match_option (lookup actual indexes.by_actual)
            (if has actual indexes.by_predicted then some actual else none)
            (λ predicted. some predicted))
          (refuse "CHILD_CREATE_CALLER_UNMAPPED" "Cannot reverse-resolve child CREATE caller")
          (λ predicted. do
            found ← lift (resolve_contract_metadata_in_chain env.codec chain.addresses predicted)
            returns (record {
              predicted = predicted;
              metadata = match_option found none (λ m. some (record {
                contract_kind = m.contract_kind;
                artifact_identity = m.artifact_identity;
              }));
            })))
        returns

  module _ (chain : Chain R) (indexes : AddressMapIndexes) (state : ReconciliationState)
      (mode : SimulationMode) (context : OperationContext) where
    -- The child of a successful attempt is new, and may call in its turn.
    unfoldable pub plan_child :
        Text → Text → Option ChildCreateMetadata → Planning → Outcome Planning
    plan_child predicted_address actual_address metadata p = do
      if same_mode mode exact_signed
          then assert_child_mapping_available env chain indexes predicted_address actual_address
              metadata
          else assert_predicted_child_available env chain indexes predicted_address metadata
      add_caller actual_address predicted_address metadata p

    unfoldable pub plan_attempt :
        Planning → ℕ → RawAttempt → Outcome (Planning × ChildCreateAttempt)
    plan_attempt p index raw = do
      check_kind mode raw.kind
      demand (match_option raw.index true (λ i. eqb i index)) "INVALID_CHILD_CREATE_TRACE"
          "Child CREATE attempt order is invalid"
      actual_caller ← normalize_trace_address env raw.caller_address false
      simulated ← normalize_trace_address env raw.created_address (not raw.success)
      caller ← resolve_caller chain indexes p actual_caller
      let opened = open_caller state caller.predicted p
      let nonce = nonce_of_caller caller.predicted opened
      let advanced = advance_caller caller.predicted opened
      let predicted_address = create_address env caller.predicted nonce
      metadata ←
          if raw.success then proxy_admin_metadata context caller.predicted nonce else returns none
      later ←
          if raw.success
          then plan_child predicted_address simulated metadata advanced
          else returns advanced
      returns (
        later,
        record {
          index = index;
          actual_caller = actual_caller;
          predicted_caller = caller.predicted;
          nonce = nonce;
          predicted_address = predicted_address;
          simulated_actual_address = simulated;
          success = raw.success;
          child_metadata = metadata;
        },
      )

    unfoldable pub plan_attempts :
        Planning → ℕ → List RawAttempt → Outcome (Planning × List ChildCreateAttempt)
    plan_attempts p index [] = returns (p, [])
    plan_attempts p index (raw ∷ rest) = do
      first ← plan_attempt p index raw
      later ← plan_attempts first.0 (suc index) rest
      returns (later.0, first.1 ∷ later.1)

  unfoldable pub derive_plan : Chain R → Simulation → OperationContext → Text → Outcome Preparation
  derive_plan chain simulation raw_operation_context native_transaction_id = do
    context ← lift (validate_operation_context env raw_operation_context)
    validated ← validate_simulation env simulation native_transaction_id
    let mode = validated.mode
    assert_constant_profile env mode validated.simulation_root_address validated.attempts context
    indexes ← lift (require_indexes env.codec chain.addresses)
    state ← require_reconciliation env chain
    start ← first_callers mode validated.simulation_root_address context
    planned ← plan_attempts chain indexes state mode context start 0 validated.attempts
    returns (record {
      operation_context = context;
      child_create_plan = record {
        version = 1;
        mode = mode;
        sender = context.from;
        simulation_root_address = validated.simulation_root_address;
        attempts = planned.1;
        counter_bases = planned.0.counter_bases;
        counter_finals = planned.0.next_by_caller;
      };
    })
