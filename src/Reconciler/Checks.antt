-- ===== src/Reconciler/Checks.antt =====
-- rpc-src/create-reconciler.ts: `normalizeAddress` to `assertConstantProfile`.
use openzeppelin_foundry_upg.Base.{
  ℕ, Bool, true, false, not, ◌&&◌, ◌||◌, Option, none, some, List, [], ◌∷◌, eqb, leb, ◌==◌, nat_eq,
  list_eq, option_eq, match_option, if◌then◌else◌, is_empty,
}
use openzeppelin_foundry_upg.Base.Text.{Text, codes}
use openzeppelin_foundry_upg.Base.Patterns.{to_lower}
use openzeppelin_foundry_upg.Base.Result.{ok, err}
use openzeppelin_foundry_upg.Base.Dict.{Dict, has}
use openzeppelin_foundry_upg.AddressMap.State.{
  ArtifactIdentity, AddressMapIndexes, ContractMetadata,
}
use openzeppelin_foundry_upg.AddressMap.Mappings.{zero_address}
use openzeppelin_foundry_upg.AddressMap.Metadata.{resolve_contract_metadata_in_chain}
use openzeppelin_foundry_upg.Identities.{is_transparent_proxy, derived_tron_proxy_admin_identity}
use openzeppelin_foundry_upg.Journal.State.{
  SimulationMode, exact_signed, constant_create, constant_call, deployment, OperationContext,
  ChildCreateMetadata, ReconciliationState, Chain, Runtime,
}
use openzeppelin_foundry_upg.Journal.Equality.{identity_eq, same_kind, same_mode}
use openzeppelin_foundry_upg.Reconciler.State.{
  Outcome, returns, ◌>>=◌, ◌>>◌, lift, refuse, demand, RawAttempt, Simulation, ValidatedSimulation,
}

-- `for (const [k, v] of Object.entries(d)) body(k, v)`
unfoldable pub for_each :
    {V : Type 0} → (Text → V → Outcome (Unit {0})) → Dict Text V → Outcome (Unit {0})
for_each body [] = returns tt
for_each body ((k, v) ∷ d) = do body k v; for_each body d

-- `id.replace(/^0x/i, '').toLowerCase()`
unfoldable pub bare_id : Text → Text
bare_id (z ∷ x ∷ body) =
    if eqb z 48 && (eqb x 120 || eqb x 88) then to_lower body else to_lower (z ∷ x ∷ body)
bare_id value = to_lower value

unfoldable pub empty_reconciliation : ReconciliationState
empty_reconciliation = record { version = 1; next_nonce_by_caller = [] }

unfoldable pub contract_metadata_of :
    Option Text → Option ArtifactIdentity → Option ChildCreateMetadata
contract_metadata_of (some kind) (some identity) =
    some (record { contract_kind = kind; artifact_identity = identity })
contract_metadata_of _ _ = none

-- A deployment of the TRON transparent proxy, by its kind and its identity.
unfoldable pub deploys_transparent_proxy : OperationContext → Bool
deploys_transparent_proxy context =
    same_kind context.kind deployment
    && (context.contract_kind == some (codes "transparent-proxy"))
    && match_option context.artifact_identity false
        (λ identity. is_transparent_proxy identity.fully_qualified_name)

unfoldable pub proxy_admin_metadata :
    OperationContext → Text → ℕ → Outcome (Option ChildCreateMetadata)
proxy_admin_metadata context predicted_caller nonce =
    if deploys_transparent_proxy context
      && (some predicted_caller == context.predicted_contract_address)
      && eqb nonce 1
    then match_option
        (match_option context.artifact_identity none derived_tron_proxy_admin_identity)
        (refuse "INVALID_TRANSPARENT_PROXY_METADATA"
          "Transparent proxy artifact identity cannot derive its ProxyAdmin child")
        (λ identity.
          returns
            (some (record { contract_kind = codes "proxy-admin"; artifact_identity = identity })))
    else returns none

unfoldable pub same_metadata_as : ContractMetadata → ChildCreateMetadata → Bool
same_metadata_as existing child =
    (existing.contract_kind == child.contract_kind)
    && (existing.artifact_identity == child.artifact_identity)

module _ {R : Type 0} (env : Runtime R) where
  unfoldable pub normalize_trace_address : Text → Bool → Outcome Text
  normalize_trace_address value allow_zero = elim (env.codec.to_evm_address value) [
    | err e ↦ refuse "INVALID_CHILD_CREATE_TRACE" "Invalid address"
    | ok address ↦
        if not allow_zero && (address == zero_address)
        then refuse "INVALID_CHILD_CREATE_TRACE" "Invalid address"
        else returns address
  ]

  unfoldable pub check_reserved : Text → ℕ → Outcome (Unit {0})
  check_reserved caller nonce = do
    address ← normalize_trace_address caller false
    if (address == caller) && leb 1 nonce
        then returns tt
        else lift (err "Corrupt child CREATE reconciliation counter")

  unfoldable pub check_reconciliation : ReconciliationState → Outcome ReconciliationState
  check_reconciliation state = do
    if eqb state.version 1
        then returns tt
        else lift (err "Corrupt child CREATE reconciliation state")
    for_each check_reserved state.next_nonce_by_caller
    returns state

  unfoldable pub require_reconciliation : Chain R → Outcome ReconciliationState
  require_reconciliation chain =
      match_option chain.child_create_reconciliation (returns empty_reconciliation)
        check_reconciliation

  -- The metadata that the chain has for a child does not conflict with the expected one.
  unfoldable pub assert_metadata : Chain R → Text → ChildCreateMetadata → Outcome (Unit {0})
  assert_metadata chain predicted_address child = do
    existing ← lift (resolve_contract_metadata_in_chain env.codec chain.addresses predicted_address)
    demand (match_option existing true (λ e. same_metadata_as e child))
        "CHILD_CREATE_SIMULATION_CONFLICT" "Simulated child metadata conflicts"

  unfoldable pub assert_available :
      Bool → Chain R → AddressMapIndexes → Text → Option ChildCreateMetadata → Outcome (Unit {0})
  assert_available actual_taken chain indexes predicted_address child_metadata = do
    if has predicted_address indexes.by_predicted
        then match_option child_metadata (returns tt) (assert_metadata chain predicted_address)
        else returns tt
    demand (not (has predicted_address indexes.by_predicted) && not actual_taken)
        "CHILD_CREATE_SIMULATION_CONFLICT"
        "Simulated child mapping conflicts with persisted address state"

  unfoldable pub assert_predicted_child_available :
      Chain R → AddressMapIndexes → Text → Option ChildCreateMetadata → Outcome (Unit {0})
  assert_predicted_child_available = assert_available false

  unfoldable pub assert_child_mapping_available :
      Chain R → AddressMapIndexes → Text → Text → Option ChildCreateMetadata → Outcome (Unit {0})
  assert_child_mapping_available chain indexes predicted_address actual_address =
      assert_available (has actual_address indexes.by_actual) chain indexes predicted_address

  unfoldable pub validate_simulation : Simulation → Text → Outcome ValidatedSimulation
  validate_simulation simulation native_transaction_id = do
    demand simulation.trace_complete "SIMULATION_INCOMPLETE"
        "Exact simulation did not provide a complete child CREATE trace"
    demand (bare_id simulation.native_transaction_id == bare_id native_transaction_id)
        "SIMULATION_TRANSACTION_MISMATCH"
        "Exact simulation transaction ID does not match the signed native transaction"
    root ← normalize_trace_address simulation.simulation_root_address false
    returns (record {
      mode = simulation.mode;
      simulation_root_address = root;
      attempts = simulation.child_create_attempts;
    })

  -- Exactly one successful attempt, by the root.
  unfoldable pub assert_one_admin : Text → List RawAttempt → Outcome (Unit {0})
  assert_one_admin root (attempt ∷ []) = do
    demand attempt.success "UNSAFE_CONSTANT_CREATE_PROFILE"
        "Stock constant simulation requires exactly one successful root ProxyAdmin CREATE"
    caller ← normalize_trace_address attempt.caller_address false
    demand (caller == root) "UNSAFE_CONSTANT_CREATE_PROFILE"
        "Stock constant simulation requires exactly one successful root ProxyAdmin CREATE"
  assert_one_admin root _ =
      refuse "UNSAFE_CONSTANT_CREATE_PROFILE"
        "Stock constant simulation requires exactly one successful root ProxyAdmin CREATE"

  unfoldable pub assert_constant_profile :
      SimulationMode → Text → List RawAttempt → OperationContext → Outcome (Unit {0})
  assert_constant_profile mode root attempts context =
      if same_mode mode exact_signed
      then demand (root == context.actual_target) "SIMULATION_ROOT_MISMATCH"
          "Exact simulation root does not match the native operation target"
      else do
        demand
            (same_mode mode
              (if same_kind context.kind deployment then constant_create else constant_call))
            "UNSAFE_CONSTANT_CREATE_PROFILE"
            "Constant simulation mode does not match the native operation"
        demand (not (same_mode mode constant_call) || (root == context.actual_target))
            "UNSAFE_CONSTANT_CREATE_PROFILE"
            "Constant-call simulation root does not match the native target"
        if deploys_transparent_proxy context
            then assert_one_admin root attempts
            else demand (is_empty attempts) "UNSAFE_CONSTANT_CREATE_PROFILE"
                "Stock constant simulation cannot distinguish CREATE from CREATE2 for this operation"
