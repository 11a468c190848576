-- ===== src/Journal/Equality.antt =====
-- `isDeepStrictEqual` on the journal's records: field by field; two counter maps are equal when
-- they have the same entries, in any order.
use openzeppelin_foundry_upg.Base.{
  ℕ, ◌≡◌, ◌↔◌, Bool, true, false, ◌&&◌, some, List, [], ◌∷◌, Eq, ◌==◌, nat_eq, list_eq, option_eq,
  arith, eqb, length,
}
use openzeppelin_foundry_upg.Base.Text.{Text, text_iff}
use openzeppelin_foundry_upg.Base.Dict.{Dict, lookup}
use openzeppelin_foundry_upg.AddressMap.State.{ArtifactIdentity}
use openzeppelin_foundry_upg.AddressMap.Equality.{same_identity, same_identity_iff}
use openzeppelin_foundry_upg.Journal.State.{
  SimulationMode, exact_signed, constant_create, constant_call, OperationKind, deployment, call,
  NativeTransaction, Failure, OperationContext, ChildCreateMetadata, ChildCreateAttempt,
  ChildCreatePlan,
}

unfoldable pub same_kind : OperationKind → OperationKind → Bool
same_kind deployment deployment = true
same_kind call call = true
same_kind _ _ = false

unfoldable pub same_mode : SimulationMode → SimulationMode → Bool
same_mode exact_signed exact_signed = true
same_mode constant_create constant_create = true
same_mode constant_call constant_call = true
same_mode _ _ = false

instance abbrev pub identity_eq : Eq ArtifactIdentity
identity_eq = record { beq = same_identity; beq_iff = same_identity_iff }

unfoldable pub same_native : NativeTransaction → NativeTransaction → Bool
same_native a b =
    a.signed_native_transaction == b.signed_native_transaction
    && a.native_transaction_id == b.native_transaction_id

unfoldable pub same_failure : Failure → Failure → Bool
same_failure a b = a.code == b.code && a.message == b.message

unfoldable pub same_context : OperationContext → OperationContext → Bool
same_context a b =
    same_kind a.kind b.kind
    && a.from == b.from
    && a.to == b.to
    && eqb a.nonce b.nonce
    && a.predicted_contract_address == b.predicted_contract_address
    && a.actual_target == b.actual_target
    && a.contract_kind == b.contract_kind
    && a.artifact_identity == b.artifact_identity
    && a.provenance_hash == b.provenance_hash

unfoldable pub same_child_metadata : ChildCreateMetadata → ChildCreateMetadata → Bool
same_child_metadata a b =
    a.contract_kind == b.contract_kind && a.artifact_identity == b.artifact_identity

pub same_child_metadata_iff :
    (a b : ChildCreateMetadata) → (same_child_metadata a b ≡ true) ↔ (a ≡ b)
unfolding same_child_metadata
same_child_metadata_iff a b = ground (
  arith,
  text_iff a.contract_kind b.contract_kind,
  same_identity_iff a.artifact_identity b.artifact_identity,
)

instance abbrev pub child_metadata_eq : Eq ChildCreateMetadata
child_metadata_eq = record { beq = same_child_metadata; beq_iff = same_child_metadata_iff }

unfoldable pub same_bool : Bool → Bool → Bool
same_bool true b = b
same_bool false true = false
same_bool false false = true

unfoldable pub same_attempt : ChildCreateAttempt → ChildCreateAttempt → Bool
same_attempt a b =
    eqb a.index b.index
    && a.actual_caller == b.actual_caller
    && a.predicted_caller == b.predicted_caller
    && eqb a.nonce b.nonce
    && a.predicted_address == b.predicted_address
    && a.simulated_actual_address == b.simulated_actual_address
    && same_bool a.success b.success
    && a.child_metadata == b.child_metadata

unfoldable pub same_attempts : List ChildCreateAttempt → List ChildCreateAttempt → Bool
same_attempts [] [] = true
same_attempts (a ∷ xs) (b ∷ ys) = let rest = same_attempts xs ys in same_attempt a b && rest
same_attempts _ _ = false

-- Every entry of the first map stands in the second.
unfoldable pub entries_in : Dict Text ℕ → Dict Text ℕ → Bool
entries_in [] d = true
entries_in ((k, n) ∷ rest) d = let later = entries_in rest d in (lookup k d == some n) && later

unfoldable pub same_counters : Dict Text ℕ → Dict Text ℕ → Bool
same_counters a b = eqb (length a) (length b) && entries_in a b

unfoldable pub same_plan : ChildCreatePlan → ChildCreatePlan → Bool
same_plan a b =
    eqb a.version b.version
    && same_mode a.mode b.mode
    && a.sender == b.sender
    && a.simulation_root_address == b.simulation_root_address
    && same_attempts a.attempts b.attempts
    && same_counters a.counter_bases b.counter_bases
    && same_counters a.counter_finals b.counter_finals
