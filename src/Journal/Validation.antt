-- ===== src/Journal/Validation.antt =====
-- rpc-src/journal.ts: `normalizeSourceTransaction` to `validateCounterMap`. A message that names a
-- field is given without it.
use openzeppelin_foundry_upg.Base.{
  ℕ, ◌%◌, Bool, true, false, not, ◌&&◌, ◌||◌, Option, none, some, [], ◌∷◌, ◌++◌, eqb, leb, ◌==◌,
  nat_eq, list_eq, if◌then◌else◌, is_empty, length, all,
}
use openzeppelin_foundry_upg.Base.Text.{Text}
use openzeppelin_foundry_upg.Base.Patterns.{
  is_digit, is_lower, is_hex, is_canonical_hex, is_contract_kind, to_lower,
}
use openzeppelin_foundry_upg.Base.Result.{Result, ok, err, ◌>>=◌, ◌>>◌, require, rethrow}
use openzeppelin_foundry_upg.Base.Dict.{Dict}
use openzeppelin_foundry_upg.Base.Loops.{each}
use openzeppelin_foundry_upg.AddressMap.State.{ArtifactIdentity}
use openzeppelin_foundry_upg.Journal.State.{
  deployment, call, NativeTransaction, Failure, OperationContext, ChildCreateMetadata, Runtime,
}

-- `HEX_BYTES_PATTERN`: `/^(?:0x)?(?:[0-9a-fA-F]{2})+$/`
unfoldable pub strip_0x : Text → Text
strip_0x (z ∷ x ∷ body) = if eqb z 48 && eqb x 120 then body else z ∷ x ∷ body
strip_0x value = value

unfoldable pub is_hex_bytes : Text → Bool
is_hex_bytes value =
    let body = strip_0x value in not (is_empty body) && eqb (length body % 2) 0 && all is_hex body

-- `NATIVE_TRANSACTION_ID_PATTERN`: `/^(?:0x)?[0-9a-fA-F]{64}$/`
unfoldable pub is_native_id : Text → Bool
is_native_id value = let body = strip_0x value in eqb (length body) 64 && all is_hex body

-- `[A-Za-z0-9]`
unfoldable pub is_alphanumeric : ℕ → Bool
is_alphanumeric c = is_digit c || is_lower c || (leb 65 c && leb c 90)

-- `[A-Za-z0-9._:-]`
unfoldable pub is_owner_char : ℕ → Bool
is_owner_char c = is_alphanumeric c || eqb c 46 || eqb c 95 || eqb c 58 || eqb c 45

-- `OWNER_ID_PATTERN`: `/^[A-Za-z0-9][A-Za-z0-9._:-]{0,127}$/`
unfoldable pub is_owner_id : Text → Bool
is_owner_id [] = false
is_owner_id (c ∷ rest) = is_alphanumeric c && leb (length rest) 127 && all is_owner_char rest

unfoldable pub starts_0x : Text → Bool
starts_0x (z ∷ x ∷ body) = eqb z 48 && eqb x 120
starts_0x value = false

unfoldable pub normalize_source_transaction : Text → Result Text
normalize_source_transaction value =
    if starts_0x value && is_hex_bytes value
    then ok (to_lower value)
    else err "Invalid signed Ethereum transaction"

unfoldable pub normalize_source_hash : Text → Result Text
normalize_source_hash value =
    let normalized = to_lower value in
    if is_canonical_hex 64 normalized then ok normalized else err "Invalid source transaction hash"

unfoldable pub validate_native_transaction : NativeTransaction → Result NativeTransaction
validate_native_transaction native = do
  require (is_hex_bytes native.signed_native_transaction) "Invalid signed native transaction bytes"
  require (is_native_id native.native_transaction_id) "Invalid native transaction txid"
  ok native

unfoldable pub validate_failure : Failure → Result Failure
validate_failure failure =
    if not (is_empty failure.code) && not (is_empty failure.message)
    then ok failure
    else err "Invalid terminal failure"

unfoldable pub validate_owner_id : Text → Result Text
validate_owner_id owner_id =
    if is_owner_id owner_id then ok owner_id else err "Invalid transaction journal owner ID"

unfoldable pub validate_artifact_identity : ArtifactIdentity → Result ArtifactIdentity
validate_artifact_identity identity =
    if not (is_empty identity.source_name)
      && not (is_empty identity.contract_name)
      && (identity.fully_qualified_name == (identity.source_name ++ 58 ∷ identity.contract_name))
    then ok identity
    else err "Invalid artifact identity"

-- A value that may be null is left alone when it is.
unfoldable pub nullable : {A : Type 0} → (A → Result A) → Option A → Result (Option A)
nullable f none = ok none
nullable f (some a) = do b ← f a; ok (some b)

unfoldable pub is_some : {A : Type 0} → Option A → Bool
is_some none = false
is_some (some a) = true

unfoldable pub valid_or_null : (Text → Bool) → Option Text → Bool
valid_or_null test none = true
valid_or_null test (some value) = test value

-- The last test of `validateOperationContext`.
unfoldable pub is_coherent : OperationContext → Bool
is_coherent c =
    (if is_some c.contract_kind
      then is_some c.artifact_identity
      else not (is_some c.artifact_identity))
    && (elim c.kind [
      | deployment ↦ not (is_some c.to) && is_some c.predicted_contract_address
      | call ↦ is_some c.to && not (is_some c.predicted_contract_address)
    ])

unfoldable pub validate_child_metadata : ChildCreateMetadata → Result ChildCreateMetadata
validate_child_metadata metadata = do
  require (is_contract_kind metadata.contract_kind) "Invalid child contract metadata"
  artifact_identity ← validate_artifact_identity metadata.artifact_identity
  ok (record { contract_kind = metadata.contract_kind; artifact_identity = artifact_identity })

module _ {R : Type 0} (env : Runtime R) where
  unfoldable pub durable_receipt : R → Result R
  durable_receipt receipt =
      if env.json_safe receipt then ok receipt else err "Invalid confirmed receipt"

  unfoldable pub normalize_address : Text → Result Text
  normalize_address value = rethrow "Invalid address" (env.codec.to_evm_address value)

  unfoldable pub validate_operation_context : OperationContext → Result OperationContext
  validate_operation_context context = do
    require (valid_or_null is_contract_kind context.contract_kind)
        "Invalid native operation contract kind"
    require (valid_or_null (is_canonical_hex 64) context.provenance_hash)
        "Invalid native operation provenance hash"
    from ← normalize_address context.from
    to ← nullable normalize_address context.to
    predicted ← nullable normalize_address context.predicted_contract_address
    actual_target ← normalize_address context.actual_target
    artifact_identity ← nullable validate_artifact_identity context.artifact_identity
    let normalized = record context {
      from = from;
      to = to;
      predicted_contract_address = predicted;
      actual_target = actual_target;
      artifact_identity = artifact_identity;
    }
    require (is_coherent normalized) "Invalid native operation context"
    ok normalized

  -- The caller is normalised and the counter is at least 1.
  unfoldable pub check_counter : Text → ℕ → Result (Unit {0})
  check_counter caller nonce = do
    address ← normalize_address caller
    require ((address == caller) && leb 1 nonce) "Invalid child CREATE counter"

  -- The map that is rebuilt has the entries of the one that is checked.
  unfoldable pub validate_counter_map : Dict Text ℕ → Result (Dict Text ℕ)
  validate_counter_map value = do each check_counter value; ok value
