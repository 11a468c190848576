-- ===== src/AddressMap/Metadata.antt =====
-- rpc-src/address-map.ts: contract metadata, `normalizeArtifactIdentity` to
-- `resolveContractMetadataInChain`. The tests of the field names are the records' own, and the
-- comparison of two JSON texts is that of the records.
use openzeppelin_foundry_upg.Base.{
  not, ◌&&◌, Option, none, some, [], ◌∷◌, ◌++◌, eqb, ◌==◌, nat_eq, list_eq, match_option,
  if◌then◌else◌, is_empty,
}
use openzeppelin_foundry_upg.Base.Text.{Text}
use openzeppelin_foundry_upg.Base.Patterns.{is_transaction_hash, is_contract_kind, to_lower}
use openzeppelin_foundry_upg.Base.Result.{Result, ok, err, ◌>>=◌, ◌>>◌, require, rethrow}
use openzeppelin_foundry_upg.Base.Dict.{lookup, insert, has}
use openzeppelin_foundry_upg.Base.Loops.{each}
use openzeppelin_foundry_upg.Codec.{AddressCodec}
use openzeppelin_foundry_upg.AddressMap.State.{
  ArtifactIdentity, AddressMapIndexes, ContractMetadata, ContractMetadataIndex, ChainState,
}
use openzeppelin_foundry_upg.AddressMap.Equality.{same_metadata}
use openzeppelin_foundry_upg.AddressMap.Mappings.{
  normalize_nonzero_address, normalize_source_transaction, require_indexes,
}

unfoldable pub normalize_hash32 : Text → Result Text
normalize_hash32 value =
    if is_transaction_hash value then ok (to_lower value) else err "Invalid artifact snapshot"

-- The qualified name joins the two others with a colon.
unfoldable pub normalize_artifact_identity : ArtifactIdentity → Result ArtifactIdentity
normalize_artifact_identity identity =
    if not (is_empty identity.source_name)
      && not (is_empty identity.contract_name)
      && (identity.fully_qualified_name == (identity.source_name ++ 58 ∷ identity.contract_name))
    then ok identity
    else err "Invalid contract artifact identity"

-- An optional field that is normalised when it is there.
unfoldable pub normalize_optional_hash : Option Text → Result (Option Text)
normalize_optional_hash none = ok none
normalize_optional_hash (some value) = do h ← normalize_hash32 value; ok (some h)

abbrev pub empty_contract_metadata : ContractMetadataIndex
empty_contract_metadata = record { version = 1; by_predicted = [] }

-- The predicted address that a lookup by either address stands for.
unfoldable pub predicted_of : AddressMapIndexes → Text → Option Text
predicted_of indexes normalized =
    if has normalized indexes.by_predicted
    then some normalized
    else lookup normalized indexes.by_actual

module _ (codec : AddressCodec) where
  unfoldable pub normalize_contract_metadata : ContractMetadata → Result ContractMetadata
  normalize_contract_metadata m = do
    require (is_contract_kind m.contract_kind) "Invalid contract metadata"
    predicted ← normalize_nonzero_address codec m.predicted
    artifact_identity ← normalize_artifact_identity m.artifact_identity
    source_transaction ← normalize_source_transaction m.source_transaction
    provenance_hash ← normalize_optional_hash m.provenance_hash
    ok (record {
      predicted = predicted;
      contract_kind = m.contract_kind;
      artifact_identity = artifact_identity;
      source_transaction = source_transaction;
      provenance_hash = provenance_hash;
    })

  unfoldable pub check_metadata : AddressMapIndexes → Text → ContractMetadata → Result (Unit {0})
  check_metadata indexes predicted raw = do
    m ← rethrow "Corrupt contract metadata record" (normalize_contract_metadata raw)
    require
        ((predicted == m.predicted) && same_metadata raw m && has predicted indexes.by_predicted)
        "Corrupt contract metadata index"

  unfoldable pub require_contract_metadata : ChainState → Result ContractMetadataIndex
  require_contract_metadata chain =
      match_option chain.contract_metadata (ok empty_contract_metadata) (λ metadata. do
        require (eqb metadata.version 1) "Corrupt contract metadata index"
        indexes ← require_indexes codec chain
        each (check_metadata indexes) metadata.by_predicted
        ok metadata)

  unfoldable pub set_contract_metadata_in_chain :
      ChainState → ContractMetadata → Result (ChainState × ContractMetadata)
  set_contract_metadata_in_chain chain value = do
    m ← normalize_contract_metadata value
    indexes ← require_indexes codec chain
    require (has m.predicted indexes.by_predicted) "Contract metadata requires an address mapping"
    metadata ← require_contract_metadata chain
    match_option (lookup m.predicted metadata.by_predicted)
        (ok (
          record chain {
            contract_metadata =
                some
                  (record metadata { by_predicted = insert m.predicted m metadata.by_predicted });
          },
          m,
        ))
        (λ existing.
          if same_metadata existing m
          then ok (chain, existing)
          else err "Contract metadata conflict")

  unfoldable pub resolve_contract_metadata_in_chain :
      ChainState → Text → Result (Option ContractMetadata)
  resolve_contract_metadata_in_chain chain address = do
    normalized ← normalize_nonzero_address codec address
    indexes ← require_indexes codec chain
    metadata ← require_contract_metadata chain
    ok (match_option (predicted_of indexes normalized) none (λ p. lookup p metadata.by_predicted))
