-- ===== src/AddressMap/State.antt =====
-- rpc-src/address-map.ts: the durable records and indexes of one chain. A JSON object of a known
-- shape is a record, and an object that is used as a map is a dictionary.
use openzeppelin_foundry_upg.Base.{ℕ, Option, none, List, nat_eq, list_eq, option_eq}
use openzeppelin_foundry_upg.Base.Text.{Text}
use openzeppelin_foundry_upg.Base.Dict.{Dict}

pub record ArtifactIdentity : Type 0 where
  pub source_name : Text
  pub contract_name : Text
  pub fully_qualified_name : Text

pub record AddressMapping : Type 0 where
  pub predicted : Text
  pub actual : Text
  pub creator : Text
  pub sender : Text
  pub source_transaction : Text

pub record AddressMapIndexes : Type 0 where
  pub version : ℕ
  pub by_predicted : Dict Text AddressMapping
  pub by_actual : Dict Text Text

pub record ContractMetadata : Type 0 where
  pub predicted : Text
  pub contract_kind : Text
  pub artifact_identity : ArtifactIdentity
  pub source_transaction : Text
  pub provenance_hash : Option Text

pub record ContractMetadataIndex : Type 0 where
  pub version : ℕ
  pub by_predicted : Dict Text ContractMetadata

pub record ImmutableRange : Type 0 where
  pub start : ℕ
  pub length : ℕ

-- The ABI is JSON that the gateway never looks into here: it is kept as its text.
pub record ArtifactSnapshot : Type 0 where
  pub provenance_hash : Text
  pub artifact_identity : ArtifactIdentity
  pub contract_kind : Text
  pub abi : Text
  pub creation_bytecode_hash : Text
  pub runtime_bytecode_hash : Text
  pub immutable_references : Option (List ImmutableRange)

pub record ArtifactSnapshotIndex : Type 0 where
  pub version : ℕ
  pub by_provenance_hash : Dict Text ArtifactSnapshot

pub data ImmutableRole : Type 0 where
  self admin beacon : ImmutableRole

pub record ImmutableDescriptor : Type 0 where
  pub role : ImmutableRole
  pub start : ℕ
  pub length : ℕ
  pub expected_actual : Text

pub data CaptureStatus : Type 0 where
  pending complete : CaptureStatus

pub record DeploymentDescriptor : Type 0 where
  pub predicted : Text
  pub status : CaptureStatus
  pub descriptors : List ImmutableDescriptor

pub record DeploymentDescriptorIndex : Type 0 where
  pub version : ℕ
  pub by_predicted : Dict Text DeploymentDescriptor

pub record NonceBaselineIndex : Type 0 where
  pub version : ℕ
  pub by_sender : Dict Text Text

-- The part of a chain's state that address-map.ts keeps; an absent index is `none`.
pub record ChainState : Type 0 where
  pub address_mappings : Option AddressMapIndexes
  pub contract_metadata : Option ContractMetadataIndex
  pub artifact_snapshots : Option ArtifactSnapshotIndex
  pub deployment_descriptors : Option DeploymentDescriptorIndex
  pub nonce_baselines : Option NonceBaselineIndex

abbrev pub empty_chain : ChainState
empty_chain = record {
  address_mappings = none;
  contract_metadata = none;
  artifact_snapshots = none;
  deployment_descriptors = none;
  nonce_baselines = none;
}
