-- ===== src/AddressMap/Equality.antt =====
-- The comparisons of address-map.ts: field by field, or of the JSON texts of two records that were
-- built in one field order.
use openzeppelin_foundry_upg.Base.{
  ◌≡◌, ◌↔◌, Bool, true, false, ◌&&◌, Eq, ◌==◌, nat_eq, list_eq, option_eq, arith, eqb_iff,
  list_beq_iff, option_beq_iff,
}
use openzeppelin_foundry_upg.Base.Text.{text_iff}
use openzeppelin_foundry_upg.AddressMap.State.{
  ArtifactIdentity, AddressMapping, ContractMetadata, ImmutableRange, ArtifactSnapshot,
  ImmutableRole, self, admin, beacon, ImmutableDescriptor, CaptureStatus, pending, complete,
  DeploymentDescriptor,
}

-- `sameMapping`
unfoldable pub same_mapping : AddressMapping → AddressMapping → Bool
same_mapping left right =
    left.predicted == right.predicted
    && left.actual == right.actual
    && left.creator == right.creator
    && left.sender == right.sender
    && left.source_transaction == right.source_transaction

pub same_mapping_iff : (a b : AddressMapping) → (same_mapping a b ≡ true) ↔ (a ≡ b)
unfolding same_mapping
same_mapping_iff a b = ground (
  arith,
  text_iff a.predicted b.predicted,
  text_iff a.actual b.actual,
  text_iff a.creator b.creator,
  text_iff a.sender b.sender,
  text_iff a.source_transaction b.source_transaction,
)

unfoldable pub same_identity : ArtifactIdentity → ArtifactIdentity → Bool
same_identity a b =
    a.source_name == b.source_name
    && a.contract_name == b.contract_name
    && a.fully_qualified_name == b.fully_qualified_name

pub same_identity_iff : (a b : ArtifactIdentity) → (same_identity a b ≡ true) ↔ (a ≡ b)
unfolding same_identity
same_identity_iff a b = ground (
  arith,
  text_iff a.source_name b.source_name,
  text_iff a.contract_name b.contract_name,
  text_iff a.fully_qualified_name b.fully_qualified_name,
)

unfoldable pub same_metadata : ContractMetadata → ContractMetadata → Bool
same_metadata a b =
    a.predicted == b.predicted
    && a.contract_kind == b.contract_kind
    && same_identity a.artifact_identity b.artifact_identity
    && a.source_transaction == b.source_transaction
    && a.provenance_hash == b.provenance_hash

pub same_metadata_iff : (a b : ContractMetadata) → (same_metadata a b ≡ true) ↔ (a ≡ b)
unfolding same_metadata
same_metadata_iff a b = ground (
  arith,
  text_iff a.predicted b.predicted,
  text_iff a.contract_kind b.contract_kind,
  same_identity_iff a.artifact_identity b.artifact_identity,
  text_iff a.source_transaction b.source_transaction,
  option_beq_iff a.provenance_hash b.provenance_hash,
)

unfoldable pub range_beq : ImmutableRange → ImmutableRange → Bool
range_beq a b = a.start == b.start && a.length == b.length

pub range_beq_iff : (a b : ImmutableRange) → (range_beq a b ≡ true) ↔ (a ≡ b)
unfolding range_beq
range_beq_iff a b = ground (arith, eqb_iff a.start b.start, eqb_iff a.length b.length)

instance abbrev pub range_eq : Eq ImmutableRange
range_eq = record { beq = range_beq; beq_iff = range_beq_iff }

-- `withoutImmutableReferences` of both sides
unfoldable pub same_envelope : ArtifactSnapshot → ArtifactSnapshot → Bool
same_envelope a b =
    a.provenance_hash == b.provenance_hash
    && same_identity a.artifact_identity b.artifact_identity
    && a.contract_kind == b.contract_kind
    && a.abi == b.abi
    && a.creation_bytecode_hash == b.creation_bytecode_hash
    && a.runtime_bytecode_hash == b.runtime_bytecode_hash

unfoldable pub same_snapshot : ArtifactSnapshot → ArtifactSnapshot → Bool
same_snapshot a b = same_envelope a b && a.immutable_references == b.immutable_references

pub same_snapshot_iff : (a b : ArtifactSnapshot) → (same_snapshot a b ≡ true) ↔ (a ≡ b)
unfolding same_snapshot same_envelope
same_snapshot_iff a b = ground (
  arith,
  text_iff a.provenance_hash b.provenance_hash,
  same_identity_iff a.artifact_identity b.artifact_identity,
  text_iff a.contract_kind b.contract_kind,
  text_iff a.abi b.abi,
  text_iff a.creation_bytecode_hash b.creation_bytecode_hash,
  text_iff a.runtime_bytecode_hash b.runtime_bytecode_hash,
  option_beq_iff a.immutable_references b.immutable_references,
)

unfoldable pub same_role : ImmutableRole → ImmutableRole → Bool
same_role self self = true
same_role admin admin = true
same_role beacon beacon = true
same_role _ _ = false

unfoldable pub descriptor_beq : ImmutableDescriptor → ImmutableDescriptor → Bool
unfolding same_role
descriptor_beq a b =
    same_role a.role b.role
    && a.start == b.start
    && a.length == b.length
    && a.expected_actual == b.expected_actual

pub descriptor_beq_iff : (a b : ImmutableDescriptor) → (descriptor_beq a b ≡ true) ↔ (a ≡ b)
unfolding descriptor_beq
descriptor_beq_iff a b = ground (
  arith,
  eqb_iff a.start b.start,
  eqb_iff a.length b.length,
  text_iff a.expected_actual b.expected_actual,
)

instance abbrev pub descriptor_eq : Eq ImmutableDescriptor
descriptor_eq = record { beq = descriptor_beq; beq_iff = descriptor_beq_iff }

unfoldable pub same_status : CaptureStatus → CaptureStatus → Bool
same_status pending pending = true
same_status complete complete = true
same_status _ _ = false

unfoldable pub same_deployment : DeploymentDescriptor → DeploymentDescriptor → Bool
unfolding same_status
same_deployment a b =
    a.predicted == b.predicted && same_status a.status b.status && a.descriptors == b.descriptors

pub same_deployment_iff : (a b : DeploymentDescriptor) → (same_deployment a b ≡ true) ↔ (a ≡ b)
unfolding same_deployment
same_deployment_iff a b =
    ground (arith, text_iff a.predicted b.predicted, list_beq_iff a.descriptors b.descriptors)
