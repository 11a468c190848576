-- ===== src/AddressMap/Snapshots.antt =====
-- rpc-src/address-map.ts: artifact snapshots, `normalizeImmutableRanges` to
-- `resolveArtifactSnapshotInChain`.
use openzeppelin_foundry_upg.Base.{
  ℕ, Bool, true, false, not, ◌&&◌, Option, none, some, List, [], eqb, leb, ltb, ◌==◌, nat_eq,
  list_eq, match_option, if◌then◌else◌,
}
use openzeppelin_foundry_upg.Base.Text.{Text}
use openzeppelin_foundry_upg.Base.Patterns.{is_contract_kind}
use openzeppelin_foundry_upg.Base.Result.{Result, ok, err, ◌>>=◌, ◌>>◌, require, rethrow}
use openzeppelin_foundry_upg.Base.Dict.{lookup, insert}
use openzeppelin_foundry_upg.Base.Loops.{each, map_all}
use openzeppelin_foundry_upg.AddressMap.State.{
  ImmutableRange, ArtifactSnapshot, ArtifactSnapshotIndex, ChainState,
}
use openzeppelin_foundry_upg.AddressMap.Equality.{same_snapshot, same_envelope}
use openzeppelin_foundry_upg.AddressMap.Metadata.{normalize_hash32, normalize_artifact_identity}

-- `Number.isSafeInteger` of a number that is not negative
unfoldable pub is_safe : ℕ → Bool
is_safe n = leb n 9007199254740991

unfoldable pub normalize_range : ImmutableRange → Result ImmutableRange
normalize_range r =
    if is_safe r.start && is_safe r.length && ltb 0 r.length
    then ok r
    else err "Invalid artifact snapshot immutable references"

unfoldable pub normalize_references :
    Option (List ImmutableRange) → Result (Option (List ImmutableRange))
normalize_references none = ok none
normalize_references (some ranges) = do rs ← map_all normalize_range ranges; ok (some rs)

unfoldable pub normalize_artifact_snapshot : ArtifactSnapshot → Result ArtifactSnapshot
normalize_artifact_snapshot s = do
  require (is_contract_kind s.contract_kind) "Invalid artifact snapshot"
  provenance_hash ← normalize_hash32 s.provenance_hash
  artifact_identity ← normalize_artifact_identity s.artifact_identity
  creation_bytecode_hash ← normalize_hash32 s.creation_bytecode_hash
  runtime_bytecode_hash ← normalize_hash32 s.runtime_bytecode_hash
  immutable_references ← normalize_references s.immutable_references
  ok (record {
    provenance_hash = provenance_hash;
    artifact_identity = artifact_identity;
    contract_kind = s.contract_kind;
    abi = s.abi;
    creation_bytecode_hash = creation_bytecode_hash;
    runtime_bytecode_hash = runtime_bytecode_hash;
    immutable_references = immutable_references;
  })

abbrev pub empty_artifact_snapshots : ArtifactSnapshotIndex
empty_artifact_snapshots = record { version = 1; by_provenance_hash = [] }

unfoldable pub check_snapshot : Text → ArtifactSnapshot → Result (Unit {0})
check_snapshot provenance_hash raw = do
  s ← rethrow "Corrupt artifact snapshot record" (normalize_artifact_snapshot raw)
  require ((provenance_hash == s.provenance_hash) && same_snapshot raw s)
      "Corrupt artifact snapshot index"

unfoldable pub require_artifact_snapshots : ChainState → Result ArtifactSnapshotIndex
require_artifact_snapshots chain =
    match_option chain.artifact_snapshots (ok empty_artifact_snapshots) (λ snapshots. do
      require (eqb snapshots.version 1) "Corrupt artifact snapshot index"
      each check_snapshot snapshots.by_provenance_hash
      ok snapshots)

-- The write of one record, and the record as the result.
unfoldable pub put_snapshot :
    ChainState → ArtifactSnapshotIndex → ArtifactSnapshot → ChainState × ArtifactSnapshot
put_snapshot chain snapshots s = (
  record chain {
    artifact_snapshots = some (record snapshots {
      by_provenance_hash = insert s.provenance_hash s snapshots.by_provenance_hash;
    });
  },
  s,
)

unfoldable pub has_references : ArtifactSnapshot → Bool
has_references s = match_option s.immutable_references false (λ _. true)

-- What becomes of a new record where one stands: the same record again, one that adds the missing
-- offsets, one that lacks them, or a conflict.
unfoldable pub reconcile_snapshot :
    ChainState
    → ArtifactSnapshotIndex
    → ArtifactSnapshot
    → ArtifactSnapshot
    → Result (ChainState × ArtifactSnapshot)
reconcile_snapshot chain snapshots existing s =
    if same_snapshot existing s
    then ok (chain, existing)
    else if not (has_references existing) && has_references s && same_envelope existing s
    then ok (put_snapshot chain snapshots s)
    else if has_references existing && not (has_references s) && same_envelope existing s
    then ok (chain, existing)
    else err "Artifact snapshot conflict"

unfoldable pub set_artifact_snapshot_in_chain :
    ChainState → ArtifactSnapshot → Result (ChainState × ArtifactSnapshot)
set_artifact_snapshot_in_chain chain value = do
  s ← normalize_artifact_snapshot value
  snapshots ← require_artifact_snapshots chain
  match_option (lookup s.provenance_hash snapshots.by_provenance_hash)
      (ok (put_snapshot chain snapshots s))
      (λ existing. reconcile_snapshot chain snapshots existing s)

unfoldable pub resolve_artifact_snapshot_in_chain :
    ChainState → Text → Result (Option ArtifactSnapshot)
resolve_artifact_snapshot_in_chain chain provenance_hash = do
  normalized ← normalize_hash32 provenance_hash
  snapshots ← require_artifact_snapshots chain
  ok (lookup normalized snapshots.by_provenance_hash)
