-- ===== src/AddressMap/Descriptors.antt =====
-- rpc-src/address-map.ts: deployment descriptors, `normalizeImmutableDescriptors` to
-- `resolveDeploymentDescriptorInChain`.
use openzeppelin_foundry_upg.Base.{
  Bool, true, false, not, ◌&&◌, Option, none, some, [], eqb, ltb, ◌==◌, nat_eq, list_eq,
  match_option, if◌then◌else◌, is_empty,
}
use openzeppelin_foundry_upg.Base.Text.{Text}
use openzeppelin_foundry_upg.Base.Patterns.{is_canonical_hex}
use openzeppelin_foundry_upg.Base.Result.{Result, ok, err, ◌>>=◌, ◌>>◌, require, rethrow}
use openzeppelin_foundry_upg.Base.Dict.{lookup, insert, has}
use openzeppelin_foundry_upg.Base.Loops.{each, map_all}
use openzeppelin_foundry_upg.Codec.{AddressCodec}
use openzeppelin_foundry_upg.AddressMap.State.{
  AddressMapIndexes, ImmutableDescriptor, CaptureStatus, pending, complete, DeploymentDescriptor,
  DeploymentDescriptorIndex, ChainState,
}
use openzeppelin_foundry_upg.AddressMap.Equality.{same_deployment}
use openzeppelin_foundry_upg.AddressMap.Mappings.{normalize_nonzero_address, require_indexes}
use openzeppelin_foundry_upg.AddressMap.Metadata.{predicted_of}
use openzeppelin_foundry_upg.AddressMap.Snapshots.{is_safe}

unfoldable pub normalize_descriptor : ImmutableDescriptor → Result ImmutableDescriptor
normalize_descriptor d =
    if is_safe d.start
      && is_safe d.length
      && ltb 0 d.length
      && is_canonical_hex 40 d.expected_actual
    then ok d
    else err "Invalid deployment descriptor record"

unfoldable pub is_pending : CaptureStatus → Bool
is_pending pending = true
is_pending complete = false

abbrev pub empty_deployment_descriptors : DeploymentDescriptorIndex
empty_deployment_descriptors = record { version = 1; by_predicted = [] }

unfoldable pub put_descriptor :
    ChainState
    → DeploymentDescriptorIndex
    → DeploymentDescriptor
    → ChainState × DeploymentDescriptor
put_descriptor chain index d = (
  record chain {
    deployment_descriptors =
        some (record index { by_predicted = insert d.predicted d index.by_predicted });
  },
  d,
)

module _ (codec : AddressCodec) where
  unfoldable pub normalize_deployment_descriptor :
      DeploymentDescriptor → Result DeploymentDescriptor
  normalize_deployment_descriptor value = do
    predicted ← normalize_nonzero_address codec value.predicted
    descriptors ← map_all normalize_descriptor value.descriptors
    require (not (is_pending value.status && not (is_empty descriptors)))
        "Invalid deployment descriptor record"
    ok (record { predicted = predicted; status = value.status; descriptors = descriptors })

  unfoldable pub check_descriptor :
      AddressMapIndexes → Text → DeploymentDescriptor → Result (Unit {0})
  check_descriptor indexes predicted raw = do
    d ← rethrow "Corrupt deployment descriptor record" (normalize_deployment_descriptor raw)
    require
        ((predicted == d.predicted) && same_deployment raw d && has predicted indexes.by_predicted)
        "Corrupt deployment descriptor index"

  unfoldable pub require_deployment_descriptors : ChainState → Result DeploymentDescriptorIndex
  require_deployment_descriptors chain =
      match_option chain.deployment_descriptors (ok empty_deployment_descriptors) (λ index. do
        require (eqb index.version 1) "Corrupt deployment descriptor index"
        indexes ← require_indexes codec chain
        each (check_descriptor indexes) index.by_predicted
        ok index)

  unfoldable pub set_deployment_descriptor_in_chain :
      ChainState → DeploymentDescriptor → Result (ChainState × DeploymentDescriptor)
  set_deployment_descriptor_in_chain chain value = do
    d ← normalize_deployment_descriptor value
    indexes ← require_indexes codec chain
    require (has d.predicted indexes.by_predicted)
        "Deployment descriptors require an address mapping"
    index ← require_deployment_descriptors chain
    match_option (lookup d.predicted index.by_predicted) (ok (put_descriptor chain index d))
        (λ existing.
          if not (is_pending existing.status)
          then if is_pending d.status
            then err "Deployment descriptor cannot regress to pending"
            else if not (same_deployment existing d)
            then err "Deployment descriptor conflict"
            else ok (chain, existing)
          else if is_pending d.status
          then ok (chain, existing)
          else ok (put_descriptor chain index d))

  unfoldable pub resolve_deployment_descriptor_in_chain :
      ChainState → Text → Result (Option DeploymentDescriptor)
  resolve_deployment_descriptor_in_chain chain address = do
    normalized ← normalize_nonzero_address codec address
    indexes ← require_indexes codec chain
    index ← require_deployment_descriptors chain
    ok (match_option (predicted_of indexes normalized) none (λ p. lookup p index.by_predicted))
