-- ===== src/AddressMap/CaptureReads.antt =====
-- What is read of the captures after `setDeploymentDescriptorInChain` has written one.
use openzeppelin_foundry_upg.Base.{
  ◌≡◌, refl, true, Option, none, some, eqb_iff, nat_eq, list_eq, match_option, arith, eq_refl,
  subst,
}
use openzeppelin_foundry_upg.Base.Text.{Text}
use openzeppelin_foundry_upg.Base.Result.{Result, ok, err}
use openzeppelin_foundry_upg.Base.Dict.{Dict, lookup, insert, has, lookup-insert}
use openzeppelin_foundry_upg.Base.Loops.{each, each-insert}
use openzeppelin_foundry_upg.Codec.{AddressCodec}
use openzeppelin_foundry_upg.AddressMap.State.{
  AddressMapIndexes, DeploymentDescriptor, DeploymentDescriptorIndex, ChainState,
}
use openzeppelin_foundry_upg.AddressMap.Equality.{same_deployment_iff}
use openzeppelin_foundry_upg.AddressMap.Mappings.{normalize_nonzero_address, require_indexes}
use openzeppelin_foundry_upg.AddressMap.Metadata.{predicted_of}
use openzeppelin_foundry_upg.AddressMap.Descriptors.{
  put_descriptor, normalize_deployment_descriptor, check_descriptor, require_deployment_descriptors,
  set_deployment_descriptor_in_chain, resolve_deployment_descriptor_in_chain,
}
use openzeppelin_foundry_upg.AddressMap.Captures.{
  Advances, unchanged, IsCaptured, kept, written, advance_insert,
  normalize_deployment_descriptor_idem, normalize_deployment_descriptor-predicted,
  set_descriptor-IsCaptured,
}

module _ (codec : AddressCodec) where
  -- What `requireDeploymentDescriptors` returns holds only entries that pass its loop.
  checked_captures :
      (chain : ChainState) (i : AddressMapIndexes) (index : DeploymentDescriptorIndex)
      → require_indexes codec chain ≡ ok i
      → require_deployment_descriptors codec chain ≡ ok index
      → (index.version ≡ 1) × (each (check_descriptor codec i) index.by_predicted ≡ ok tt)
  unfolding require_deployment_descriptors
  checked_captures chain i index mapped checked = go chain.deployment_descriptors refl
    where
      go :
          (o : Option DeploymentDescriptorIndex)
          → chain.deployment_descriptors ≡ o
          → (index.version ≡ 1) × (each (check_descriptor codec i) index.by_predicted ≡ ok tt)
      go none e = unfold each in ground arith
      go (some raw) e = inside (each (check_descriptor codec i) raw.by_predicted) refl
        where
          inside :
              (r : Result (Unit {0}))
              → each (check_descriptor codec i) raw.by_predicted ≡ r
              → (index.version ≡ 1) × (each (check_descriptor codec i) index.by_predicted ≡ ok tt)
          inside (err x) f = absurd (ground (arith, mapped))
          inside (ok tt) f = ground (arith, mapped, eqb_iff raw.version 1)

  -- The index after a write passes the check again.
  put_descriptor-accepted :
      (chain : ChainState) (i : AddressMapIndexes) (index : DeploymentDescriptorIndex)
      (n : DeploymentDescriptor)
      → normalize_deployment_descriptor codec n ≡ ok n
      → has n.predicted i.by_predicted ≡ true
      → require_indexes codec chain ≡ ok i
      → require_deployment_descriptors codec chain ≡ ok index
      → require_deployment_descriptors codec (put_descriptor chain index n).0
        ≡ ok (record index { by_predicted = insert n.predicted n index.by_predicted })
  unfolding require_deployment_descriptors require_indexes put_descriptor
  put_descriptor-accepted chain i index n normal known mapped checked =
      let (version, entries) = checked_captures chain i index mapped checked in
      let entry : check_descriptor codec i n.predicted n ≡ ok tt =
        unfold check_descriptor in
        ground (arith, normal, known, eq_refl n.predicted, (same_deployment_iff n n).1 refl) in
      let all_entries =
        each-insert (check_descriptor codec i) n.predicted n index.by_predicted entries entry in
      ground (arith, version, all_entries, mapped)

  require_indexes-put_descriptor :
      (chain : ChainState) (index : DeploymentDescriptorIndex) (n : DeploymentDescriptor)
      → require_indexes codec (put_descriptor chain index n).0 ≡ require_indexes codec chain
  unfolding require_indexes put_descriptor
  require_indexes-put_descriptor chain index n = refl

  -- The indexes and the captures that are read after a write, against those before it.
  IsCaptured-accepted :
      (chain chain' : ChainState) (i : AddressMapIndexes) (index : DeploymentDescriptorIndex)
      (n d : DeploymentDescriptor)
      → normalize_deployment_descriptor codec n ≡ ok n
      → has n.predicted i.by_predicted ≡ true
      → require_indexes codec chain ≡ ok i
      → require_deployment_descriptors codec chain ≡ ok index
      → IsCaptured chain index n chain' d
      → (require_indexes codec chain' ≡ ok i)
        × (index' : DeploymentDescriptorIndex) × (require_deployment_descriptors codec chain'
            ≡ ok index')
        × (lookup n.predicted index'.by_predicted ≡ some d)
        × ((q : Text) → Advances (lookup q index.by_predicted) (lookup q index'.by_predicted))
  IsCaptured-accepted chain chain' i index n d normal known mapped checked (kept found same) =
      (ground arith, index, ground arith, found, λ q. unchanged (lookup q index.by_predicted))
  IsCaptured-accepted chain chain' i index n d normal known mapped checked
        (written result same advance) =
      let now = put_descriptor-accepted chain i index n normal known mapped checked in
      let steady = require_indexes-put_descriptor chain index n in
      (
        ground arith,
        record index { by_predicted = insert n.predicted n index.by_predicted },
        ground (arith, same, now),
        ground (
          arith,
          lookup-insert n.predicted n.predicted n index.by_predicted,
          eq_refl n.predicted,
          result,
        ),
        advance_insert n index.by_predicted advance,
      )

  -- The read, once the address and the two indexes are known.
  resolve_descriptor_lem :
      (chain : ChainState) (i : AddressMapIndexes) (index : DeploymentDescriptorIndex)
      (address a : Text) (o : Option Text)
      → normalize_nonzero_address codec address ≡ ok a
      → require_indexes codec chain ≡ ok i
      → require_deployment_descriptors codec chain ≡ ok index
      → predicted_of i a ≡ o
      → resolve_deployment_descriptor_in_chain codec chain address
        ≡ ok (match_option o none (λ p. lookup p index.by_predicted))
  unfolding resolve_deployment_descriptor_in_chain
  resolve_descriptor_lem chain i index address a o f mapped checked p =
      ground (arith, f, mapped, checked, p)

  Advances-match :
      (o : Option Text) (d d' : Dict Text DeploymentDescriptor)
      → ((q : Text) → Advances (lookup q d) (lookup q d'))
      → Advances (match_option o none (λ p. lookup p d)) (match_option o none (λ p. lookup p d'))
  Advances-match none d d' advance = unchanged none
  Advances-match (some p) d d' advance = advance p

  -- The capture that the gateway reads at any address moves, in a write that succeeds, only along
  -- `Advances`: it stays, appears, or is completed when it was pending. The read succeeds again.
  pub captures_advance :
      (chain chain' : ChainState) (v d : DeploymentDescriptor) (address : Text)
      (before : Option DeploymentDescriptor)
      → set_deployment_descriptor_in_chain codec chain v ≡ ok (chain', d)
      → resolve_deployment_descriptor_in_chain codec chain address ≡ ok before
      → (after : Option DeploymentDescriptor) × (resolve_deployment_descriptor_in_chain codec chain'
            address
          ≡ ok after)
        × Advances before after
  captures_advance chain chain' v d address before h read =
      go (normalize_nonzero_address codec address) refl
    where
      go :
          (r : Result Text)
          → normalize_nonzero_address codec address ≡ r
          → (after : Option DeploymentDescriptor) × (resolve_deployment_descriptor_in_chain codec
                chain' address
              ≡ ok after)
            × Advances before after
      go (err e) f = absurd (unfold resolve_deployment_descriptor_in_chain in ground (arith, f))
      go (ok a) f =
          let (n, i, index, normal, mapped, checked, known, captured) =
            set_descriptor-IsCaptured codec chain chain' v d h in
          let (mapped', index', checked', found, advance) =
            IsCaptured-accepted chain chain' i index n d
              (normalize_deployment_descriptor_idem codec v n normal) known mapped checked
              captured in
          let o = predicted_of i a in
          let was = resolve_descriptor_lem chain i index address a o f mapped checked refl in
          let is = resolve_descriptor_lem chain' i index' address a o f mapped' checked' refl in
          (
            match_option o none (λ p. lookup p index'.by_predicted),
            is,
            subst (λ b. Advances b (match_option o none (λ p. lookup p index'.by_predicted)))
                (ground (arith, was, read))
                (Advances-match o index.by_predicted index'.by_predicted advance),
          )

  -- When `setDeploymentDescriptorInChain` returns a capture, the address of the request resolves
  -- to it afterwards.
  pub resolve-set_descriptor :
      (chain chain' : ChainState) (v d : DeploymentDescriptor)
      → set_deployment_descriptor_in_chain codec chain v ≡ ok (chain', d)
      → resolve_deployment_descriptor_in_chain codec chain' v.predicted ≡ ok (some d)
  resolve-set_descriptor chain chain' v d h =
      let (n, i, index, normal, mapped, checked, known, captured) =
        set_descriptor-IsCaptured codec chain chain' v d h in
      let (mapped', index', checked', found, advance) =
        IsCaptured-accepted chain chain' i index n d
          (normalize_deployment_descriptor_idem codec v n normal) known mapped checked captured in
      let address = normalize_deployment_descriptor-predicted codec v n normal in
      let here : predicted_of i n.predicted ≡ some n.predicted =
        unfold predicted_of in ground (arith, known) in
      ground (
        arith,
        found,
        resolve_descriptor_lem chain' i index' v.predicted n.predicted (some n.predicted) address
            mapped' checked' here,
      )
