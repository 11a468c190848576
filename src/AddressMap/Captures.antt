-- ===== src/AddressMap/Captures.antt =====
-- The life of a deployment descriptor: `setDeploymentDescriptorInChain` records a capture, completes
-- a pending one, and never changes a completed one.
use openzeppelin_foundry_upg.Base.{
  ◌≡◌, refl, sym, true, false, Option, none, some, List, [], ◌∷◌, ◌==◌, nat_eq, list_eq, arith,
  Bool-cases, inl, inr, subst,
}
use openzeppelin_foundry_upg.Base.Text.{Text, text_iff}
use openzeppelin_foundry_upg.Base.Result.{Result, ok, err}
use openzeppelin_foundry_upg.Base.Dict.{Dict, lookup, insert, has, lookup-insert}
use openzeppelin_foundry_upg.Base.Loops.{map_all}
use openzeppelin_foundry_upg.Codec.{AddressCodec}
use openzeppelin_foundry_upg.AddressMap.State.{
  AddressMapIndexes, ImmutableDescriptor, DeploymentDescriptor, DeploymentDescriptorIndex,
  ChainState,
}
use openzeppelin_foundry_upg.AddressMap.Mappings.{normalize_nonzero_address, require_indexes}
use openzeppelin_foundry_upg.AddressMap.Acceptance.{normalize_nonzero_address_idem}
use openzeppelin_foundry_upg.AddressMap.Descriptors.{
  normalize_descriptor, is_pending, put_descriptor, normalize_deployment_descriptor,
  require_deployment_descriptors, set_deployment_descriptor_in_chain,
}

-- How the capture of one deployment may change in one write.
pub data Advances : Option DeploymentDescriptor → Option DeploymentDescriptor → Type 0 where
  unchanged : (o : Option DeploymentDescriptor) → Advances o o
  recorded : (d : DeploymentDescriptor) → Advances none (some d)
  completed :
      (old new : DeploymentDescriptor)
      → is_pending old.status ≡ true
      → is_pending new.status ≡ false
      → Advances (some old) (some new)

-- What a write that succeeded has done: `n` is the normalised request, `d` the result.
pub data IsCaptured (chain : ChainState) (index : DeploymentDescriptorIndex)
    (n : DeploymentDescriptor) (chain' : ChainState) (d : DeploymentDescriptor) : Type 0 where
  kept :
      lookup n.predicted index.by_predicted ≡ some d
      → chain' ≡ chain
      → IsCaptured chain index n chain' d
  written :
      d ≡ n
      → chain' ≡ (put_descriptor chain index n).0
      → Advances (lookup n.predicted index.by_predicted) (some n)
      → IsCaptured chain index n chain' d

map_all-normalize_descriptor :
    (xs ys : List ImmutableDescriptor) → map_all normalize_descriptor xs ≡ ok ys → ys ≡ xs
unfolding map_all normalize_descriptor
map_all-normalize_descriptor [] ys h = ground arith
map_all-normalize_descriptor (x ∷ xs) ys h =
    go (map_all normalize_descriptor xs) refl (map_all-normalize_descriptor xs)
  where
    go :
        (r : Result (List ImmutableDescriptor))
        → map_all normalize_descriptor xs ≡ r
        → ((zs : List ImmutableDescriptor) → map_all normalize_descriptor xs ≡ ok zs → zs ≡ xs)
        → ys ≡ x ∷ xs
    go (err e) f ih = absurd (ground arith)
    go (ok zs) f ih = ground (arith, ih zs f)

-- A write at one key is an advance at every key when it is one at its own.
pub advance_insert :
    (n : DeploymentDescriptor) (d : Dict Text DeploymentDescriptor)
    → Advances (lookup n.predicted d) (some n)
    → (q : Text) → Advances (lookup q d) (lookup q (insert n.predicted n d))
advance_insert n d advance q = elim (Bool-cases (n.predicted == q)) [
  | inl hit ↦
      let same : n.predicted ≡ q = (text_iff n.predicted q).0 hit in
      subst (Advances (lookup q d)) (ground (arith, lookup-insert n.predicted q n d))
        (subst (λ k. Advances (lookup k d) (some n)) same advance)
  | inr miss ↦
      subst (Advances (lookup q d)) (ground (arith, lookup-insert n.predicted q n d))
        (unchanged (lookup q d))
]

module _ (codec : AddressCodec) where
  pub normalize_deployment_descriptor_idem :
      (v n : DeploymentDescriptor)
      → normalize_deployment_descriptor codec v ≡ ok n
      → normalize_deployment_descriptor codec n ≡ ok n
  unfolding normalize_deployment_descriptor
  normalize_deployment_descriptor_idem v n h = go (map_all normalize_descriptor v.descriptors) refl
    where
      go :
          (r : Result (List ImmutableDescriptor))
          → map_all normalize_descriptor v.descriptors ≡ r
          → normalize_deployment_descriptor codec n ≡ ok n
      go (err e) f = absurd (ground arith)
      go (ok zs) f = ground (
        arith,
        f,
        map_all-normalize_descriptor v.descriptors zs f,
        normalize_nonzero_address_idem codec v.predicted n.predicted,
      )

  pub normalize_deployment_descriptor-predicted :
      (v n : DeploymentDescriptor)
      → normalize_deployment_descriptor codec v ≡ ok n
      → normalize_nonzero_address codec v.predicted ≡ ok n.predicted
  unfolding normalize_deployment_descriptor
  normalize_deployment_descriptor-predicted v n h =
      go (map_all normalize_descriptor v.descriptors) refl
    where
      go :
          (r : Result (List ImmutableDescriptor))
          → map_all normalize_descriptor v.descriptors ≡ r
          → normalize_nonzero_address codec v.predicted ≡ ok n.predicted
      go (err e) f = absurd (ground arith)
      go (ok zs) f = ground arith

  set_descriptor-branches :
      (chain chain' : ChainState) (i : AddressMapIndexes) (index : DeploymentDescriptorIndex)
      (v n d : DeploymentDescriptor)
      → normalize_deployment_descriptor codec v ≡ ok n
      → require_indexes codec chain ≡ ok i
      → require_deployment_descriptors codec chain ≡ ok index
      → set_deployment_descriptor_in_chain codec chain v ≡ ok (chain', d)
      → (has n.predicted i.by_predicted ≡ true) × IsCaptured chain index n chain' d
  unfolding set_deployment_descriptor_in_chain put_descriptor
  set_descriptor-branches chain chain' i index v n d normal mapped checked h =
      go (lookup n.predicted index.by_predicted) refl
    where
      known : has n.predicted i.by_predicted ≡ true
      known = ground arith

      go :
          (o : Option DeploymentDescriptor)
          → lookup n.predicted index.by_predicted ≡ o
          → (has n.predicted i.by_predicted ≡ true) × IsCaptured chain index n chain' d
      go none e = (
        known,
        written (ground arith) (ground arith)
            (subst (λ o. Advances o (some n)) (sym e) (recorded n)),
      )
      go (some old) e = elim (Bool-cases (is_pending old.status)) [
        | inl unfinished ↦ elim (Bool-cases (is_pending n.status)) [
          | inl still ↦ (known, kept (ground arith) (ground arith))
          | inr done ↦ (
            known,
            written (ground arith) (ground arith)
                (subst (λ o. Advances o (some n)) (sym e) (completed old n unfinished done)),
          )
        ]
        | inr closed ↦ (known, kept (ground arith) (ground arith))
      ]

  pub set_descriptor-IsCaptured :
      (chain chain' : ChainState) (v d : DeploymentDescriptor)
      → set_deployment_descriptor_in_chain codec chain v ≡ ok (chain', d)
      → (n : DeploymentDescriptor) × (i : AddressMapIndexes) × (index : DeploymentDescriptorIndex)
        × (normalize_deployment_descriptor codec v ≡ ok n)
        × (require_indexes codec chain ≡ ok i)
        × (require_deployment_descriptors codec chain ≡ ok index)
        × (has n.predicted i.by_predicted ≡ true)
        × IsCaptured chain index n chain' d
  set_descriptor-IsCaptured chain chain' v d h =
      go (normalize_deployment_descriptor codec v) refl (require_indexes codec chain) refl
        (require_deployment_descriptors codec chain) refl
    where
      go :
          (r : Result DeploymentDescriptor)
          → normalize_deployment_descriptor codec v ≡ r
          → (s : Result AddressMapIndexes) → require_indexes codec chain ≡ s
          → (t : Result DeploymentDescriptorIndex) → require_deployment_descriptors codec chain ≡ t
          → (n : DeploymentDescriptor) × (i : AddressMapIndexes)
            × (index : DeploymentDescriptorIndex) × (normalize_deployment_descriptor codec v ≡ ok n)
            × (require_indexes codec chain ≡ ok i)
            × (require_deployment_descriptors codec chain ≡ ok index)
            × (has n.predicted i.by_predicted ≡ true)
            × IsCaptured chain index n chain' d
      go (err e) f s g t k = absurd (unfold set_deployment_descriptor_in_chain in ground arith)
      go (ok n) f (err e) g t k = absurd (unfold set_deployment_descriptor_in_chain in ground arith)
      go (ok n) f (ok i) g (err e) k =
          absurd (unfold set_deployment_descriptor_in_chain in ground arith)
      go (ok n) f (ok i) g (ok index) k =
          let (known, captured) = set_descriptor-branches chain chain' i index v n d f g k h in
          (n, i, index, f, g, k, known, captured)
