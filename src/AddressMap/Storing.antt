-- ===== src/AddressMap/Storing.antt =====
-- `setMappingInChain` writes indexes that `requireIndexes` lets through again.
use openzeppelin_foundry_upg.Base.{
  ◌≡◌, refl, ◌∙◌, ap, Option, none, some, nat_eq, list_eq, option_eq, arith, eq_refl,
}
use openzeppelin_foundry_upg.Base.Text.{Text}
use openzeppelin_foundry_upg.Base.Result.{Result, ok, err}
use openzeppelin_foundry_upg.Base.Dict.{lookup, lookup-insert}
use openzeppelin_foundry_upg.Codec.{AddressCodec}
use openzeppelin_foundry_upg.AddressMap.State.{AddressMapping, AddressMapIndexes, ChainState}
use openzeppelin_foundry_upg.AddressMap.Equality.{same_mapping_iff}
use openzeppelin_foundry_upg.AddressMap.Mappings.{
  empty_indexes, check_reverse, normalize_mapping, check_records, check_indexes, require_indexes,
  add_mapping, set_mapping_in_chain,
}
use openzeppelin_foundry_upg.AddressMap.Bijection.{check_indexes-IsInverse}
use openzeppelin_foundry_upg.AddressMap.Acceptance.{
  normalize_mapping_idem, check_indexes-add_mapping,
}

module _ (codec : AddressCodec) where
  require_indexes-set :
      (chain : ChainState) (i : AddressMapIndexes)
      → check_indexes codec i ≡ ok i
      → require_indexes codec (record chain { address_mappings = some i }) ≡ ok i
  unfolding require_indexes
  require_indexes-set chain i h = h

  check_empty : check_indexes codec empty_indexes ≡ ok empty_indexes
  unfolding check_indexes empty_indexes check_records check_reverse
  check_empty = refl

  -- What `requireIndexes` returns passes the check.
  pub require_indexes-checked :
      (chain : ChainState) (i : AddressMapIndexes)
      → require_indexes codec chain ≡ ok i
      → check_indexes codec i ≡ ok i
  unfolding require_indexes
  require_indexes-checked chain i h = go chain.address_mappings refl
    where
      go :
          (o : Option AddressMapIndexes) → chain.address_mappings ≡ o → check_indexes codec i ≡ ok i
      go none e = ground (arith, check_empty)
      go (some raw) e =
          let checked : check_indexes codec raw ≡ ok i = ground arith in
          let same : i ≡ raw = (check_indexes-IsInverse codec raw i checked).0 in
          rw same (ground arith)

-- What a mapping that was set has done to the chain.
pub data IsStored (chain : ChainState) (i : AddressMapIndexes) (chain' : ChainState)
    (m : AddressMapping) : Type 0 where
  kept : lookup m.predicted i.by_predicted ≡ some m → chain ≡ chain' → IsStored chain i chain' m
  added :
      lookup m.predicted i.by_predicted ≡ none
      → lookup m.actual i.by_actual ≡ none
      → chain' ≡ record chain { address_mappings = some (add_mapping m i) }
      → IsStored chain i chain' m

module _ (codec : AddressCodec) (chain chain' : ChainState) (mapping m : AddressMapping) where
  set_mapping-branches :
      (n : AddressMapping) (i : AddressMapIndexes)
      → normalize_mapping codec mapping ≡ ok n
      → require_indexes codec chain ≡ ok i
      → set_mapping_in_chain codec chain mapping ≡ ok (chain', m)
      → (n ≡ m) × IsStored chain i chain' m
  unfolding set_mapping_in_chain
  set_mapping-branches n i normal checked h =
      go (lookup n.predicted i.by_predicted) refl (lookup n.actual i.by_actual) refl
    where
      go :
          (o : Option AddressMapping)
          → lookup n.predicted i.by_predicted ≡ o
          → (q : Option Text) → lookup n.actual i.by_actual ≡ q
          → (n ≡ m) × IsStored chain i chain' m
      go none absent none free =
          let r : n ≡ m = ground arith in
          (r, added (ground (arith, r)) (ground (arith, r)) (ground (arith, r)))
      go none absent (some p) taken = absurd (ground arith)
      go (some e) found q w =
          let same : e ≡ n = ground (arith, same_mapping_iff e n) in
          let r : n ≡ m = ground arith in (r, kept (ground (arith, r, same)) (ground arith))

  pub set_mapping-IsStored :
      set_mapping_in_chain codec chain mapping ≡ ok (chain', m)
      → (i : AddressMapIndexes) × (normalize_mapping codec mapping ≡ ok m)
        × (require_indexes codec chain ≡ ok i)
        × IsStored chain i chain' m
  set_mapping-IsStored h =
      go (normalize_mapping codec mapping) refl (require_indexes codec chain) refl
    where
      go :
          (r : Result AddressMapping)
          → normalize_mapping codec mapping ≡ r
          → (q : Result AddressMapIndexes) → require_indexes codec chain ≡ q
          → (i : AddressMapIndexes) × (normalize_mapping codec mapping ≡ ok m)
            × (require_indexes codec chain ≡ ok i)
            × IsStored chain i chain' m
      go (err e) f q g = absurd (unfold set_mapping_in_chain in ground arith)
      go (ok n) f (err e) g = absurd (unfold set_mapping_in_chain in ground arith)
      go (ok n) f (ok i) g =
          let (same, is_set) = set_mapping-branches n i f g h in (i, f ∙ ap ok same, g, is_set)

module _ (codec : AddressCodec) where
  IsStored-accepted :
      (chain chain' : ChainState) (m : AddressMapping) (i : AddressMapIndexes)
      → normalize_mapping codec m ≡ ok m
      → require_indexes codec chain ≡ ok i
      → IsStored chain i chain' m
      → (j : AddressMapIndexes) × (require_indexes codec chain' ≡ ok j)
        × (lookup m.predicted j.by_predicted ≡ some m)
  unfolding add_mapping
  IsStored-accepted chain chain' m i normal checked (kept found same) = (i, ground arith, found)
  IsStored-accepted chain chain' m i normal checked (added absent free same) =
      let more =
        check_indexes-add_mapping codec m i i normal free absent
          (require_indexes-checked codec chain i checked) in
      (
        add_mapping m i,
        ground (arith, same, require_indexes-set codec chain (add_mapping m i) more),
        ground (arith, lookup-insert m.predicted m.predicted m i.by_predicted, eq_refl m.predicted),
      )

  -- When `setMappingInChain` returns a record, the chain that it leaves passes `requireIndexes`
  -- and holds the record under its predicted address.
  pub set_mapping-accepted :
      (chain chain' : ChainState) (mapping m : AddressMapping)
      → set_mapping_in_chain codec chain mapping ≡ ok (chain', m)
      → (j : AddressMapIndexes) × (require_indexes codec chain' ≡ ok j)
        × (lookup m.predicted j.by_predicted ≡ some m)
  set_mapping-accepted chain chain' mapping m h =
      let (i, normal, checked, is_set) = set_mapping-IsStored codec chain chain' mapping m h in
      IsStored-accepted chain chain' m i (normalize_mapping_idem codec mapping m normal) checked
        is_set
