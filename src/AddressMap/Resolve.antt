-- ===== src/AddressMap/Resolve.antt =====
-- rpc-src/address-map.ts: `resolvePredicted`, `resolveActual`, `toActual` and `toPredicted` of
-- `AddressMap`, on what `store.readChain` returns.
use openzeppelin_foundry_upg.Base.{
  ◌≡◌, refl, ap, Option, none, some, nat_eq, list_eq, match_option, arith, eq_refl,
}
use openzeppelin_foundry_upg.Base.Text.{Text, text_iff}
use openzeppelin_foundry_upg.Base.Result.{Result, ok, err, ◌>>=◌}
use openzeppelin_foundry_upg.Base.Dict.{lookup, lookup-insert}
use openzeppelin_foundry_upg.Codec.{AddressCodec}
use openzeppelin_foundry_upg.AddressMap.State.{AddressMapping, AddressMapIndexes, ChainState}
use openzeppelin_foundry_upg.AddressMap.Mappings.{
  actual_of, normalize_nonzero_address, normalize_mapping, require_indexes, set_mapping_in_chain,
  add_mapping,
}
use openzeppelin_foundry_upg.AddressMap.Equality.{same_mapping_iff}
use openzeppelin_foundry_upg.AddressMap.Bijection.{
  IsInverse, check_indexes-IsInverse, check_indexes-normal,
}
use openzeppelin_foundry_upg.AddressMap.Storing.{
  IsStored, kept, added, set_mapping-IsStored, set_mapping-accepted, require_indexes-checked,
}

module _ (codec : AddressCodec) where
  unfoldable pub resolve_predicted : Option ChainState → Text → Result (Option AddressMapping)
  resolve_predicted chain predicted = do
    normalized ← normalize_nonzero_address codec predicted
    match_option chain (ok none)
        (λ c. do indexes ← require_indexes codec c; ok (lookup normalized indexes.by_predicted))

  unfoldable pub resolve_actual : Option ChainState → Text → Result (Option AddressMapping)
  resolve_actual chain actual = do
    normalized ← normalize_nonzero_address codec actual
    match_option chain (ok none) (λ c. do
      indexes ← require_indexes codec c
      ok (
          match_option (lookup normalized indexes.by_actual) none
            (λ p. lookup p indexes.by_predicted)))

  unfoldable pub to_actual : Option ChainState → Text → Result (Option Text)
  to_actual chain predicted = do
    found ← resolve_predicted chain predicted
    ok (match_option found none (λ m. some m.actual))

  unfoldable pub to_predicted : Option ChainState → Text → Result (Option Text)
  to_predicted chain actual = do
    found ← resolve_actual chain actual
    ok (match_option found none (λ m. some m.predicted))

  require_indexes-IsInverse :
      (chain : ChainState) (i : AddressMapIndexes)
      → require_indexes codec chain ≡ ok i
      → IsInverse i
  require_indexes-IsInverse chain i h =
      (check_indexes-IsInverse codec i i (require_indexes-checked codec chain i h)).1

  -- The two lookups, once the address and the indexes are known.
  to_actual_lem :
      (chain : ChainState) (i : AddressMapIndexes) (p q : Text)
      → normalize_nonzero_address codec p ≡ ok q
      → require_indexes codec chain ≡ ok i
      → to_actual (some chain) p ≡ ok (actual_of q i.by_predicted)
  unfolding to_actual resolve_predicted actual_of
  to_actual_lem chain i p q n h = ground (arith, n, h)

  to_predicted_lem :
      (chain : ChainState) (i : AddressMapIndexes) (a b : Text)
      → normalize_nonzero_address codec a ≡ ok b
      → require_indexes codec chain ≡ ok i
      → to_predicted (some chain) a ≡ ok (lookup b i.by_actual)
  unfolding to_predicted resolve_actual
  to_predicted_lem chain i a b n h = go (lookup b i.by_actual) refl
    where
      inv : IsInverse i
      inv = require_indexes-IsInverse chain i h

      go :
          (o : Option Text)
          → lookup b i.by_actual ≡ o
          → to_predicted (some chain) a ≡ ok (lookup b i.by_actual)
      go none e = ground (arith, n, h)
      go (some p) e = here (lookup p i.by_predicted) refl
        where
          back : actual_of p i.by_predicted ≡ some b
          back = inv.backward b p e

          here :
              (r : Option AddressMapping)
              → lookup p i.by_predicted ≡ r
              → to_predicted (some chain) a ≡ ok (lookup b i.by_actual)
          here none f = absurd (unfold actual_of in ground (arith, back))
          here (some m) f = ground (arith, n, h, (inv.forward p m f).own)

  -- The addresses of a mapping, normalised again, are themselves.
  mapping_addresses :
      (mapping m : AddressMapping)
      → normalize_mapping codec mapping ≡ ok m
      → (normalize_nonzero_address codec mapping.predicted ≡ ok m.predicted)
        × (normalize_nonzero_address codec mapping.actual ≡ ok m.actual)
  unfolding normalize_mapping
  mapping_addresses mapping m h = ground arith

  -- The record under a predicted address, and what it says about the actual address.
  record_facts :
      (chain : ChainState) (i : AddressMapIndexes) (q a : Text)
      → require_indexes codec chain ≡ ok i
      → actual_of q i.by_predicted ≡ some a
      → (normalize_nonzero_address codec a ≡ ok a)
        × (normalize_nonzero_address codec q ≡ ok q)
        × (lookup a i.by_actual ≡ some q)
  unfolding actual_of
  record_facts chain i q a h found = go (lookup q i.by_predicted) refl
    where
      go :
          (o : Option AddressMapping)
          → lookup q i.by_predicted ≡ o
          → (normalize_nonzero_address codec a ≡ ok a)
            × (normalize_nonzero_address codec q ≡ ok q)
            × (lookup a i.by_actual ≡ some q)
      go none e = absurd (ground arith)
      go (some m) e =
          let f = (require_indexes-IsInverse chain i h).forward q m e in
          let n =
            mapping_addresses m m
              (check_indexes-normal codec i i q m (require_indexes-checked codec chain i h) e) in
          let same : m.actual ≡ a = ground arith in
          (ground (arith, n.1, same), ground (arith, n.0, f.own), ground (arith, f.back, same))

  -- If a predicted address resolves to an actual one, the actual one resolves to the predicted
  -- one, as it is normalised.
  pub to_predicted-to_actual :
      (chain : ChainState) (p q a : Text)
      → normalize_nonzero_address codec p ≡ ok q
      → to_actual (some chain) p ≡ ok (some a)
      → to_predicted (some chain) a ≡ ok (some q)
  to_predicted-to_actual chain p q a n h = go (require_indexes codec chain) refl
    where
      go :
          (r : Result AddressMapIndexes)
          → require_indexes codec chain ≡ r
          → to_predicted (some chain) a ≡ ok (some q)
      go (err e) f = absurd (unfold to_actual resolve_predicted in ground (arith, n))
      go (ok i) f =
          let found : actual_of q i.by_predicted ≡ some a =
            ground (arith, to_actual_lem chain i p q n f) in
          let facts = record_facts chain i q a f found in
          ground (arith, to_predicted_lem chain i a a facts.0 f, facts.2)

  -- If an actual address resolves to a predicted one, the predicted one resolves to the actual
  -- one, as it is normalised.
  pub to_actual-to_predicted :
      (chain : ChainState) (a b p : Text)
      → normalize_nonzero_address codec a ≡ ok b
      → to_predicted (some chain) a ≡ ok (some p)
      → to_actual (some chain) p ≡ ok (some b)
  to_actual-to_predicted chain a b p n h = go (require_indexes codec chain) refl
    where
      go :
          (r : Result AddressMapIndexes)
          → require_indexes codec chain ≡ r
          → to_actual (some chain) p ≡ ok (some b)
      go (err e) f = absurd (unfold to_predicted resolve_actual in ground (arith, n))
      go (ok i) f =
          let found : lookup b i.by_actual ≡ some p =
            ground (arith, to_predicted_lem chain i a b n f) in
          let back = (require_indexes-IsInverse chain i f).backward b p found in
          let facts = record_facts chain i p b f back in
          ground (arith, to_actual_lem chain i p p facts.1 f, back)

  -- After `setMappingInChain` has returned a record, both addresses of the request resolve to the
  -- other side of that record.
  pub resolve-set_mapping :
      (chain chain' : ChainState) (mapping m : AddressMapping)
      → set_mapping_in_chain codec chain mapping ≡ ok (chain', m)
      → (to_actual (some chain') mapping.predicted ≡ ok (some m.actual))
        × (to_predicted (some chain') mapping.actual ≡ ok (some m.predicted))
  resolve-set_mapping chain chain' mapping m h =
      let (j, accepted, found) = set_mapping-accepted codec chain chain' mapping m h in
      let (i, normal, checked, is_set) = set_mapping-IsStored codec chain chain' mapping m h in
      let n = mapping_addresses mapping m normal in
      let held : actual_of m.predicted j.by_predicted ≡ some m.actual =
        unfold actual_of in ground (arith, found) in
      let facts = record_facts chain' j m.predicted m.actual accepted held in
      (
        ground (arith, to_actual_lem chain' j mapping.predicted m.predicted n.0 accepted, held),
        ground (arith, to_predicted_lem chain' j mapping.actual m.actual n.1 accepted, facts.2),
      )

  -- The indexes after a new record was written.
  added_indexes :
      (chain' : ChainState) (i j : AddressMapIndexes)
      → chain'.address_mappings ≡ some i
      → require_indexes codec chain' ≡ ok j
      → j ≡ i
  unfolding require_indexes
  added_indexes chain' i j same accepted =
      (check_indexes-IsInverse codec i j (ground (arith, same, accepted))).0

  actual_of-IsStored :
      (chain chain' : ChainState) (i j : AddressMapIndexes) (m : AddressMapping) (q a : Text)
      → require_indexes codec chain ≡ ok i
      → require_indexes codec chain' ≡ ok j
      → IsStored chain i chain' m
      → actual_of q i.by_predicted ≡ some a
      → actual_of q j.by_predicted ≡ some a
  unfolding actual_of add_mapping
  actual_of-IsStored chain chain' i j m q a checked accepted (kept found same) before = ground arith
  actual_of-IsStored chain chain' i j m q a checked accepted (added absent free same) before =
      let now =
        added_indexes chain' (add_mapping m i) j (ap (λ c. c.address_mappings) same) accepted in
      ground (arith, now, lookup-insert m.predicted q m i.by_predicted, text_iff m.predicted q)

  -- Setting a mapping, the record of which is returned, leaves every address that resolved to an
  -- actual one before resolving to the same one.
  pub to_actual-set_mapping :
      (chain chain' : ChainState) (mapping m : AddressMapping) (p a : Text)
      → set_mapping_in_chain codec chain mapping ≡ ok (chain', m)
      → to_actual (some chain) p ≡ ok (some a)
      → to_actual (some chain') p ≡ ok (some a)
  to_actual-set_mapping chain chain' mapping m p a h before =
      go (normalize_nonzero_address codec p) refl
    where
      go :
          (r : Result Text)
          → normalize_nonzero_address codec p ≡ r
          → to_actual (some chain') p ≡ ok (some a)
      go (err e) n = absurd (unfold to_actual resolve_predicted in ground (arith, n))
      go (ok q) n =
          let (j, accepted, found) = set_mapping-accepted codec chain chain' mapping m h in
          let (i, normal, checked, is_set) = set_mapping-IsStored codec chain chain' mapping m h in
          let held : actual_of q i.by_predicted ≡ some a =
            ground (arith, to_actual_lem chain i p q n checked) in
          let later = actual_of-IsStored chain chain' i j m q a checked accepted is_set held in
          ground (arith, to_actual_lem chain' j p q n accepted, later)

  -- A request that has succeeded is a no-op when it is repeated: it returns the same record and
  -- leaves the chain as it is.
  pub set_mapping_twice :
      (chain chain' : ChainState) (mapping m : AddressMapping)
      → set_mapping_in_chain codec chain mapping ≡ ok (chain', m)
      → set_mapping_in_chain codec chain' mapping ≡ ok (chain', m)
  set_mapping_twice chain chain' mapping m h =
      let (j, accepted, found) = set_mapping-accepted codec chain chain' mapping m h in
      let (i, normal, checked, is_set) = set_mapping-IsStored codec chain chain' mapping m h in
      unfold set_mapping_in_chain in
      ground (arith, normal, accepted, found, eq_refl m.actual, (same_mapping_iff m m).1 refl)
