-- ===== src/AddressMap/Mappings.antt =====
-- rpc-src/address-map.ts: `normalizeMapping`, `requireIndexes` and `setMappingInChain`.
use openzeppelin_foundry_upg.Base.{
  Bool, true, false, not, ◌&&◌, Option, none, some, List, [], ◌∷◌, eqb, ◌==◌, nat_eq, list_eq,
  option_eq, length, match_option, if◌then◌else◌, replicate,
}
use openzeppelin_foundry_upg.Base.Text.{Text}
use openzeppelin_foundry_upg.Base.Patterns.{is_transaction_hash, to_lower}
use openzeppelin_foundry_upg.Base.Result.{Result, ok, err, ◌>>=◌, ◌>>◌, require, rethrow}
use openzeppelin_foundry_upg.Base.Dict.{Dict, lookup, insert}
use openzeppelin_foundry_upg.Codec.{AddressCodec}
use openzeppelin_foundry_upg.AddressMap.State.{AddressMapping, AddressMapIndexes, ChainState}
use openzeppelin_foundry_upg.AddressMap.Equality.{same_mapping}

-- `0x` and forty zeros
abbrev pub zero_address : Text
zero_address = 48 ∷ 120 ∷ replicate 40 48

unfoldable pub empty_indexes : AddressMapIndexes
empty_indexes = record { version = 1; by_predicted = []; by_actual = [] }

unfoldable pub normalize_source_transaction : Text → Result Text
normalize_source_transaction t =
    if is_transaction_hash t then ok (to_lower t) else err "Invalid source transaction hash"

unfoldable pub is_in : Text → List Text → Bool
is_in a [] = false
is_in a (x ∷ xs) = let rest = is_in a xs in if x == a then true else rest

-- `indexes.byPredicted[predicted]?.actual`
unfoldable pub actual_of : Text → Dict Text AddressMapping → Option Text
actual_of predicted d = match_option (lookup predicted d) none (λ m. some m.actual)

-- The loop over `byActual`: each entry points back.
unfoldable pub check_reverse : Dict Text AddressMapping → Dict Text Text → Result (Unit {0})
check_reverse by_predicted [] = ok tt
check_reverse by_predicted ((actual, predicted) ∷ rest) = do
  require (actual_of predicted by_predicted == some actual) "Corrupt address mapping reverse index"
  check_reverse by_predicted rest

-- The two writes of a new record.
unfoldable pub add_mapping : AddressMapping → AddressMapIndexes → AddressMapIndexes
add_mapping m indexes = record indexes {
  by_predicted = insert m.predicted m indexes.by_predicted;
  by_actual = insert m.actual m.predicted indexes.by_actual;
}

module _ (codec : AddressCodec) where
  unfoldable pub normalize_nonzero_address : Text → Result Text
  normalize_nonzero_address address = do
    normalized ← rethrow "Invalid address" (codec.to_evm_address address)
    if normalized == zero_address then err "Invalid address" else ok normalized

  unfoldable pub normalize_mapping : AddressMapping → Result AddressMapping
  normalize_mapping m = do
    predicted ← normalize_nonzero_address m.predicted
    actual ← normalize_nonzero_address m.actual
    creator ← normalize_nonzero_address m.creator
    sender ← normalize_nonzero_address m.sender
    source_transaction ← normalize_source_transaction m.source_transaction
    ok (record {
      predicted = predicted;
      actual = actual;
      creator = creator;
      sender = sender;
      source_transaction = source_transaction;
    })

  -- The loop over `byPredicted`; `seen` is the set `actualAddresses`, and the result is its last
  -- value.
  unfoldable pub check_records :
      Dict Text Text → List Text → Dict Text AddressMapping → Result (List Text)
  check_records by_actual seen [] = ok seen
  check_records by_actual seen ((predicted, raw) ∷ rest) = do
    m ← rethrow "Corrupt address mapping record" (normalize_mapping raw)
    require (same_mapping raw m && m.predicted == predicted && not (is_in m.actual seen))
        "Corrupt address mapping indexes"
    require (lookup m.actual by_actual == some predicted) "Corrupt address mapping reverse index"
    check_records by_actual (m.actual ∷ seen) rest

  unfoldable pub check_indexes : AddressMapIndexes → Result AddressMapIndexes
  check_indexes indexes = do
    require (eqb indexes.version 1) "Corrupt address mapping indexes"
    seen ← check_records indexes.by_actual [] indexes.by_predicted
    require (eqb (length indexes.by_actual) (length seen)) "Corrupt address mapping reverse index"
    check_reverse indexes.by_predicted indexes.by_actual
    ok indexes

  unfoldable pub require_indexes : ChainState → Result AddressMapIndexes
  require_indexes chain = match_option chain.address_mappings (ok empty_indexes) check_indexes

  unfoldable pub set_mapping_in_chain :
      ChainState → AddressMapping → Result (ChainState × AddressMapping)
  set_mapping_in_chain chain mapping = do
    m ← normalize_mapping mapping
    indexes ← require_indexes chain
    match_option (lookup m.predicted indexes.by_predicted)
        (match_option (lookup m.actual indexes.by_actual)
          (ok (record chain { address_mappings = some (add_mapping m indexes) }, m))
          (λ _. err "Actual address mapping conflict"))
        (λ existing.
          if not (existing.actual == m.actual)
          then err "Predicted address mapping conflict"
          else if not (same_mapping existing m)
          then err "Address mapping provenance conflict"
          else ok (chain, existing))
