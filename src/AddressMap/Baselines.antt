-- ===== src/AddressMap/Baselines.antt =====
-- rpc-src/address-map.ts: the signers' transaction-count baselines, `normalizeNonceValue` to
-- `resolveNonceBaselineInChain`. A nonce arrives as its decimal text, and `BigInt` reads it.
use openzeppelin_foundry_upg.Base.{
  ℕ, ◌+◌, ◌-◌, ◌*◌, Option, none, some, [], ◌∷◌, eqb, ◌==◌, nat_eq, list_eq, match_option,
  if◌then◌else◌,
}
use openzeppelin_foundry_upg.Base.Text.{Text}
use openzeppelin_foundry_upg.Base.Patterns.{is_decimal}
use openzeppelin_foundry_upg.Base.Result.{Result, ok, err, ◌>>=◌, ◌>>◌, require}
use openzeppelin_foundry_upg.Base.Dict.{lookup, insert}
use openzeppelin_foundry_upg.Base.Loops.{each}
use openzeppelin_foundry_upg.Codec.{AddressCodec}
use openzeppelin_foundry_upg.AddressMap.State.{NonceBaselineIndex, ChainState}
use openzeppelin_foundry_upg.AddressMap.Mappings.{normalize_nonzero_address}

unfoldable pub normalize_nonce_value : Text → Result Text
normalize_nonce_value nonce = if is_decimal nonce then ok nonce else err "Invalid nonce baseline"

-- `BigInt` of decimal digits, the ones read so far in front.
unfoldable pub read_decimal : ℕ → Text → ℕ
read_decimal n [] = n
read_decimal n (c ∷ rest) = read_decimal (n * 10 + (c - 48)) rest

abbrev pub empty_nonce_baselines : NonceBaselineIndex
empty_nonce_baselines = record { version = 1; by_sender = [] }

module _ (codec : AddressCodec) where
  unfoldable pub check_baseline : Text → Text → Result (Unit {0})
  check_baseline sender value = do
    normalized ← normalize_nonzero_address codec sender
    require (normalized == sender) "Corrupt nonce baseline index"
    nonce ← normalize_nonce_value value
    require (nonce == value) "Corrupt nonce baseline index"

  unfoldable pub require_nonce_baselines : ChainState → Result NonceBaselineIndex
  require_nonce_baselines chain =
      match_option chain.nonce_baselines (ok empty_nonce_baselines) (λ baselines. do
        require (eqb baselines.version 1) "Corrupt nonce baseline index"
        each check_baseline baselines.by_sender
        ok baselines)

  unfoldable pub set_nonce_baseline_in_chain : ChainState → Text → Text → Result (ChainState × ℕ)
  set_nonce_baseline_in_chain chain raw_sender raw_nonce = do
    sender ← normalize_nonzero_address codec raw_sender
    nonce ← normalize_nonce_value raw_nonce
    baselines ← require_nonce_baselines chain
    match_option (lookup sender baselines.by_sender)
        (ok (
          record chain {
            nonce_baselines =
                some (record baselines { by_sender = insert sender nonce baselines.by_sender });
          },
          read_decimal 0 nonce,
        ))
        (λ existing.
          if existing == nonce
          then ok (chain, read_decimal 0 existing)
          else err "Nonce baseline conflict")

  unfoldable pub resolve_nonce_baseline_in_chain : ChainState → Text → Result (Option ℕ)
  resolve_nonce_baseline_in_chain chain sender = do
    key ← normalize_nonzero_address codec sender
    baselines ← require_nonce_baselines chain
    ok (match_option (lookup key baselines.by_sender) none (λ value. some (read_decimal 0 value)))
