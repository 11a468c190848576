-- ===== src/AddressMap/Floors.antt =====
-- A signer's baseline is declared once: what `setNonceBaselineInChain` leaves behind.
use openzeppelin_foundry_upg.Base.{
  ℕ, ◌≡◌, refl, Option, none, some, eqb_iff, nat_eq, list_eq, match_option, arith, eq_refl,
}
use openzeppelin_foundry_upg.Base.Text.{Text, text_iff}
use openzeppelin_foundry_upg.Base.Result.{Result, ok, err}
use openzeppelin_foundry_upg.Base.Dict.{lookup, insert, lookup-insert}
use openzeppelin_foundry_upg.Base.Loops.{each, each-insert}
use openzeppelin_foundry_upg.Codec.{AddressCodec}
use openzeppelin_foundry_upg.AddressMap.State.{NonceBaselineIndex, ChainState}
use openzeppelin_foundry_upg.AddressMap.Mappings.{normalize_nonzero_address}
use openzeppelin_foundry_upg.AddressMap.Acceptance.{normalize_nonzero_address_idem}
use openzeppelin_foundry_upg.AddressMap.Baselines.{
  normalize_nonce_value, read_decimal, check_baseline, require_nonce_baselines,
  set_nonce_baseline_in_chain, resolve_nonce_baseline_in_chain,
}

-- What a declaration that succeeded has done for the signer `sender` and the text `nonce`.
data IsDeclared (chain : ChainState) (baselines : NonceBaselineIndex) (sender nonce : Text)
    (chain' : ChainState) : Type 0 where
  kept :
      lookup sender baselines.by_sender ≡ some nonce
      → chain' ≡ chain
      → IsDeclared chain baselines sender nonce chain'
  written :
      lookup sender baselines.by_sender ≡ none
      → chain'.nonce_baselines
        ≡ some (record baselines { by_sender = insert sender nonce baselines.by_sender })
      → IsDeclared chain baselines sender nonce chain'

-- `value === undefined ? undefined : BigInt(value)`
abbrev value_of : Option Text → Option ℕ
value_of o = match_option o none (λ value. some (read_decimal 0 value))

value_of-some :
    (o p : Option Text) (n : ℕ)
    → ((t : Text) → o ≡ some t → p ≡ some t)
    → value_of o ≡ some n
    → value_of p ≡ some n
value_of-some none p n same h = absurd (ground arith)
value_of-some (some t) p n same h = ground (arith, same t refl)

module _ (codec : AddressCodec) where
  set_baseline-branches :
      (chain chain' : ChainState) (baselines : NonceBaselineIndex) (raw_sender sender nonce : Text)
      (result : ℕ)
      → normalize_nonzero_address codec raw_sender ≡ ok sender
      → require_nonce_baselines codec chain ≡ ok baselines
      → set_nonce_baseline_in_chain codec chain raw_sender nonce ≡ ok (chain', result)
      → (normalize_nonce_value nonce ≡ ok nonce)
        × (result ≡ read_decimal 0 nonce)
        × IsDeclared chain baselines sender nonce chain'
  unfolding set_nonce_baseline_in_chain normalize_nonce_value
  set_baseline-branches chain chain' baselines raw_sender sender nonce result normal checked h =
      go (lookup sender baselines.by_sender) refl
    where
      go :
          (o : Option Text)
          → lookup sender baselines.by_sender ≡ o
          → (normalize_nonce_value nonce ≡ ok nonce)
            × (result ≡ read_decimal 0 nonce)
            × IsDeclared chain baselines sender nonce chain'
      go none e = (ground arith, ground arith, written e (ground arith))
      go (some old) e =
          let same : old ≡ nonce = ground (arith, text_iff old nonce) in
          (ground arith, ground arith, kept (ground (arith, same)) (ground arith))

  checked_baselines :
      (chain : ChainState) (baselines : NonceBaselineIndex)
      → require_nonce_baselines codec chain ≡ ok baselines
      → (baselines.version ≡ 1) × (each (check_baseline codec) baselines.by_sender ≡ ok tt)
  unfolding require_nonce_baselines each
  checked_baselines chain baselines checked = go chain.nonce_baselines refl
    where
      go :
          (o : Option NonceBaselineIndex)
          → chain.nonce_baselines ≡ o
          → (baselines.version ≡ 1) × (each (check_baseline codec) baselines.by_sender ≡ ok tt)
      go none e = ground arith
      go (some raw) e = inside (each (check_baseline codec) raw.by_sender) refl
        where
          inside :
              (r : Result (Unit {0}))
              → each (check_baseline codec) raw.by_sender ≡ r
              → (baselines.version ≡ 1) × (each (check_baseline codec) baselines.by_sender ≡ ok tt)
          inside (err x) f = absurd (ground arith)
          inside (ok tt) f = ground (arith, eqb_iff raw.version 1)

  IsDeclared-accepted :
      (chain chain' : ChainState) (baselines : NonceBaselineIndex) (sender nonce : Text)
      → normalize_nonzero_address codec sender ≡ ok sender
      → normalize_nonce_value nonce ≡ ok nonce
      → require_nonce_baselines codec chain ≡ ok baselines
      → IsDeclared chain baselines sender nonce chain'
      → (later : NonceBaselineIndex) × (require_nonce_baselines codec chain' ≡ ok later)
        × (lookup sender later.by_sender ≡ some nonce)
        × ((q value : Text)
            → lookup q baselines.by_sender ≡ some value
            → lookup q later.by_sender ≡ some value)
  unfolding require_nonce_baselines
  IsDeclared-accepted chain chain' baselines sender nonce normal digits checked (kept found same) =
      (baselines, ground arith, found, λ q value e. e)
  IsDeclared-accepted chain chain' baselines sender nonce normal digits checked
        (written absent same) =
      let (version, entries) = checked_baselines chain baselines checked in
      let entry : check_baseline codec sender nonce ≡ ok tt =
        unfold check_baseline in ground (arith, normal, digits, eq_refl sender, eq_refl nonce) in
      let more =
        each-insert (check_baseline codec) sender nonce baselines.by_sender entries entry in
      (
        record baselines { by_sender = insert sender nonce baselines.by_sender },
        ground (arith, version, more, same),
        ground (arith, lookup-insert sender sender nonce baselines.by_sender, eq_refl sender),
        λ q value e.
            ground (arith, e, lookup-insert sender q nonce baselines.by_sender, text_iff sender q),
      )

  resolve_baseline_lem :
      (chain : ChainState) (baselines : NonceBaselineIndex) (sender key : Text)
      → normalize_nonzero_address codec sender ≡ ok key
      → require_nonce_baselines codec chain ≡ ok baselines
      → resolve_nonce_baseline_in_chain codec chain sender
        ≡ ok (
            match_option
              (lookup key baselines.by_sender)
              none
              (λ value. some (read_decimal 0 value)))
  unfolding resolve_nonce_baseline_in_chain
  resolve_baseline_lem chain baselines sender key n checked = ground (arith, n, checked)

  -- The stages of a declaration that succeeded, and what is read after it.
  set_baseline-stages :
      (chain chain' : ChainState) (raw_sender nonce : Text) (result : ℕ)
      → set_nonce_baseline_in_chain codec chain raw_sender nonce ≡ ok (chain', result)
      → (sender : Text) × (baselines later : NonceBaselineIndex) × (normalize_nonzero_address codec
            raw_sender
          ≡ ok sender)
        × (require_nonce_baselines codec chain ≡ ok baselines)
        × (require_nonce_baselines codec chain' ≡ ok later)
        × (result ≡ read_decimal 0 nonce)
        × (lookup sender later.by_sender ≡ some nonce)
        × ((q value : Text)
            → lookup q baselines.by_sender ≡ some value
            → lookup q later.by_sender ≡ some value)
  set_baseline-stages chain chain' raw_sender nonce result h =
      go (normalize_nonzero_address codec raw_sender) refl (require_nonce_baselines codec chain)
        refl
    where
      go :
          (r : Result Text)
          → normalize_nonzero_address codec raw_sender ≡ r
          → (s : Result NonceBaselineIndex) → require_nonce_baselines codec chain ≡ s
          → (sender : Text) × (baselines later : NonceBaselineIndex) × (normalize_nonzero_address
                codec raw_sender
              ≡ ok sender)
            × (require_nonce_baselines codec chain ≡ ok baselines)
            × (require_nonce_baselines codec chain' ≡ ok later)
            × (result ≡ read_decimal 0 nonce)
            × (lookup sender later.by_sender ≡ some nonce)
            × ((q value : Text)
                → lookup q baselines.by_sender ≡ some value
                → lookup q later.by_sender ≡ some value)
      go (err e) f s g = absurd (unfold set_nonce_baseline_in_chain in ground arith)
      go (ok sender) f (err e) g =
          absurd (unfold set_nonce_baseline_in_chain normalize_nonce_value in ground arith)
      go (ok sender) f (ok baselines) g =
          let (digits, value, declared) =
            set_baseline-branches chain chain' baselines raw_sender sender nonce result f g h in
          let (later, accepted, found, stay) =
            IsDeclared-accepted chain chain' baselines sender nonce
              (normalize_nonzero_address_idem codec raw_sender sender f) digits g declared in
          (sender, baselines, later, f, g, accepted, value, found, stay)

  -- A baseline that `setNonceBaselineInChain` returns is what the signer resolves to afterwards.
  pub resolve-set_baseline :
      (chain chain' : ChainState) (sender nonce : Text) (result : ℕ)
      → set_nonce_baseline_in_chain codec chain sender nonce ≡ ok (chain', result)
      → resolve_nonce_baseline_in_chain codec chain' sender ≡ ok (some result)
  resolve-set_baseline chain chain' sender nonce result h =
      let (key, baselines, later, f, g, accepted, value, found, stay) =
        set_baseline-stages chain chain' sender nonce result h in
      ground (arith, resolve_baseline_lem chain' later sender key f accepted, found, value)

  -- A signer's baseline is a floor that no later declaration of any signer moves: once it resolves
  -- to a number, it resolves to that number after each declaration that succeeds.
  pub baselines_stay :
      (chain chain' : ChainState) (sender nonce other : Text) (result value : ℕ)
      → set_nonce_baseline_in_chain codec chain sender nonce ≡ ok (chain', result)
      → resolve_nonce_baseline_in_chain codec chain other ≡ ok (some value)
      → resolve_nonce_baseline_in_chain codec chain' other ≡ ok (some value)
  baselines_stay chain chain' sender nonce other result value h before =
      go (normalize_nonzero_address codec other) refl
    where
      go :
          (r : Result Text)
          → normalize_nonzero_address codec other ≡ r
          → resolve_nonce_baseline_in_chain codec chain' other ≡ ok (some value)
      go (err e) f = absurd (unfold resolve_nonce_baseline_in_chain in ground (arith, f))
      go (ok q) f =
          let (key, baselines, later, k, g, accepted, v, found, stay) =
            set_baseline-stages chain chain' sender nonce result h in
          let was = resolve_baseline_lem chain baselines other q f g in
          let is = resolve_baseline_lem chain' later other q f accepted in
          let held : value_of (lookup q baselines.by_sender) ≡ some value =
            ground (arith, was, before) in
          ground (
            arith,
            is,
            value_of-some (lookup q baselines.by_sender) (lookup q later.by_sender) value (stay q)
                held,
          )
