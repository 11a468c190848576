-- ===== src/Journal/Operations.antt =====
-- rpc-src/journal.ts: the operations on one chain, each the callback of a store transaction. A
-- failed test on the state is `transitionError`, whose message is given without the states.
use openzeppelin_foundry_upg.Base.{
  ℕ, Bool, true, false, not, ◌&&◌, Option, none, some, [], ◌∷◌, Eq, eqb, ◌==◌, nat_eq, list_eq,
  option_eq, match_option, if◌then◌else◌,
}
use openzeppelin_foundry_upg.Base.Text.{Text}
use openzeppelin_foundry_upg.Base.Result.{Result, ok, err, ◌>>=◌, ◌>>◌, require}
use openzeppelin_foundry_upg.Base.Dict.{Dict, lookup, insert}
use openzeppelin_foundry_upg.Journal.State.{
  JournalState, received, native_built, broadcast, confirmed, failed, NativeTransaction, Failure,
  Built, Preparation, JournalRecord, Journal, Chain, Runtime, ReceiveResult,
}
use openzeppelin_foundry_upg.Journal.Equality.{same_native, same_failure}
use openzeppelin_foundry_upg.Journal.Validation.{
  is_some, normalize_source_hash, normalize_source_transaction, validate_native_transaction,
  validate_failure, validate_owner_id, durable_receipt,
}
use openzeppelin_foundry_upg.Journal.Plan.{validate_preparation}
use openzeppelin_foundry_upg.Journal.Records.{same_preparation, require_record, require_journal}

unfoldable pub is_state : JournalState → JournalState → Bool
is_state received received = true
is_state native_built native_built = true
is_state broadcast broadcast = true
is_state confirmed confirmed = true
is_state failed failed = true
is_state _ _ = false

abbrev pub transition_error : {A : Type 0} → Result A
transition_error = err "Illegal journal transition"

-- `record.buildClaimOwner === owner`
unfoldable pub is_claimed_by : Text → Option Text → Bool
is_claimed_by owner none = false
is_claimed_by owner (some claimed) = claimed == owner

-- The states in which a record keeps its nonce.
unfoldable pub occupies : JournalState → Bool → Bool
occupies received with_receipt = false
occupies native_built with_receipt = true
occupies broadcast with_receipt = true
occupies confirmed with_receipt = true
occupies failed with_receipt = with_receipt

unfoldable pub same_built : Option Built → NativeTransaction → Preparation → Bool
same_built built native prepared =
    match_option built false
      (λ b. same_native b.native native && same_preparation b.prepared prepared)

module _ {R : Type 0} where
  unfoldable pub put_record : Chain R → Journal R → Text → JournalRecord R → Chain R
  put_record chain journal hash r = record chain {
    transaction_journal = some (record journal { records = insert hash r journal.records });
  }

  abbrev pub fresh_record : Text → Text → Text → JournalRecord R
  fresh_record owner hash source = record {
    source_transaction_hash = hash;
    signed_ethereum_transaction = source;
    state = received;
    build_claim_owner = some owner;
    built = none;
    receipt = none;
    failure = none;
  }

  abbrev pub built_record : NativeTransaction → Preparation → JournalRecord R → JournalRecord R
  built_record native prepared r = record {
    source_transaction_hash = r.source_transaction_hash;
    signed_ethereum_transaction = r.signed_ethereum_transaction;
    state = native_built;
    build_claim_owner = none;
    built = some (record { native = native; prepared = prepared });
    receipt = none;
    failure = none;
  }

  abbrev pub failed_record : Failure → JournalRecord R → JournalRecord R
  failed_record failure r = record {
    source_transaction_hash = r.source_transaction_hash;
    signed_ethereum_transaction = r.signed_ethereum_transaction;
    state = failed;
    build_claim_owner = none;
    built = r.built;
    receipt = none;
    failure = some failure;
  }

  -- The record keeps this nonce of this sender.
  unfoldable pub occupies_nonce : Text → ℕ → JournalRecord R → Bool
  occupies_nonce from nonce r = match_option r.built false (λ b.
      occupies r.state (is_some r.receipt)
      && (b.prepared.operation_context.from == from)
      && eqb b.prepared.operation_context.nonce nonce)

  -- Another record than the one under `hash` keeps the nonce.
  unfoldable pub nonce_in_flight : Text → Text → ℕ → Dict Text (JournalRecord R) → Bool
  nonce_in_flight hash from nonce [] = false
  nonce_in_flight hash from nonce ((other_hash, other) ∷ rest) =
      let later = nonce_in_flight hash from nonce rest in
      if not (other_hash == hash) && occupies_nonce from nonce other then true else later

module _ {R : Type 0} ⦃eq_receipt : Eq R⦄ (env : Runtime R) where
  unfoldable pub receive_in_chain : Text → Text → Chain R → Result (Chain R × ReceiveResult R)
  receive_in_chain owner signed chain = do
    source ← normalize_source_transaction signed
    let hash = env.keccak256 source
    journal ← require_journal env chain
    match_option (lookup hash journal.records)
        (let r = fresh_record owner hash source in
          ok (put_record chain journal hash r, record { journal_record = r; should_build = true }))
        (λ existing.
          if not (existing.signed_ethereum_transaction == source)
          then err "Source transaction retry conflict"
          else ok (chain, record { journal_record = existing; should_build = false }))

  unfoldable pub recover_received_in_chain :
      Bool → Text → Text → Text → Chain R → Result (Chain R × ReceiveResult R)
  recover_received_in_chain allow_recovery owner source_hash expected_owner chain = do
    require allow_recovery "Transaction journal recovery is not enabled"
    hash ← normalize_source_hash source_hash
    previous_owner ← validate_owner_id expected_owner
    journal ← require_journal env chain
    r ← require_record journal hash
    require (is_state r.state received) "Transaction cannot recover a received build claim"
    require (not (previous_owner == owner)) "Recovery owner conflict"
    require (is_claimed_by previous_owner r.build_claim_owner) "Recovery owner conflict"
    let claimed = record r { build_claim_owner = some owner }
    ok (
      put_record chain journal hash claimed,
      record { journal_record = claimed; should_build = true },
    )

  unfoldable pub record_native_built_in_chain :
      Text → Text → NativeTransaction → Preparation → Chain R → Result (Chain R × JournalRecord R)
  record_native_built_in_chain owner source_hash native_transaction preparation chain = do
    hash ← normalize_source_hash source_hash
    native ← validate_native_transaction native_transaction
    prepared ← validate_preparation env preparation
    journal ← require_journal env chain
    r ← require_record journal hash
    if is_state r.state native_built
        then if same_built r.built native prepared
          then ok (chain, r)
          else err "Native transaction retry conflict"
        else if not (is_state r.state received)
        then transition_error
        else do
          validated_owner ← validate_owner_id owner
          require (is_claimed_by validated_owner r.build_claim_owner)
              "Native build claim is owned by another journal instance"
          let context = prepared.operation_context
          require (not (nonce_in_flight hash context.from context.nonce journal.records))
              "Native operation nonce is already in flight for this sender"
          let next = built_record native prepared r
          ok (put_record chain journal hash next, next)

  -- `_advance` from native-built to broadcast
  unfoldable pub record_broadcast_in_chain : Text → Chain R → Result (Chain R × JournalRecord R)
  record_broadcast_in_chain source_hash chain = do
    hash ← normalize_source_hash source_hash
    journal ← require_journal env chain
    r ← require_record journal hash
    if is_state r.state broadcast
        then ok (chain, r)
        else if not (is_state r.state native_built)
        then transition_error
        else (let next = record r { state = broadcast } in
            ok (put_record chain journal hash next, next))

  unfoldable pub record_confirmed_in_chain : Text → R → Chain R → Result (Chain R × JournalRecord R)
  record_confirmed_in_chain source_hash receipt chain = do
    hash ← normalize_source_hash source_hash
    persisted ← durable_receipt env receipt
    journal ← require_journal env chain
    r ← require_record journal hash
    if is_state r.state confirmed
        then if r.receipt == some persisted
          then ok (chain, r)
          else err "Confirmed receipt retry conflict"
        else if not (is_state r.state broadcast)
        then transition_error
        else (let next = record r { state = confirmed; receipt = some persisted } in
            ok (put_record chain journal hash next, next))

  unfoldable pub record_retained_failure_in_chain :
      Text → Failure → R → Chain R → Result (Chain R × JournalRecord R)
  record_retained_failure_in_chain source_hash failure receipt chain = do
    hash ← normalize_source_hash source_hash
    durable_failure ← validate_failure failure
    persisted ← durable_receipt env receipt
    journal ← require_journal env chain
    r ← require_record journal hash
    require (is_state r.state broadcast) "Illegal journal transition"
    let next = record r { state = failed; failure = some durable_failure; receipt = some persisted }
    ok (put_record chain journal hash next, next)

  unfoldable pub record_failed_in_chain :
      Text → Text → Failure → Chain R → Result (Chain R × JournalRecord R)
  record_failed_in_chain owner source_hash failure chain = do
    hash ← normalize_source_hash source_hash
    durable_failure ← validate_failure failure
    journal ← require_journal env chain
    r ← require_record journal hash
    if is_state r.state failed
        then if match_option r.failure false (λ f. same_failure f durable_failure)
          then ok (chain, r)
          else err "Terminal failure retry conflict"
        else if is_state r.state confirmed
        then transition_error
        else if is_state r.state received && not (is_claimed_by owner r.build_claim_owner)
        then err "Native build claim is owned by another journal instance"
        else (let next = failed_record durable_failure r in
            ok (put_record chain journal hash next, next))

  -- `get` on what `readChain` returns
  unfoldable pub get : Option (Chain R) → Text → Result (Option (JournalRecord R))
  get chain source_hash = do
    hash ← normalize_source_hash source_hash
    match_option chain (ok none)
        (λ c. do journal ← require_journal env c; ok (lookup hash journal.records))
