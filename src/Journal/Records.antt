-- ===== src/Journal/Records.antt =====
-- rpc-src/journal.ts: `validateRecord` and `requireJournal`.
use openzeppelin_foundry_upg.Base.{
  Bool, true, false, not, ◌&&◌, Option, [], eqb, ◌==◌, nat_eq, list_eq, match_option, if◌then◌else◌,
}
use openzeppelin_foundry_upg.Base.Text.{Text}
use openzeppelin_foundry_upg.Base.Patterns.{is_canonical_hex}
use openzeppelin_foundry_upg.Base.Result.{Result, ok, err, ◌>>=◌, ◌>>◌, require, rethrow}
use openzeppelin_foundry_upg.Base.Dict.{lookup}
use openzeppelin_foundry_upg.Base.Loops.{each}
use openzeppelin_foundry_upg.Journal.State.{
  JournalState, received, native_built, broadcast, confirmed, failed, Built, Preparation,
  JournalRecord, Journal, Chain, Runtime,
}
use openzeppelin_foundry_upg.Journal.Equality.{same_context, same_plan}
use openzeppelin_foundry_upg.Journal.Validation.{
  is_some, normalize_source_hash, normalize_source_transaction, validate_native_transaction,
  validate_failure, validate_owner_id, durable_receipt,
}
use openzeppelin_foundry_upg.Journal.Plan.{validate_preparation}

unfoldable pub same_preparation : Preparation → Preparation → Bool
same_preparation a b =
    same_context a.operation_context b.operation_context
    && same_plan a.child_create_plan b.child_create_plan

abbrev pub corrupt : {A : Type 0} → Result A
corrupt = err "Corrupt transaction journal record"

-- Nothing to be done with what a check returns.
abbrev pub only : {A : Type 0} → Result A → Result (Unit {0})
only (ok a) = ok tt
only (err e) = corrupt

module _ {R : Type 0} where
  -- Which of the optional fields are there: the owner, what was built, the receipt, the failure.
  unfoldable pub has_fields : Bool → Bool → Bool → Bool → JournalRecord R → Bool
  has_fields owner built receipt failure r =
      agree owner (is_some r.build_claim_owner)
      && agree built (is_some r.built)
      && agree receipt (is_some r.receipt)
      && agree failure (is_some r.failure)
    where
      agree : Bool → Bool → Bool
      agree a b = if a then b else not b

  abbrev pub empty_journal : Journal R
  empty_journal = record { version = 1; records = [] }

  unfoldable pub require_record : Journal R → Text → Result (JournalRecord R)
  require_record journal hash =
      match_option (lookup hash journal.records) (err "Unknown source transaction") (λ r. ok r)

module _ {R : Type 0} (env : Runtime R) where
  -- The native transaction and the preparation are there, valid and canonical.
  unfoldable pub check_built : Option Built → Result (Unit {0})
  check_built built = match_option built corrupt (λ b. do
    only (validate_native_transaction b.native)
    prepared ← rethrow "Corrupt transaction journal record" (validate_preparation env b.prepared)
    require (same_preparation b.prepared prepared) "Corrupt transaction journal record")

  unfoldable pub check_receipt : Option R → Result (Unit {0})
  check_receipt receipt = match_option receipt corrupt (λ r. only (durable_receipt env r))

  unfoldable pub check_received : JournalRecord R → Result (Unit {0})
  check_received r = do
    match_option r.build_claim_owner corrupt (λ owner. only (validate_owner_id owner))
    require (has_fields true false false false r) "Corrupt transaction journal record"

  unfoldable pub check_failed : JournalRecord R → Result (Unit {0})
  check_failed r = do
    match_option r.failure corrupt (λ failure. only (validate_failure failure))
    if has_fields false false false true r
        then ok tt
        else if has_fields false true false true r
        then check_built r.built
        else if has_fields false true true true r
        then (do check_built r.built; check_receipt r.receipt)
        else corrupt

  unfoldable pub check_native : JournalRecord R → Result (Unit {0})
  check_native r = do
    check_built r.built
    require (has_fields false true false false r) "Corrupt transaction journal record"

  unfoldable pub check_confirmed : JournalRecord R → Result (Unit {0})
  check_confirmed r = do
    check_built r.built
    require (has_fields false true true false r) "Corrupt transaction journal record"
    check_receipt r.receipt

  unfoldable pub check_state : JournalState → JournalRecord R → Result (Unit {0})
  check_state received = check_received
  check_state native_built = check_native
  check_state broadcast = check_native
  check_state confirmed = check_confirmed
  check_state failed = check_failed

  unfoldable pub validate_record : Text → JournalRecord R → Result (Unit {0})
  validate_record expected_hash r = do
    hash ←
        rethrow "Corrupt transaction journal record"
          (normalize_source_hash r.source_transaction_hash)
    signed ←
        rethrow "Corrupt transaction journal record"
          (normalize_source_transaction r.signed_ethereum_transaction)
    require
        ((hash == expected_hash)
          && (r.source_transaction_hash == hash)
          && (r.signed_ethereum_transaction == signed)
          && (env.keccak256 signed == hash))
        "Corrupt transaction journal record"
    check_state r.state r

  -- One entry of the loop in `requireJournal`.
  unfoldable pub check_entry : Text → JournalRecord R → Result (Unit {0})
  check_entry hash r = do
    require (is_canonical_hex 64 hash) "Corrupt transaction journal"
    validate_record hash r

  unfoldable pub require_journal : Chain R → Result (Journal R)
  require_journal chain = match_option chain.transaction_journal (ok empty_journal) (λ journal. do
    require (eqb journal.version 1) "Corrupt transaction journal"
    each check_entry journal.records
    ok journal)
