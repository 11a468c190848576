-- ===== src/Journal/Requests.antt =====
-- Runs of the journal: calls of any journal instances, one after the other. A call that throws
-- leaves the chain as it was, since the store discards what its callback did.
use openzeppelin_foundry_upg.Base.{
  Bool, true, false, ◌≡◌, List, [], ◌∷◌, Eq, arith, inl, inr, ap, sym, subst,
}
use openzeppelin_foundry_upg.Base.Text.{Text}
use openzeppelin_foundry_upg.Base.Result.{Result, ok, err, Result-cases}
use openzeppelin_foundry_upg.Journal.State.{
  NativeTransaction, Failure, Preparation, Chain, Runtime, ReceiveResult, JournalRecord,
}
use openzeppelin_foundry_upg.Journal.Operations.{
  receive_in_chain, recover_received_in_chain, record_native_built_in_chain,
  record_broadcast_in_chain, record_confirmed_in_chain, record_retained_failure_in_chain,
  record_failed_in_chain,
}
use openzeppelin_foundry_upg.Journal.Moves.{
  Records, records_of, Changes, same_records, Writes, Writes-Changes,
}
use openzeppelin_foundry_upg.Journal.Calls.{
  receive-Writes, broadcast-Writes, confirmed-Writes, retained-Writes, failed-Writes,
  recovered-Writes,
}
use openzeppelin_foundry_upg.Journal.Building.{built-Writes}

pub data Request (R : Type 0) : Type 0 where
  receives : (signed : Text) → Request R
  recovers_received : (allow_recovery : Bool) (source_hash expected_owner : Text) → Request R
  records_native_built :
      (source_hash : Text) (native : NativeTransaction) (preparation : Preparation) → Request R
  records_broadcast : (source_hash : Text) → Request R
  records_confirmed : (source_hash : Text) (receipt : R) → Request R
  records_retained_failure : (source_hash : Text) (failure : Failure) (receipt : R) → Request R
  records_failed : (source_hash : Text) (failure : Failure) → Request R

-- The request may move a record to native-built.
unfoldable pub is_building : {R : Type 0} → Request R → Bool
is_building (records_native_built source_hash native preparation) = true
is_building _ = false

-- What a call leaves behind.
abbrev pub left_by : {R A : Type 0} → Chain R → Result (Chain R × A) → Chain R
left_by chain (ok (later, a)) = later
left_by chain (err e) = chain

-- The record of a result that also says whether to build.
abbrev pub record_only :
    {R : Type 0} → Result (Chain R × ReceiveResult R) → Result (Chain R × JournalRecord R)
record_only (ok (later, result)) = ok (later, result.journal_record)
record_only (err e) = err e

module _ {R : Type 0} ⦃eq_receipt : Eq R⦄ (env : Runtime R) where
  -- The callback that a request hands to the store.
  unfoldable pub callback : Text → Request R → Chain R → Result (Chain R × JournalRecord R)
  callback owner (receives signed) chain = record_only (receive_in_chain env owner signed chain)
  callback owner (recovers_received allow source_hash expected) chain =
      record_only (recover_received_in_chain env allow owner source_hash expected chain)
  callback owner (records_native_built source_hash native preparation) chain =
      record_native_built_in_chain env owner source_hash native preparation chain
  callback owner (records_broadcast source_hash) chain =
      record_broadcast_in_chain env source_hash chain
  callback owner (records_confirmed source_hash receipt) chain =
      record_confirmed_in_chain env source_hash receipt chain
  callback owner (records_retained_failure source_hash failure receipt) chain =
      record_retained_failure_in_chain env source_hash failure receipt chain
  callback owner (records_failed source_hash failure) chain =
      record_failed_in_chain env owner source_hash failure chain

  unfoldable pub perform : Text → Request R → Chain R → Chain R
  perform owner request chain = left_by chain (callback owner request chain)

  -- Calls in order, each with the journal instance that makes it.
  unfoldable pub run : List (Text × Request R) → Chain R → Chain R
  run [] chain = chain
  run ((owner, request) ∷ rest) chain = run rest (perform owner request chain)

  record_only-ok :
      (m : Result (Chain R × ReceiveResult R)) (later : Chain R) (r : JournalRecord R)
      → record_only m ≡ ok (later, r)
      → (result : ReceiveResult R) × (m ≡ ok (later, result))
  record_only-ok (err e) later r h = absurd (ground arith)
  record_only-ok (ok (chain, result)) later r h = (result, ground arith)

  pub callback-Writes :
      (owner : Text) (request : Request R) (chain later : Chain R) (r : JournalRecord R)
      → callback owner request chain ≡ ok (later, r)
      → Writes owner (is_building request) chain later
  unfolding callback is_building
  callback-Writes owner (receives signed) chain later r h =
      let (result, done) = record_only-ok (receive_in_chain env owner signed chain) later r h in
      receive-Writes env chain later owner signed result done
  callback-Writes owner (recovers_received allow source_hash expected) chain later r h =
      let (result, done) =
        record_only-ok (recover_received_in_chain env allow owner source_hash expected chain) later
          r h in
      recovered-Writes env chain later allow owner source_hash expected result done
  callback-Writes owner (records_native_built source_hash native preparation) chain later r h =
      built-Writes env chain later owner source_hash native preparation r h
  callback-Writes owner (records_broadcast source_hash) chain later r h =
      broadcast-Writes env chain later owner source_hash r h
  callback-Writes owner (records_confirmed source_hash receipt) chain later r h =
      confirmed-Writes env chain later owner source_hash receipt r h
  callback-Writes owner (records_retained_failure source_hash failure receipt) chain later r h =
      retained-Writes env chain later owner source_hash failure receipt r h
  callback-Writes owner (records_failed source_hash failure) chain later r h =
      failed-Writes env chain later owner source_hash failure r h

  pub callback-Changes :
      (owner : Text) (request : Request R) (chain later : Chain R) (r : JournalRecord R)
      → callback owner request chain ≡ ok (later, r)
      → Changes owner (records_of chain) (records_of later)
  callback-Changes owner request chain later r h =
      Writes-Changes owner (is_building request) chain later
        (callback-Writes owner request chain later r h)

  pub perform-Changes :
      (owner : Text) (request : Request R) (chain : Chain R)
      → Changes owner (records_of chain) (records_of (perform owner request chain))
  unfolding perform
  perform-Changes owner request chain = elim (Result-cases (callback owner request chain)) [
    | inl (e, f) ↦ same_records (ap (λ m. records_of (left_by chain m)) f)
    | inr ((later, r), f) ↦
        subst (Changes owner (records_of chain)) (ap (λ m. records_of (left_by chain m)) (sym f))
          (callback-Changes owner request chain later r f)
  ]

  -- What every call keeps, every run keeps.
  pub run-keeps :
      (P : Records R → Type 0)
      → ((owner : Text) (records later : Records R)
          → Changes owner records later
          → P records
          → P later)
      → (calls : List (Text × Request R)) (chain : Chain R) → P (records_of chain)
      → P (records_of (run calls chain))
  unfolding run
  run-keeps P keeps [] chain p = p
  run-keeps P keeps ((owner, request) ∷ rest) chain p =
      run-keeps P keeps rest (perform owner request chain) (
        keeps owner (records_of chain) (records_of (perform owner request chain))
          (perform-Changes owner request chain) p)
