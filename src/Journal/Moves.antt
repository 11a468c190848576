-- ===== src/Journal/Moves.antt =====
-- What an operation of the journal may do to its records.
use openzeppelin_foundry_upg.Base.{
  ◌≡◌, ◌≢◌, refl, sym, ◌∙◌, ap, Bool, true, false, none, some, [], nat_eq, list_eq, option_eq,
  match_option, arith, inl, inr, Option-cases,
}
use openzeppelin_foundry_upg.Base.Text.{Text}
use openzeppelin_foundry_upg.Base.Result.{ok, Result-cases}
use openzeppelin_foundry_upg.Base.Loops.{each}
use openzeppelin_foundry_upg.Base.Dict.{Dict, lookup, insert}
use openzeppelin_foundry_upg.Journal.State.{
  JournalState, received, native_built, broadcast, confirmed, failed, NativeTransaction, Failure,
  Preparation, JournalRecord, Journal, Chain, Runtime,
}
use openzeppelin_foundry_upg.Journal.Records.{check_entry, require_journal}
use openzeppelin_foundry_upg.Journal.Operations.{
  is_state, put_record, fresh_record, built_record, failed_record, nonce_in_flight,
}

abbrev pub Records : Type 0 → Type 0
Records R = Dict Text (JournalRecord R)

pub is_state-eq : (a b : JournalState) → is_state a b ≡ true → a ≡ b
unfolding is_state
is_state-eq a b h = ground arith

module _ {R : Type 0} where
  -- The records of a chain, none when the journal is absent.
  unfoldable pub records_of : Chain R → Records R
  records_of chain = match_option chain.transaction_journal [] (λ j. j.records)

  -- The record under `hash` is replaced by `after` in a call of the journal instance `owner`.
  pub data Moves (owner : Text) (records : Records R) (hash : Text) (after : JournalRecord R)
      : Type 0 where
    arrives :
        (source : Text)
        → lookup hash records ≡ none
        → after ≡ fresh_record owner hash source
        → Moves owner records hash after
    recovers :
        (r : JournalRecord R)
        → lookup hash records ≡ some r
        → r.state ≡ received
        → after ≡ record r { build_claim_owner = some owner }
        → Moves owner records hash after
    builds :
        (r : JournalRecord R) (native : NativeTransaction) (prepared : Preparation)
        → lookup hash records ≡ some r
        → r.state ≡ received
        → r.build_claim_owner ≡ some owner
        → nonce_in_flight hash prepared.operation_context.from prepared.operation_context.nonce
            records
          ≡ false
        → after ≡ built_record native prepared r
        → Moves owner records hash after
    broadcasts :
        (r : JournalRecord R)
        → lookup hash records ≡ some r
        → r.state ≡ native_built
        → after ≡ record r { state = broadcast }
        → Moves owner records hash after
    confirms :
        (r : JournalRecord R) (receipt : R)
        → lookup hash records ≡ some r
        → r.state ≡ broadcast
        → after ≡ record r { state = confirmed; receipt = some receipt }
        → Moves owner records hash after
    retains :
        (r : JournalRecord R) (failure : Failure) (receipt : R)
        → lookup hash records ≡ some r
        → r.state ≡ broadcast
        → after ≡ record r { state = failed; failure = some failure; receipt = some receipt }
        → Moves owner records hash after
    fails :
        (r : JournalRecord R) (failure : Failure)
        → lookup hash records ≡ some r
        → r.state ≢ confirmed
        → r.state ≢ failed
        → (r.state ≡ received → r.build_claim_owner ≡ some owner)
        → after ≡ failed_record failure r
        → Moves owner records hash after

  -- One record of the journal moves, or none does.
  pub data Changes (owner : Text) (records later : Records R) : Type 0 where
    same_records : later ≡ records → Changes owner records later
    moved :
        (hash : Text) (after : JournalRecord R)
        → Moves owner records hash after
        → later ≡ insert hash after records
        → Changes owner records later

  -- A call leaves the chain alone, or writes one record that moved, to native-built only if it may.
  pub data Writes (owner : Text) (may_build : Bool) (chain later : Chain R) : Type 0 where
    unwritten : chain ≡ later → Writes owner may_build chain later
    wrote :
        (journal : Journal R) (hash : Text) (after : JournalRecord R)
        → journal.records ≡ records_of chain
        → Moves owner (records_of chain) hash after
        → (after.state ≡ native_built → may_build ≡ true)
        → put_record chain journal hash after ≡ later
        → Writes owner may_build chain later

  -- The records that an operation reads are those of the chain.
  pub records_of-require_journal :
      (env : Runtime R) (chain : Chain R) (journal : Journal R)
      → require_journal env chain ≡ ok journal
      → journal.records ≡ records_of chain
  unfolding records_of require_journal
  records_of-require_journal env chain journal h = elim (Option-cases chain.transaction_journal) [
    | inl absent ↦ ground (arith, absent)
    | inr (raw, there) ↦ elim (Result-cases (each (check_entry env) raw.records)) [
      | inl (e, refused) ↦ absurd (ground (arith, there, refused))
      | inr (u, checked) ↦ ground (arith, there, checked)
    ]
  ]

  pub records_of-put_record :
      (chain : Chain R) (journal : Journal R) (hash : Text) (r : JournalRecord R)
      → records_of (put_record chain journal hash r) ≡ insert hash r journal.records
  unfolding records_of put_record
  records_of-put_record chain journal hash r = refl

  pub Writes-Changes :
      (owner : Text) (may_build : Bool) (chain later : Chain R)
      → Writes owner may_build chain later
      → Changes owner (records_of chain) (records_of later)
  Writes-Changes owner may_build chain later (unwritten e) = same_records (ap records_of (sym e))
  Writes-Changes owner may_build chain later (wrote journal hash after same move may e) =
      moved hash after move (
        ap records_of (sym e)
        ∙ records_of-put_record chain journal hash after
        ∙ ap (insert hash after) same)

  -- The journal leaves the reconciler's counters alone.
  pub Writes-counters :
      (owner : Text) (may_build : Bool) (chain later : Chain R)
      → Writes owner may_build chain later
      → later.child_create_reconciliation ≡ chain.child_create_reconciliation
  unfolding put_record
  Writes-counters owner may_build chain later (unwritten e) =
      ap (λ (c : Chain R). c.child_create_reconciliation) (sym e)
  Writes-counters owner may_build chain later (wrote journal hash after same move may e) =
      ap (λ (c : Chain R). c.child_create_reconciliation) (sym e)
