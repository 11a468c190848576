-- ===== src/Journal/Calls.antt =====
-- Each operation of the journal, when it returns, moves at most one record.
use openzeppelin_foundry_upg.Base.{
  ◌≡◌, ◌≢◌, refl, ap, Bool, true, false, not, ◌&&◌, Option, none, some, Eq, ◌==◌, nat_eq, list_eq,
  option_eq, match_option, arith, inl, inr, Bool-cases, Option-cases, subst,
}
use openzeppelin_foundry_upg.Base.Text.{Text, text_iff}
use openzeppelin_foundry_upg.Base.Result.{ok, require, Result-cases}
use openzeppelin_foundry_upg.Base.Dict.{lookup}
use openzeppelin_foundry_upg.Journal.State.{
  JournalState, received, native_built, broadcast, confirmed, failed, Failure, JournalRecord,
  Journal, Chain, Runtime, ReceiveResult,
}
use openzeppelin_foundry_upg.Journal.Equality.{same_failure}
use openzeppelin_foundry_upg.Journal.Validation.{
  normalize_source_hash, normalize_source_transaction, validate_failure, validate_owner_id,
  durable_receipt,
}
use openzeppelin_foundry_upg.Journal.Records.{require_record, require_journal}
use openzeppelin_foundry_upg.Journal.Operations.{
  is_state, is_claimed_by, put_record, fresh_record, failed_record, receive_in_chain,
  recover_received_in_chain, record_broadcast_in_chain, record_confirmed_in_chain,
  record_retained_failure_in_chain, record_failed_in_chain,
}
use openzeppelin_foundry_upg.Journal.Moves.{
  Moves, arrives, recovers, broadcasts, confirms, retains, fails, Writes, unwritten, wrote,
  is_state-eq, records_of-require_journal,
}

pub claimed-eq :
    (owner : Text) (claim : Option Text) → is_claimed_by owner claim ≡ true → claim ≡ some owner
unfolding is_claimed_by
claimed-eq owner none h = cc
claimed-eq owner (some claimed) h = ap some ((text_iff claimed owner).0 h)

is_state-ne : (a b : JournalState) → is_state a b ≡ false → a ≢ b
unfolding is_state
is_state-ne a b h e = ground arith

module _ {R : Type 0} ⦃eq_receipt : Eq R⦄ (env : Runtime R) (chain chain' : Chain R) where
  pub written-Writes :
      (owner : Text) (may_build : Bool) (journal : Journal R) (hash : Text) (next : JournalRecord R)
      → require_journal env chain ≡ ok journal
      → Moves owner journal.records hash next
      → (next.state ≡ native_built → may_build ≡ true)
      → put_record chain journal hash next ≡ chain'
      → Writes owner may_build chain chain'
  written-Writes owner may_build journal hash next read move may put =
      let same = records_of-require_journal env chain journal read in
      wrote journal hash next same (subst (λ d. Moves owner d hash next) same move) may put

  pub receive-Writes :
      (owner signed : Text) (result : ReceiveResult R)
      → receive_in_chain env owner signed chain ≡ ok (chain', result)
      → Writes owner false chain chain'
  unfolding receive_in_chain
  receive-Writes owner signed result h = elim (Result-cases (normalize_source_transaction signed)) [
    | inl (e, f) ↦ absurd (ground (arith, f))
    | inr (source, f) ↦ elim (Result-cases (require_journal env chain)) [
      | inl (e, g) ↦ absurd (ground (arith, f, g))
      | inr (journal, g) ↦ elim (Option-cases (lookup (env.keccak256 source) journal.records)) [
        | inl absent ↦
            written-Writes owner false journal (env.keccak256 source)
              (fresh_record owner (env.keccak256 source) source) g (arrives source absent refl)
              (λ e. absurd (ground arith)) (ground (arith, f, g, absent))
        | inr (existing, found) ↦ unwritten (ground (arith, f, g, found))
      ]
    ]
  ]

  pub broadcast-Writes :
      (owner source_hash : Text) (result : JournalRecord R)
      → record_broadcast_in_chain env source_hash chain ≡ ok (chain', result)
      → Writes owner false chain chain'
  unfolding record_broadcast_in_chain require_record
  broadcast-Writes owner source_hash result h =
      elim (Result-cases (normalize_source_hash source_hash)) [
        | inl (e, f) ↦ absurd (ground (arith, f))
        | inr (hash, f) ↦ elim (Result-cases (require_journal env chain)) [
          | inl (e, g) ↦ absurd (ground (arith, f, g))
          | inr (journal, g) ↦ elim (Option-cases (lookup hash journal.records)) [
            | inl absent ↦ absurd (ground (arith, f, g, absent))
            | inr (r, found) ↦ elim (Bool-cases (is_state r.state broadcast)) [
              | inl already ↦ unwritten (ground (arith, f, g, found, already))
              | inr other ↦ elim (Bool-cases (is_state r.state native_built)) [
                | inl before ↦
                    written-Writes owner false journal hash (record r { state = broadcast }) g
                      (broadcasts r found (is_state-eq r.state native_built before) refl)
                      (λ e. absurd (ground arith)) (ground (arith, f, g, found, other, before))
                | inr wrong ↦ absurd (ground (arith, f, g, found, other, wrong))
              ]
            ]
          ]
        ]
      ]

  pub confirmed-Writes :
      (owner source_hash : Text) (receipt : R) (result : JournalRecord R)
      → record_confirmed_in_chain env source_hash receipt chain ≡ ok (chain', result)
      → Writes owner false chain chain'
  unfolding record_confirmed_in_chain require_record
  confirmed-Writes owner source_hash receipt result h =
      elim (Result-cases (normalize_source_hash source_hash)) [
        | inl (e, f) ↦ absurd (ground (arith, f))
        | inr (hash, f) ↦ elim (Result-cases (durable_receipt env receipt)) [
          | inl (e, p) ↦ absurd (ground (arith, f, p))
          | inr (persisted, p) ↦ elim (Result-cases (require_journal env chain)) [
            | inl (e, g) ↦ absurd (ground (arith, f, p, g))
            | inr (journal, g) ↦ elim (Option-cases (lookup hash journal.records)) [
              | inl absent ↦ absurd (ground (arith, f, p, g, absent))
              | inr (r, found) ↦ elim (Bool-cases (is_state r.state confirmed)) [
                | inl already ↦ elim (Bool-cases (r.receipt == some persisted)) [
                  | inl same ↦ unwritten (ground (arith, f, p, g, found, already, same))
                  | inr differs ↦ absurd (ground (arith, f, p, g, found, already, differs))
                ]
                | inr other ↦ elim (Bool-cases (is_state r.state broadcast)) [
                  | inl before ↦
                      written-Writes owner false journal hash
                        (record r { state = confirmed; receipt = some persisted }) g
                        (confirms r persisted found (is_state-eq r.state broadcast before) refl)
                        (λ e. absurd (ground arith)) (ground (arith, f, p, g, found, other, before))
                  | inr wrong ↦ absurd (ground (arith, f, p, g, found, other, wrong))
                ]
              ]
            ]
          ]
        ]
      ]

  pub retained-Writes :
      (owner source_hash : Text) (failure : Failure) (receipt : R) (result : JournalRecord R)
      → record_retained_failure_in_chain env source_hash failure receipt chain ≡ ok (chain', result)
      → Writes owner false chain chain'
  unfolding record_retained_failure_in_chain require_record
  retained-Writes owner source_hash failure receipt result h =
      elim (Result-cases (normalize_source_hash source_hash)) [
        | inl (e, f) ↦ absurd (ground (arith, f))
        | inr (hash, f) ↦ elim (Result-cases (validate_failure failure)) [
          | inl (e, d) ↦ absurd (ground (arith, f, d))
          | inr (durable, d) ↦ elim (Result-cases (durable_receipt env receipt)) [
            | inl (e, p) ↦ absurd (ground (arith, f, d, p))
            | inr (persisted, p) ↦ elim (Result-cases (require_journal env chain)) [
              | inl (e, g) ↦ absurd (ground (arith, f, d, p, g))
              | inr (journal, g) ↦ elim (Option-cases (lookup hash journal.records)) [
                | inl absent ↦ absurd (ground (arith, f, d, p, g, absent))
                | inr (r, found) ↦ elim (Bool-cases (is_state r.state broadcast)) [
                  | inl before ↦
                      written-Writes owner false journal hash
                        (record r {
                          state = failed;
                          failure = some durable;
                          receipt = some persisted;
                        })
                        g
                        (retains r durable persisted found (is_state-eq r.state broadcast before)
                          refl)
                        (λ e. absurd (ground arith)) (ground (arith, f, d, p, g, found, before))
                  | inr wrong ↦ absurd (ground (arith, f, d, p, g, found, wrong))
                ]
              ]
            ]
          ]
        ]
      ]

  pub failed-Writes :
      (owner source_hash : Text) (failure : Failure) (result : JournalRecord R)
      → record_failed_in_chain env owner source_hash failure chain ≡ ok (chain', result)
      → Writes owner false chain chain'
  unfolding record_failed_in_chain require_record
  failed-Writes owner source_hash failure result h =
      elim (Result-cases (normalize_source_hash source_hash)) [
        | inl (e, f) ↦ absurd (ground (arith, f))
        | inr (hash, f) ↦ elim (Result-cases (validate_failure failure)) [
          | inl (e, d) ↦ absurd (ground (arith, f, d))
          | inr (durable, d) ↦ elim (Result-cases (require_journal env chain)) [
            | inl (e, g) ↦ absurd (ground (arith, f, d, g))
            | inr (journal, g) ↦ elim (Option-cases (lookup hash journal.records)) [
              | inl absent ↦ absurd (ground (arith, f, d, g, absent))
              | inr (r, found) ↦ elim (Bool-cases (is_state r.state failed)) [
                | inl already ↦
                    elim (Bool-cases (match_option r.failure false (λ x. same_failure x durable))) [
                      | inl same ↦ unwritten (ground (arith, f, d, g, found, already, same))
                      | inr differs ↦ absurd (ground (arith, f, d, g, found, already, differs))
                    ]
                | inr open_record ↦ elim (Bool-cases (is_state r.state confirmed)) [
                  | inl over ↦ absurd (ground (arith, f, d, g, found, open_record, over))
                  | inr unconfirmed ↦
                      elim (Bool-cases (
                        is_state r.state received
                        && not (is_claimed_by owner r.build_claim_owner))) [
                          | inl foreign ↦
                              absurd
                                (ground (arith, f, d, g, found, open_record, unconfirmed, foreign))
                          | inr own ↦
                              written-Writes owner false journal hash (failed_record durable r) g
                                (fails r durable found (is_state-ne r.state confirmed unconfirmed)
                                  (is_state-ne r.state failed open_record)
                                  (λ e.
                                    claimed-eq owner r.build_claim_owner
                                      (unfold is_state in ground (arith, own, e)))
                                  refl)
                                (λ e. absurd (ground arith))
                                (ground (arith, f, d, g, found, open_record, unconfirmed, own))
                        ]
                ]
              ]
            ]
          ]
        ]
      ]

  pub recovered-Writes :
      (allow_recovery : Bool) (owner source_hash expected_owner : Text) (result : ReceiveResult R)
      → recover_received_in_chain env allow_recovery owner source_hash expected_owner chain
        ≡ ok (chain', result)
      → Writes owner false chain chain'
  unfolding recover_received_in_chain require_record
  recovered-Writes allow_recovery owner source_hash expected_owner result h =
      elim (Result-cases (require allow_recovery "Transaction journal recovery is not enabled")) [
        | inl (e, a) ↦ absurd (ground (arith, a))
        | inr (u, a) ↦ elim (Result-cases (normalize_source_hash source_hash)) [
          | inl (e, f) ↦ absurd (ground (arith, a, f))
          | inr (hash, f) ↦ elim (Result-cases (validate_owner_id expected_owner)) [
            | inl (e, v) ↦ absurd (ground (arith, a, f, v))
            | inr (previous, v) ↦ elim (Result-cases (require_journal env chain)) [
              | inl (e, g) ↦ absurd (ground (arith, a, f, v, g))
              | inr (journal, g) ↦ elim (Option-cases (lookup hash journal.records)) [
                | inl absent ↦ absurd (ground (arith, a, f, v, g, absent))
                | inr (r, found) ↦ elim (Bool-cases (is_state r.state received)) [
                  | inr wrong ↦ absurd (ground (arith, a, f, v, g, found, wrong))
                  | inl waiting ↦ elim (Bool-cases (previous == owner)) [
                    | inl own ↦ absurd (ground (arith, a, f, v, g, found, waiting, own))
                    | inr foreign ↦ elim (Bool-cases (is_claimed_by previous r.build_claim_owner)) [
                      | inr stale ↦
                          absurd (ground (arith, a, f, v, g, found, waiting, foreign, stale))
                      | inl held ↦
                          written-Writes owner false journal hash
                            (record r { build_claim_owner = some owner }) g
                            (recovers r found (is_state-eq r.state received waiting) refl)
                            (λ e. absurd (ground (arith, is_state-eq r.state received waiting)))
                            (ground (arith, a, f, v, g, found, waiting, foreign, held))
                    ]
                  ]
                ]
              ]
            ]
          ]
        ]
      ]
