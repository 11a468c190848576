-- ===== src/Reconciler/Settling.antt =====
-- `reconcile` checks the reserved counters and never moves them.
use openzeppelin_foundry_upg.Base.{
  ◌≡◌, refl, sym, ◌∙◌, ap, false, none, some, [], Eq, eqb, nat_eq, list_eq, match_option, length,
  arith, inl, inr, Bool-cases, Option-cases,
}
use openzeppelin_foundry_upg.Base.Text.{Text}
use openzeppelin_foundry_upg.Base.Patterns.{to_lower}
use openzeppelin_foundry_upg.Base.Result.{ok, Result-cases}
use openzeppelin_foundry_upg.Base.Dict.{lookup, insert}
use openzeppelin_foundry_upg.AddressMap.Mappings.{require_indexes}
use openzeppelin_foundry_upg.Journal.State.{
  broadcast, confirmed, Built, JournalRecord, ReconciliationState, Chain, Runtime,
}
use openzeppelin_foundry_upg.Journal.Records.{require_journal}
use openzeppelin_foundry_upg.Journal.Operations.{
  is_state, record_confirmed_in_chain, record_retained_failure_in_chain, get,
}
use openzeppelin_foundry_upg.Journal.Moves.{Writes-counters}
use openzeppelin_foundry_upg.Journal.Calls.{confirmed-Writes, retained-Writes}
use openzeppelin_foundry_upg.Reconciler.State.{Thrown, returns, Outcome-cases}
use openzeppelin_foundry_upg.Reconciler.Checks.{for_each, require_reconciliation}
use openzeppelin_foundry_upg.Reconciler.Derive.{predicted_root, next_nonce_of}
use openzeppelin_foundry_upg.Reconciler.Prepare.{failure_of}
use openzeppelin_foundry_upg.Reconciler.Preparing.{counter, state_counter}
use openzeppelin_foundry_upg.Reconciler.Receipt.{
  ConfirmedReceipt, assert_top_level_receipt, receipt_creations, rewrite_internal_creations,
}
use openzeppelin_foundry_upg.Reconciler.Reconcile.{
  add_persisted, match_attempts, check_counter_kept, successful_attempts, successful_creations,
  record_deployment, record_children, settle_in_chain, reconcile_in_chain, reconcile_error,
  retain_failure, reconcile_open, reconcile,
}

module _ {X : Type 0} ⦃eq_receipt : Eq (ConfirmedReceipt X)⦄
    (env : Runtime (ConfirmedReceipt X)) where
  -- The counters depend on one field of the chain.
  same_field :
      (chain later : Chain (ConfirmedReceipt X)) (caller : Text)
      → later.child_create_reconciliation ≡ chain.child_create_reconciliation
      → counter later caller ≡ counter chain caller
  unfolding counter
  same_field chain later caller same =
      ap (λ s. match_option s 1 (λ state. next_nonce_of state caller)) same

  -- The confirmation of a record, after the state that was read is written back.
  confirmed_counter :
      (source_hash : Text) (receipt : ConfirmedReceipt X)
      (chain ready later : Chain (ConfirmedReceipt X)) (after : JournalRecord (ConfirmedReceipt X))
      (state : ReconciliationState) (caller : Text)
      → require_reconciliation env chain ≡ returns state
      → ready.child_create_reconciliation ≡ some state
      → record_confirmed_in_chain env source_hash receipt ready ≡ ok (later, after)
      → counter later caller ≡ counter chain caller
  unfolding counter
  confirmed_counter source_hash receipt chain ready later after state caller read written confirms =
      let kept =
        Writes-counters [] false ready later
          (confirmed-Writes env ready later [] source_hash receipt after confirms) in
      let old = state_counter env chain state caller read in ground (arith, kept, written, old)

  settled_counter :
      (source_hash : Text) (receipt : ConfirmedReceipt X) (chain later : Chain (ConfirmedReceipt X))
      (r after : JournalRecord (ConfirmedReceipt X)) (built : Built) (caller : Text)
      → settle_in_chain env source_hash receipt chain r built ≡ returns (later, after)
      → counter later caller ≡ counter chain caller
  unfolding settle_in_chain
  settled_counter source_hash receipt chain later r after built caller h =
      let context = built.prepared.operation_context in
      let plan = built.prepared.child_create_plan in
      let sender_known = insert plan.sender plan.sender [] in
      let root_known =
        match_option (predicted_root context) sender_known
          (λ root. insert root context.actual_target sender_known) in
      elim (Outcome-cases (assert_top_level_receipt env r context receipt)) [
        | inl (e, f) ↦ absurd (ground (arith, f))
        | inr (u, f) ↦
            elim (Outcome-cases
              (receipt_creations env receipt built.native.native_transaction_id)) [
                | inl (e, g) ↦ absurd (ground (arith, f, g))
                | inr (creations, g) ↦
                    elim (Bool-cases (eqb (length plan.attempts) (length creations))) [
                      | inr other ↦ absurd (ground (arith, f, g, other))
                      | inl count ↦
                          elim (Result-cases (require_indexes env.codec chain.addresses)) [
                            | inl (e, k) ↦ absurd (ground (arith, f, g, count, k))
                            | inr (indexes, k) ↦
                                elim (Outcome-cases (
                                  match_attempts plan.mode plan.attempts creations
                                    (add_persisted indexes plan.attempts root_known))) [
                                      | inl (e, l) ↦ absurd (ground (arith, f, g, count, k, l))
                                      | inr (v, l) ↦
                                          elim (Outcome-cases (require_reconciliation env chain)) [
                                            | inl (e, m) ↦
                                                absurd (ground (arith, f, g, count, k, l, m))
                                            | inr (state, m) ↦
                                                elim (Outcome-cases (
                                                  for_each (check_counter_kept state)
                                                    plan.counter_finals)) [
                                                      | inl (e, n) ↦
                                                          absurd (
                                                            ground (arith, f, g, count, k, l, m, n))
                                                      | inr (w, n) ↦
                                                          elim (Outcome-cases (
                                                            record_deployment env r context
                                                            (chain.addresses, indexes.by_actual))) [
                                                              | inl (e, o) ↦ absurd (
                                                                ground
                                                                (arith, f, g, count, k, l, m, n, o))
                                                              | inr (deployed, o) ↦
                                                                elim (Outcome-cases (
                                                                record_children env plan.sender
                                                                r.source_transaction_hash
                                                                (successful_attempts plan.attempts)
                                                                (successful_creations creations)
                                                                deployed)) [
                                                                  | inl (e, p) ↦ absurd (
                                                                    ground (
                                                                    arith, f, g, count, k, l, m, n,
                                                                    o, p,
                                                                    ))
                                                                  | inr ((addresses, known), p) ↦
                                                                    let ready : Chain
                                                                    (ConfirmedReceipt X) =
                                                                    record chain {
                                                                    addresses = addresses;
                                                                    child_create_reconciliation =
                                                                    some state;
                                                                    } in
                                                                    let rewritten =
                                                                    rewrite_internal_creations
                                                                    receipt known in
                                                                    elim (Result-cases (
                                                                    record_confirmed_in_chain env
                                                                    source_hash rewritten ready)) [
                                                                      | inl (e, q) ↦ absurd (
                                                                        ground (
                                                                        arith, f, g, count, k, l, m,
                                                                        n, o, p, q,
                                                                        ))
                                                                      | inr ((last, found), q) ↦
                                                                        let same : last ≡ later =
                                                                        ground (
                                                                        arith, f, g, count, k, l, m,
                                                                        n, o, p, q,
                                                                        ) in
                                                                        ap (λ c. counter c caller)
                                                                        (sym same)
                                                                        ∙ confirmed_counter
                                                                        source_hash rewritten chain
                                                                        ready last found state
                                                                        caller m refl q
                                                                    ]
                                                                ]
                                                            ]
                                                    ]
                                          ]
                                    ]
                          ]
                    ]
              ]
      ]

  reconciled_counter :
      (source_hash : Text) (receipt : ConfirmedReceipt X) (chain later : Chain (ConfirmedReceipt X))
      (after : JournalRecord (ConfirmedReceipt X)) (caller : Text)
      → reconcile_in_chain env source_hash receipt chain ≡ returns (later, after)
      → counter later caller ≡ counter chain caller
  unfolding reconcile_in_chain
  reconciled_counter source_hash receipt chain later after caller h =
      elim (Result-cases (require_journal env chain)) [
        | inl (e, f) ↦ absurd (ground (arith, f))
        | inr (journal, f) ↦ elim (Option-cases (lookup (to_lower source_hash) journal.records)) [
          | inl absent ↦ absurd (ground (arith, f, absent))
          | inr (r, found) ↦ elim (Bool-cases (is_state r.state broadcast)) [
            | inr wrong ↦ absurd (ground (arith, f, found, wrong))
            | inl sent ↦ elim (Option-cases r.built) [
              | inl unbuilt ↦ absurd (ground (arith, f, found, sent, unbuilt))
              | inr (built, there) ↦
                  settled_counter source_hash receipt chain later r after built caller
                    (ground (arith, f, found, sent, there))
            ]
          ]
        ]
      ]

  retained_counter :
      (source_hash : Text) (receipt : ConfirmedReceipt X) (failure : Thrown)
      (chain : Chain (ConfirmedReceipt X)) (caller : Text)
      → counter (retain_failure env source_hash receipt failure chain).0 caller
        ≡ counter chain caller
  unfolding retain_failure
  retained_counter source_hash receipt failure chain caller =
      elim (Result-cases
        (record_retained_failure_in_chain env source_hash (failure_of failure) receipt chain)) [
          | inl (e, f) ↦ ground (arith, f)
          | inr ((later, r), f) ↦
              let kept = same_field chain later caller (
                Writes-counters [] false chain later (
                  retained-Writes env chain later [] source_hash (failure_of failure) receipt r
                    f)) in
              ground (arith, f, kept)
        ]

  open_counter :
      (source_hash : Text) (receipt : ConfirmedReceipt X) (chain : Chain (ConfirmedReceipt X))
      (caller : Text)
      → counter (reconcile_open env source_hash receipt chain).0 caller ≡ counter chain caller
  unfolding reconcile_open
  open_counter source_hash receipt chain caller =
      elim (Outcome-cases (reconcile_in_chain env source_hash receipt chain)) [
        | inl (e, f) ↦
            ground (arith, f, retained_counter source_hash receipt (reconcile_error e) chain caller)
        | inr ((later, r), f) ↦
            ground (arith, f, reconciled_counter source_hash receipt chain later r caller f)
      ]

  -- However a reconciliation ends, confirmed, failed or refused, the reserved nonce of every caller
  -- is what it was.
  pub reconcile_counters :
      (source_hash : Text) (receipt : ConfirmedReceipt X) (chain : Chain (ConfirmedReceipt X))
      (caller : Text)
      → counter (reconcile env source_hash receipt chain).0 caller ≡ counter chain caller
  unfolding reconcile
  reconcile_counters source_hash receipt chain caller =
      elim (Result-cases (get env (some chain) source_hash)) [
        | inl (e, f) ↦ ground (arith, f)
        | inr (none, f) ↦ ground (arith, f, open_counter source_hash receipt chain caller)
        | inr (some r, f) ↦ elim (Bool-cases (is_state r.state confirmed)) [
          | inl already ↦ ground (arith, f, already)
          | inr open_record ↦
              ground (arith, f, open_record, open_counter source_hash receipt chain caller)
        ]
      ]
