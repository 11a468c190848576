-- ===== src/Reconciler/Preparing.antt =====
-- `recordPreparedNative` keeps the slots of the journal's plans below the reserved counters, and each
-- slot in one plan.
use openzeppelin_foundry_upg.Base.{
  ℕ, ◌≡◌, sym, ◌∙◌, ap, subst, true, false, none, some, Eq, ◌==◌, nat_eq, list_eq, match_option,
  if◌then◌else◌, arith, inl, inr, Bool-cases, Option-cases,
}
use openzeppelin_foundry_upg.Base.Text.{Text}
use openzeppelin_foundry_upg.Base.Patterns.{to_lower}
use openzeppelin_foundry_upg.Base.Result.{ok, Result-cases}
use openzeppelin_foundry_upg.Base.Dict.{lookup, insert}
use openzeppelin_foundry_upg.Journal.State.{
  received, NativeTransaction, OperationContext, Preparation, JournalRecord, Journal,
  ReconciliationState, Chain, Runtime,
}
use openzeppelin_foundry_upg.Journal.Validation.{normalize_source_hash, validate_operation_context}
use openzeppelin_foundry_upg.Journal.Plan.{validate_child_create_plan, validate_preparation}
use openzeppelin_foundry_upg.Journal.Attempts.{plan_slots}
use openzeppelin_foundry_upg.Journal.Records.{require_journal}
use openzeppelin_foundry_upg.Journal.Operations.{
  is_state, put_record, built_record, get, record_native_built_in_chain, record_failed_in_chain,
}
use openzeppelin_foundry_upg.Journal.Moves.{
  records_of, Writes, unwritten, wrote, records_of-put_record, records_of-require_journal,
}
use openzeppelin_foundry_upg.Journal.Calls.{failed-Writes}
use openzeppelin_foundry_upg.Journal.Building.{native_built-cases, is_built}
use openzeppelin_foundry_upg.Reconciler.State.{Thrown, returns, Outcome-cases, Simulation}
use openzeppelin_foundry_upg.Reconciler.Checks.{
  require_reconciliation, check_reconciliation, empty_reconciliation, for_each, check_reserved,
}
use openzeppelin_foundry_upg.Reconciler.Derive.{next_nonce_of, derive_plan}
use openzeppelin_foundry_upg.Reconciler.Counting.{Counts, derive_plan-Counts}
use openzeppelin_foundry_upg.Reconciler.Prepare.{
  reserve_child_create_counters, was_received, prepare_in_chain, refuse_received, failure_of,
}
use openzeppelin_foundry_upg.Reconciler.Reserving.{
  lookup-reserve_all, slots_of, Reserves, Takes, insert-Reserves, Moves-Takes,
}

module _ {R : Type 0} where
  -- The nonce that the next child of a caller takes.
  unfoldable pub counter : Chain R → Text → ℕ
  counter chain caller =
      match_option chain.child_create_reconciliation 1 (λ state. next_nonce_of state caller)

  abbrev pub ChainReserves : Chain R → Type 0
  ChainReserves chain = Reserves (records_of chain) (counter chain)

  -- A write of the journal that builds nothing.
  pub idle-ChainReserves :
      (owner : Text) (chain later : Chain R)
      → Writes owner false chain later
      → ChainReserves chain
      → ChainReserves later
  unfolding put_record counter
  idle-ChainReserves owner chain later (unwritten e) before = subst ChainReserves e before
  idle-ChainReserves owner chain later (wrote journal hash after same move may e) before =
      let inserted : Reserves (insert hash after (records_of chain)) (counter chain) =
        insert-Reserves (records_of chain) (counter chain) (counter chain) hash after
          (λ caller. omega arith)
          (Moves-Takes owner (records_of chain) hash after (counter chain) (counter chain) move may)
          before in
      let there : Reserves (records_of (put_record chain journal hash after)) (counter chain) =
        subst (λ d. Reserves d (counter chain))
          (sym (records_of-put_record chain journal hash after ∙ ap (insert hash after) same))
          inserted in
      subst ChainReserves e there

module _ {R : Type 0} ⦃eq_receipt : Eq R⦄ (env : Runtime R) where
  pub state_counter :
      (chain : Chain R) (state : ReconciliationState) (caller : Text)
      → require_reconciliation env chain ≡ returns state
      → counter chain caller ≡ next_nonce_of state caller
  unfolding require_reconciliation check_reconciliation counter empty_reconciliation next_nonce_of
      lookup
  state_counter chain state caller h = elim (Option-cases chain.child_create_reconciliation) [
    | inl absent ↦ ground (arith, absent)
    | inr (raw, there) ↦
        elim (Outcome-cases (for_each (check_reserved env) raw.next_nonce_by_caller)) [
          | inl (e, f) ↦ absurd (ground (arith, there, f))
          | inr (u, f) ↦ ground (arith, there, f)
        ]
  ]

  -- The plan of a validated preparation is a validated plan.
  validated_plan :
      (preparation prepared : Preparation)
      → validate_preparation env preparation ≡ ok prepared
      → validate_child_create_plan env preparation.child_create_plan ≡ ok prepared.child_create_plan
  unfolding validate_preparation
  validated_plan preparation prepared h =
      elim (Result-cases (validate_operation_context env preparation.operation_context)) [
        | inl (e, f) ↦ absurd (ground (arith, f))
        | inr (context, f) ↦
            elim (Result-cases (validate_child_create_plan env preparation.child_create_plan)) [
              | inl (e, g) ↦ absurd (ground (arith, f, g))
              | inr (plan, g) ↦ elim (Bool-cases (context.from == plan.sender)) [
                | inl same ↦ ground (arith, f, g, same)
                | inr other ↦ absurd (ground (arith, f, g, other))
              ]
            ]
      ]

  -- The counters after the reservation of a plan.
  reserved_counter :
      (chain built later : Chain R) (preparation : Preparation) (state : ReconciliationState)
      (caller : Text)
      → built.child_create_reconciliation ≡ chain.child_create_reconciliation
      → require_reconciliation env chain ≡ returns state
      → Counts state preparation.child_create_plan.counter_bases
          preparation.child_create_plan.counter_finals
      → reserve_child_create_counters env built preparation.child_create_plan ≡ returns later
      → counter later caller
        ≡ match_option
            (lookup caller preparation.child_create_plan.counter_finals)
            (counter chain caller)
            (λ n. n)
  unfolding reserve_child_create_counters counter next_nonce_of
  reserved_counter chain built later preparation state caller same read counts h =
      let read' : require_reconciliation env built ≡ returns state =
        unfold require_reconciliation in ground (arith, same, read) in
      let finals = preparation.child_create_plan.counter_finals in
      let old = state_counter chain state caller read in
      ground
        (arith, h, read', old, lookup-reserve_all finals state.next_nonce_by_caller caller counts.0)

  reserved_records :
      (built later : Chain R) (preparation : Preparation)
      → reserve_child_create_counters env built preparation.child_create_plan ≡ returns later
      → records_of later ≡ records_of built
  unfolding reserve_child_create_counters records_of
  reserved_records built later preparation h =
      elim (Outcome-cases (require_reconciliation env built)) [
        | inl (e, f) ↦ absurd (ground (arith, f))
        | inr (state, f) ↦ ground (arith, h, f)
      ]

  -- The stages of a preparation that returned.
  prepare-stages :
      (owner source_hash : Text) (native : NativeTransaction) (simulation : Simulation)
      (context : OperationContext) (chain later : Chain R) (r : JournalRecord R)
      → prepare_in_chain env owner source_hash native simulation context chain ≡ returns (later, r)
      → (journal : Journal R) × (preparation : Preparation) × (built : Chain R) × (require_journal
            env chain
          ≡ ok journal)
        × (derive_plan env chain simulation context native.native_transaction_id
            ≡ returns preparation)
        × (record_native_built_in_chain env owner source_hash native preparation chain
            ≡ ok (built, r))
        × ((if was_received env journal source_hash
              then reserve_child_create_counters env built preparation.child_create_plan
              else returns built)
            ≡ returns later)
  unfolding prepare_in_chain
  prepare-stages owner source_hash native simulation context chain later r h =
      elim (Result-cases (require_journal env chain)) [
        | inl (e, f) ↦ absurd (ground (arith, f))
        | inr (journal, f) ↦
            elim (Outcome-cases
              (derive_plan env chain simulation context native.native_transaction_id)) [
                | inl (e, g) ↦ absurd (ground (arith, f, g))
                | inr (preparation, g) ↦
                    elim (Result-cases (
                      record_native_built_in_chain env owner source_hash native preparation
                        chain)) [
                          | inl (e, k) ↦ absurd (ground (arith, f, g, k))
                          | inr ((built, found), k) ↦
                              elim (Outcome-cases (
                                if was_received env journal source_hash
                                then reserve_child_create_counters env built
                                    preparation.child_create_plan
                                else returns built)) [
                                  | inl (e, l) ↦ absurd (ground (arith, f, g, k, l))
                                  | inr (last, l) ↦
                                      let same : found ≡ r = ground (arith, h, f, g, k, l) in
                                      let same' : last ≡ later = ground (arith, h, f, g, k, l) in
                                      (
                                        journal,
                                        preparation,
                                        built,
                                        f,
                                        g,
                                        ground (arith, k, same),
                                        ground (arith, l, same'),
                                      )
                                ]
                        ]
              ]
      ]

  -- What a fresh native transaction takes, against the counters that its plan reserves.
  plan-Takes :
      (chain later : Chain R) (preparation prepared : Preparation) (native : NativeTransaction)
      (hash : Text) (r : JournalRecord R) (state : ReconciliationState)
      → require_reconciliation env chain ≡ returns state
      → Counts state preparation.child_create_plan.counter_bases
          preparation.child_create_plan.counter_finals
      → validate_preparation env preparation ≡ ok prepared
      → ((caller : Text)
          → counter later caller
            ≡ match_option
                (lookup caller preparation.child_create_plan.counter_finals)
                (counter chain caller)
                (λ n. n))
      → Takes
          (records_of chain)
          hash
          (built_record native prepared r)
          (counter chain)
          (counter later)
  unfolding slots_of
  plan-Takes chain later preparation prepared native hash r state read counts valid reserved caller
        nonce taken =
      let plan = validated_plan preparation prepared valid in
      let (bases, finals, how) =
        plan_slots env preparation.child_create_plan prepared.child_create_plan caller nonce plan in
      elim how [
        | inl free ↦ absurd (omega (arith, taken, free))
        | inr (one, (first, last, at_first, at_last, low, high)) ↦
            let base = counts.1 caller first (ap (lookup caller) (sym bases) ∙ at_first) in
            let final = ap (lookup caller) (sym finals) ∙ at_last in
            let old = state_counter chain state caller read in
            inr (ground (arith, low, base, old), ground (arith, reserved caller, final, high))
      ]

  built_counters :
      (chain built : Chain R) (journal : Journal R) (hash : Text) (after : JournalRecord R)
      → put_record chain journal hash after ≡ built
      → built.child_create_reconciliation ≡ chain.child_create_reconciliation
  unfolding put_record
  built_counters chain built journal hash after put =
      ap (λ (c : Chain R). c.child_create_reconciliation) (sym put)

  -- A fresh native transaction, with the reservation of its plan.
  built-ChainReserves :
      (chain built later : Chain R) (preparation prepared : Preparation)
      (native : NativeTransaction) (hash : Text) (r : JournalRecord R) (simulation : Simulation)
      (context : OperationContext) (id : Text)
      → derive_plan env chain simulation context id ≡ returns preparation
      → validate_preparation env preparation ≡ ok prepared
      → built.child_create_reconciliation ≡ chain.child_create_reconciliation
      → records_of later ≡ insert hash (built_record native prepared r) (records_of chain)
      → reserve_child_create_counters env built preparation.child_create_plan ≡ returns later
      → ChainReserves chain
      → ChainReserves later
  built-ChainReserves chain built later preparation prepared native hash r simulation context id
        derived valid same written reserved before =
      let (state, read, counts) =
        derive_plan-Counts env chain simulation context id preparation derived in
      let counted = λ (caller : Text).
        reserved_counter chain built later preparation state caller same read counts reserved in
      let after = built_record native prepared r in
      subst (λ d. Reserves d (counter later)) (sym written)
        (insert-Reserves (records_of chain) (counter chain) (counter later) hash after
          (λ caller.
            elim (Option-cases (lookup caller preparation.child_create_plan.counter_finals)) [
              | inl absent ↦ ground (arith, counted caller, absent)
              | inr (final, there) ↦ ground (
                arith,
                counted caller,
                there,
                counts.2 caller final there,
                state_counter chain state caller read,
              )
            ])
          (plan-Takes chain later preparation prepared native hash r state read counts valid
            counted)
          before)

  pub prepare-ChainReserves :
      (owner source_hash : Text) (native : NativeTransaction) (simulation : Simulation)
      (context : OperationContext) (chain later : Chain R) (r : JournalRecord R)
      → prepare_in_chain env owner source_hash native simulation context chain ≡ returns (later, r)
      → ChainReserves chain
      → ChainReserves later
  unfolding was_received is_state normalize_source_hash
  prepare-ChainReserves owner source_hash native simulation context chain later r h before =
      let (journal, preparation, built, read, derived, recorded, end) =
        prepare-stages owner source_hash native simulation context chain later r h in
      let (hash, journal', old, named, read', found, how) =
        native_built-cases env chain built owner source_hash native preparation r recorded in
      let same_journal : journal ≡ journal' = ground (arith, read, read') in
      let named_lower : hash ≡ to_lower source_hash = ground (arith, named) in
      elim how [
        | inl (already, kept) ↦
            let seen : was_received env journal source_hash ≡ false =
              ground (arith, same_journal, named_lower, found, already) in
            let unchanged : chain ≡ later = ground (arith, seen, end, kept) in
            subst ChainReserves unchanged before
        | inr now ↦ elim now [
          | is_built n prepared valid waiting move put ↦
              let seen : was_received env journal source_hash ≡ true =
                ground (arith, same_journal, named_lower, found, waiting) in
              let reserved : reserve_child_create_counters env built preparation.child_create_plan
                  ≡ returns later =
                ground (arith, seen, end) in
              let after = built_record n prepared old in
              let written : records_of built ≡ insert hash after (records_of chain) =
                ap records_of (sym put)
                ∙ records_of-put_record chain journal' hash after
                ∙ ap (insert hash after) (records_of-require_journal env chain journal' read') in
              built-ChainReserves chain built later preparation prepared n hash old simulation
                context native.native_transaction_id derived valid
                (built_counters chain built journal' hash after put)
                (reserved_records built later preparation reserved ∙ written) reserved before
        ]
      ]

  pub refuse-ChainReserves :
      (owner source_hash : Text) (failure : Thrown) (chain : Chain R)
      → ChainReserves chain
      → ChainReserves (refuse_received env owner source_hash failure chain).0
  unfolding refuse_received
  refuse-ChainReserves owner source_hash failure chain before =
      elim (Result-cases (get env (some chain) source_hash)) [
        | inl (e, f) ↦ subst ChainReserves (ground (arith, f)) before
        | inr (none, f) ↦ subst ChainReserves (ground (arith, f)) before
        | inr (some r, f) ↦ elim (Bool-cases (is_state r.state received)) [
          | inr other ↦ subst ChainReserves (ground (arith, f, other)) before
          | inl waiting ↦
              elim (Result-cases
                (record_failed_in_chain env owner source_hash (failure_of failure) chain)) [
                  | inl (e, g) ↦ subst ChainReserves (ground (arith, f, waiting, g)) before
                  | inr ((later, failed), g) ↦ subst ChainReserves (ground (arith, f, waiting, g)) (
                      idle-ChainReserves owner chain later
                        (failed-Writes env chain later owner source_hash (failure_of failure) failed
                          g)
                        before)
                ]
        ]
      ]
