-- ===== src/Reconciler/Counting.antt =====
-- The counters that the loop of `derivePlan` keeps start from the reserved nonces and only grow.
use openzeppelin_foundry_upg.Base.{
  ℕ, suc, ◌≤◌, ◌≡◌, sym, subst, subst₂, true, false, not, Option, none, some, List, [], ◌∷◌, nat_eq,
  list_eq, match_option, if◌then◌else◌, if-ind, arith, inl, inr, Bool-cases, Option-cases, eqb,
}
use openzeppelin_foundry_upg.Base.Text.{Text, text_iff}
use openzeppelin_foundry_upg.Base.Result.{Result-cases}
use openzeppelin_foundry_upg.Base.Dict.{Dict, lookup, has, IsUnique, lookup-insert, insert-IsUnique}
use openzeppelin_foundry_upg.AddressMap.State.{AddressMapIndexes}
use openzeppelin_foundry_upg.AddressMap.Mappings.{require_indexes}
use openzeppelin_foundry_upg.Journal.State.{
  SimulationMode, exact_signed, constant_create, OperationContext, ChildCreateMetadata,
  ChildCreateAttempt, Preparation, ReconciliationState, Chain, Runtime,
}
use openzeppelin_foundry_upg.Journal.Equality.{same_mode}
use openzeppelin_foundry_upg.Journal.Validation.{validate_operation_context}
use openzeppelin_foundry_upg.Journal.Plan.{create_address}
use openzeppelin_foundry_upg.Reconciler.State.{returns, Outcome-cases, RawAttempt, Simulation}
use openzeppelin_foundry_upg.Reconciler.Checks.{
  normalize_trace_address, contract_metadata_of, require_reconciliation, proxy_admin_metadata,
  validate_simulation, assert_constant_profile, assert_predicted_child_available,
  assert_child_mapping_available,
}
use openzeppelin_foundry_upg.Reconciler.Derive.{
  Planning, no_planning, predicted_root, check_kind, next_nonce_of, open_caller, nonce_of_caller,
  advance_caller, add_caller, add_root, first_callers, resolve_caller, plan_child, plan_attempt,
  plan_attempts, derive_plan,
}

-- The bases are the reserved nonces, and no counter is below its base.
abbrev pub Counts : ReconciliationState → Dict Text ℕ → Dict Text ℕ → Type 0
Counts state bases next =
    IsUnique next
    × ((caller : Text) (base : ℕ)
        → lookup caller bases ≡ some base
        → base ≡ next_nonce_of state caller)
    × ((caller : Text) (nonce : ℕ)
        → lookup caller next ≡ some nonce
        → next_nonce_of state caller ≤ nonce)

abbrev pub SameCounters : Planning → Planning → Type 0
SameCounters q p = (q.next_by_caller ≡ p.next_by_caller) × (q.counter_bases ≡ p.counter_bases)

open_caller-Counts :
    (state : ReconciliationState) (caller : Text) (p : Planning)
    → Counts state p.counter_bases p.next_by_caller
    → Counts state
        (open_caller state caller p).counter_bases
        (open_caller state caller p).next_by_caller
unfolding open_caller
open_caller-Counts state caller p (unique, bases, grown) =
    let base = next_nonce_of state caller in
    if-ind (λ (q : Planning). Counts state q.counter_bases q.next_by_caller)
      (has caller p.next_by_caller) (λ known. (unique, bases, grown))
      (λ fresh. (
        insert-IsUnique caller base p.next_by_caller unique,
        λ other b found. ground (
          arith,
          lookup-insert caller other base p.counter_bases,
          text_iff caller other,
          bases other b,
          found,
        ),
        λ other n found. ground (
          arith,
          lookup-insert caller other base p.next_by_caller,
          text_iff caller other,
          grown other n,
          found,
        ),
      ))

advance_caller-Counts :
    (state : ReconciliationState) (caller : Text) (p : Planning)
    → Counts state p.counter_bases p.next_by_caller
    → next_nonce_of state caller ≤ nonce_of_caller caller p
    → Counts state (advance_caller caller p).counter_bases (advance_caller caller p).next_by_caller
unfolding advance_caller
advance_caller-Counts state caller p (unique, bases, grown) reserved = (
  insert-IsUnique caller (suc (nonce_of_caller caller p)) p.next_by_caller unique,
  bases,
  λ other nonce found. ground (
    arith,
    lookup-insert caller other (suc (nonce_of_caller caller p)) p.next_by_caller,
    text_iff caller other,
    grown other nonce,
    reserved,
    found,
  ),
)

opened_nonce :
    (state : ReconciliationState) (caller : Text) (p : Planning)
    → Counts state p.counter_bases p.next_by_caller
    → next_nonce_of state caller ≤ nonce_of_caller caller (open_caller state caller p)
unfolding open_caller nonce_of_caller has
opened_nonce state caller p (unique, bases, grown) =
    elim (Option-cases (lookup caller p.next_by_caller)) [
      | inl absent ↦ ground (
        arith,
        absent,
        lookup-insert caller caller (next_nonce_of state caller) p.next_by_caller,
        text_iff caller caller,
      )
      | inr (nonce, known) ↦ ground (arith, known, grown caller nonce known)
    ]

module _ {R : Type 0} (env : Runtime R) where
  add_caller-keeps :
      (actual predicted : Text) (metadata : Option ChildCreateMetadata) (p q : Planning)
      → add_caller env actual predicted metadata p ≡ returns q
      → SameCounters q p
  unfolding add_caller
  add_caller-keeps actual predicted metadata p q h =
      elim (Outcome-cases (normalize_trace_address env actual false)) [
        | inl (e, f) ↦ absurd (ground (arith, f))
        | inr (a, f) ↦ elim (Outcome-cases (normalize_trace_address env predicted false)) [
          | inl (e, g) ↦ absurd (ground (arith, f, g))
          | inr (b, g) ↦ ground (arith, f, g)
        ]
      ]

  add_root-keeps :
      (actual : Text) (predicted : Option Text) (metadata : Option ChildCreateMetadata)
      (p q : Planning)
      → add_root env actual predicted metadata p ≡ returns q
      → SameCounters q p
  unfolding add_root
  add_root-keeps actual none metadata p q h = absurd (ground arith)
  add_root-keeps actual (some address) metadata p q h =
      add_caller-keeps actual address metadata p q h

  -- Nothing is counted before the first attempt.
  first_callers-empty :
      (mode : SimulationMode) (root : Text) (context : OperationContext) (p : Planning)
      → first_callers env mode root context ≡ returns p
      → (p.next_by_caller ≡ []) × (p.counter_bases ≡ [])
  unfolding first_callers
  first_callers-empty mode root context p h =
      elim (Outcome-cases (add_caller env context.from context.from none no_planning)) [
        | inl (e, f) ↦ absurd (ground (arith, f))
        | inr (q, f) ↦
            let metadata = contract_metadata_of context.contract_kind context.artifact_identity in
            let first = add_caller-keeps context.from context.from none no_planning q f in
            elim (Outcome-cases
              (add_root env context.actual_target (predicted_root context) metadata q)) [
                | inl (e, g) ↦ absurd (ground (arith, f, g))
                | inr (r, g) ↦
                    let second =
                      add_root-keeps context.actual_target (predicted_root context) metadata q r
                        g in
                    elim (Bool-cases (same_mode mode constant_create)) [
                      | inl creates ↦ ground (
                        arith,
                        f,
                        g,
                        creates,
                        first,
                        second,
                        add_root-keeps root (predicted_root context) metadata r p,
                      )
                      | inr calls ↦ ground (arith, f, g, calls, first, second)
                    ]
              ]
      ]

  module _ (chain : Chain R) (indexes : AddressMapIndexes) (state : ReconciliationState)
      (mode : SimulationMode) (context : OperationContext) where
    plan_child-keeps :
        (predicted_address actual_address : Text) (metadata : Option ChildCreateMetadata)
        (p q : Planning)
        → plan_child env chain indexes state mode context predicted_address actual_address metadata
            p
          ≡ returns q
        → SameCounters q p
    unfolding plan_child
    plan_child-keeps predicted_address actual_address metadata p q h =
        elim (Outcome-cases (
          if same_mode mode exact_signed
          then assert_child_mapping_available env chain indexes predicted_address actual_address
              metadata
          else assert_predicted_child_available env chain indexes predicted_address metadata)) [
            | inl (e, f) ↦ absurd (ground (arith, f))
            | inr (u, f) ↦
                ground (arith, f, add_caller-keeps actual_address predicted_address metadata p q)
          ]

    -- One attempt opens and advances the counter of one caller.
    plan_attempt-advances :
        (p : Planning) (index : ℕ) (raw : RawAttempt) (q : Planning) (attempt : ChildCreateAttempt)
        → plan_attempt env chain indexes state mode context p index raw ≡ returns (q, attempt)
        → (caller : Text) × SameCounters q (advance_caller caller (open_caller state caller p))
    unfolding plan_attempt
    plan_attempt-advances p index raw q attempt h =
        elim (Outcome-cases (check_kind mode raw.kind)) [
          | inl (e, f) ↦ absurd (ground (arith, f))
          | inr (u, f) ↦ elim (Bool-cases (match_option raw.index true (λ i. eqb i index))) [
            | inr bad ↦ absurd (ground (arith, f, bad))
            | inl good ↦
                elim (Outcome-cases (normalize_trace_address env raw.caller_address false)) [
                  | inl (e, g) ↦ absurd (ground (arith, f, good, g))
                  | inr (actual, g) ↦
                      elim (Outcome-cases
                        (normalize_trace_address env raw.created_address (not raw.success))) [
                          | inl (e, k) ↦ absurd (ground (arith, f, good, g, k))
                          | inr (created, k) ↦
                              elim (Outcome-cases (resolve_caller env chain indexes p actual)) [
                                | inl (e, l) ↦ absurd (ground (arith, f, good, g, k, l))
                                | inr (caller, l) ↦
                                    let nonce =
                                      nonce_of_caller caller.predicted
                                        (open_caller state caller.predicted p) in
                                    elim (Bool-cases raw.success) [
                                      | inr failed ↦ (
                                        caller.predicted,
                                        ground (arith, f, good, g, k, l, failed),
                                      )
                                      | inl made ↦
                                          elim (Outcome-cases
                                            (proxy_admin_metadata context caller.predicted nonce)) [
                                              | inl (e, m) ↦
                                                  absurd (ground (arith, f, good, g, k, l, made, m))
                                              | inr (metadata, m) ↦ (
                                                caller.predicted,
                                                ground (
                                                  arith,
                                                  f,
                                                  good,
                                                  g,
                                                  k,
                                                  l,
                                                  made,
                                                  m,
                                                  plan_child-keeps
                                                      (create_address env caller.predicted nonce)
                                                      created metadata
                                                      (advance_caller caller.predicted
                                                        (open_caller state caller.predicted p))
                                                      q,
                                                ),
                                              )
                                            ]
                                    ]
                              ]
                        ]
                ]
          ]
        ]

    plan_attempt-Counts :
        (p : Planning) (index : ℕ) (raw : RawAttempt) (q : Planning) (attempt : ChildCreateAttempt)
        → plan_attempt env chain indexes state mode context p index raw ≡ returns (q, attempt)
        → Counts state p.counter_bases p.next_by_caller
        → Counts state q.counter_bases q.next_by_caller
    plan_attempt-Counts p index raw q attempt h counts =
        let (caller, (next, bases)) = plan_attempt-advances p index raw q attempt h in
        let opened = open_caller state caller p in
        subst₂ (Counts state) (sym bases) (sym next) (
          advance_caller-Counts state caller opened (open_caller-Counts state caller p counts)
            (opened_nonce state caller p counts))

    plan_attempts-Counts :
        (p : Planning) (index : ℕ) (raws : List RawAttempt) (q : Planning)
        (attempts : List ChildCreateAttempt)
        → plan_attempts env chain indexes state mode context p index raws ≡ returns (q, attempts)
        → Counts state p.counter_bases p.next_by_caller
        → Counts state q.counter_bases q.next_by_caller
    unfolding plan_attempts
    plan_attempts-Counts p index [] q attempts h counts =
        let same : p ≡ q = ground arith in
        subst (λ (r : Planning). Counts state r.counter_bases r.next_by_caller) same counts
    plan_attempts-Counts p index (raw ∷ raws) q attempts h counts =
        elim (Outcome-cases (plan_attempt env chain indexes state mode context p index raw)) [
          | inl (e, f) ↦ absurd (ground (arith, f))
          | inr ((next, attempt), f) ↦
              elim (Outcome-cases
                (plan_attempts env chain indexes state mode context next (suc index) raws)) [
                  | inl (e, g) ↦ absurd (ground (arith, f, g))
                  | inr ((last, rest), g) ↦
                      let same : last ≡ q = ground (arith, f, g) in
                      subst (λ (r : Planning). Counts state r.counter_bases r.next_by_caller) same
                        (plan_attempts-Counts next (suc index) raws last rest g
                          (plan_attempt-Counts p index raw next attempt f counts))
                ]
        ]

  -- The counters of a derived plan.
  pub derive_plan-Counts :
      (chain : Chain R) (simulation : Simulation) (raw : OperationContext) (id : Text)
      (preparation : Preparation)
      → derive_plan env chain simulation raw id ≡ returns preparation
      → (state : ReconciliationState) × (require_reconciliation env chain ≡ returns state)
        × Counts state preparation.child_create_plan.counter_bases
            preparation.child_create_plan.counter_finals
  unfolding derive_plan lookup
  derive_plan-Counts chain simulation raw id preparation h =
      elim (Result-cases (validate_operation_context env raw)) [
        | inl (e, f) ↦ absurd (ground (arith, f))
        | inr (context, f) ↦ elim (Outcome-cases (validate_simulation env simulation id)) [
          | inl (e, g) ↦ absurd (ground (arith, f, g))
          | inr (v, g) ↦
              elim (Outcome-cases
                (assert_constant_profile env v.mode v.simulation_root_address v.attempts context)) [
                  | inl (e, k) ↦ absurd (ground (arith, f, g, k))
                  | inr (u, k) ↦ elim (Result-cases (require_indexes env.codec chain.addresses)) [
                    | inl (e, l) ↦ absurd (ground (arith, f, g, k, l))
                    | inr (indexes, l) ↦ elim (Outcome-cases (require_reconciliation env chain)) [
                      | inl (e, m) ↦ absurd (ground (arith, f, g, k, l, m))
                      | inr (state, m) ↦
                          elim (Outcome-cases
                            (first_callers env v.mode v.simulation_root_address context)) [
                              | inl (e, n) ↦ absurd (ground (arith, f, g, k, l, m, n))
                              | inr (start, n) ↦
                                  elim (Outcome-cases (
                                    plan_attempts env chain indexes state v.mode context start 0
                                      v.attempts)) [
                                        | inl (e, o) ↦ absurd (ground (arith, f, g, k, l, m, n, o))
                                        | inr ((last, attempts), o) ↦
                                            let (none_next, none_bases) =
                                              first_callers-empty v.mode v.simulation_root_address
                                                context start n in
                                            let before : Counts state start.counter_bases
                                                start.next_by_caller =
                                              subst₂ (Counts state) (sym none_bases) (sym none_next)
                                                (
                                                  tt,
                                                  λ c b x. absurd (ground arith),
                                                  λ c b x. absurd (ground arith),
                                                ) in
                                            (
                                              state,
                                              m,
                                              subst₂ (Counts state)
                                                  (ground (arith, f, g, k, l, m, n, o))
                                                  (ground (arith, f, g, k, l, m, n, o))
                                                  (plan_attempts-Counts chain indexes state v.mode
                                                    context start 0 v.attempts last attempts o
                                                    before),
                                            )
                                      ]
                            ]
                    ]
                  ]
                ]
        ]
      ]
