-- ===== src/Journal/Attempts.antt =====
-- The attempts of a plan that `validateChildCreatePlan` accepts take their nonces in order.
use openzeppelin_foundry_upg.Base.{
  ◌⊎◌, ap, ◌∙◌, ℕ, suc, ◌+◌, ◌≤◌, ◌<◌, ◌≡◌, ◌&&◌, some, List, [], ◌∷◌, eqb, leb, ltb, ◌==◌, nat_eq,
  list_eq, option_eq, if◌then◌else◌, arith, inl, inr, Bool-cases, eqb_iff, option_beq_iff, ltb→lt,
  eq_refl,
}
use openzeppelin_foundry_upg.Base.Text.{Text, text_iff}
use openzeppelin_foundry_upg.Base.Result.{ok, Result-cases}
use openzeppelin_foundry_upg.Base.Dict.{Dict, lookup, insert, lookup-insert}
use openzeppelin_foundry_upg.Base.Loops.{each, each-lookup}
use openzeppelin_foundry_upg.Journal.State.{ChildCreateAttempt, ChildCreatePlan, Runtime}
use openzeppelin_foundry_upg.Journal.Validation.{
  nullable, normalize_address, validate_child_metadata, validate_counter_map, check_counter,
}
use openzeppelin_foundry_upg.Journal.Plan.{
  same_keys, check_final_at_least, check_final, create_address, validate_attempt, validate_attempts,
  validate_child_create_plan,
}

-- How many attempts take this nonce of this caller.
unfoldable pub slots : Text → ℕ → List ChildCreateAttempt → ℕ
slots caller nonce [] = 0
slots caller nonce (a ∷ rest) =
    (if (a.predicted_caller == caller) && eqb a.nonce nonce then 1 else 0) + slots caller nonce rest

-- The nonces that a caller is given from one map of counters to the next.
abbrev pub Range : Dict Text ℕ → Dict Text ℕ → Text → ℕ → Type 0
Range expected later caller nonce =
    (first : ℕ) × (last : ℕ) × (lookup caller expected ≡ some first)
    × (lookup caller later ≡ some last)
    × (first ≤ nonce)
    × (nonce < last)

-- The last test of a plan: the counters that its attempts leave are the final ones.
checked_final :
    (finals later : Dict Text ℕ) (caller : Text) (last : ℕ)
    → each (check_final finals) later ≡ ok tt
    → lookup caller later ≡ some last
    → lookup caller finals ≡ some last
unfolding check_final
checked_final finals later caller last h found =
    let passed = each-lookup (check_final finals) caller last later h found in
    elim (Bool-cases (lookup caller finals == some last)) [
      | inl equal ↦ (option_beq_iff (lookup caller finals) (some last)).0 equal
      | inr other ↦ absurd (ground (arith, passed, other))
    ]

module _ {R : Type 0} (env : Runtime R) where
  validate_attempt-slot :
      (expected later : Dict Text ℕ) (index : ℕ) (raw attempt : ChildCreateAttempt)
      → validate_attempt env expected index raw ≡ ok (later, attempt)
      → (lookup attempt.predicted_caller expected ≡ some attempt.nonce)
        × (later ≡ insert attempt.predicted_caller (suc attempt.nonce) expected)
  unfolding validate_attempt
  validate_attempt-slot expected later index raw attempt h =
      elim (Bool-cases (eqb raw.index index && leb 1 raw.nonce)) [
        | inr bad ↦ absurd (ground (arith, bad))
        | inl good ↦ elim (Result-cases (normalize_address env raw.predicted_caller)) [
          | inl (e, f) ↦ absurd (ground (arith, good, f))
          | inr (caller, f) ↦ elim (Bool-cases (lookup caller expected == some raw.nonce)) [
            | inr wrong ↦ absurd (ground (arith, good, f, wrong))
            | inl counted ↦ elim (Result-cases (normalize_address env raw.predicted_address)) [
              | inl (e, g) ↦ absurd (ground (arith, good, f, counted, g))
              | inr (address, g) ↦
                  elim (Bool-cases (address == create_address env caller raw.nonce)) [
                    | inr other ↦ absurd (ground (arith, good, f, counted, g, other))
                    | inl created ↦ elim (Result-cases (normalize_address env raw.actual_caller)) [
                      | inl (e, k) ↦ absurd (ground (arith, good, f, counted, g, created, k))
                      | inr (actual, k) ↦
                          elim (Result-cases (normalize_address env raw.simulated_actual_address)) [
                            | inl (e, l) ↦
                                absurd (ground (arith, good, f, counted, g, created, k, l))
                            | inr (simulated, l) ↦
                                elim (Result-cases
                                  (nullable validate_child_metadata raw.child_metadata)) [
                                    | inl (e, m) ↦
                                        absurd
                                          (ground (arith, good, f, counted, g, created, k, l, m))
                                    | inr (metadata, m) ↦
                                        let found : lookup caller expected ≡ some raw.nonce =
                                          (option_beq_iff (lookup caller expected)
                                              (some raw.nonce)).0
                                            counted in
                                        ground (arith, good, f, counted, g, created, k, l, m, found)
                                  ]
                          ]
                    ]
                  ]
            ]
          ]
        ]
      ]

  -- The counter of every caller after one attempt.
  stepped :
      (expected next : Dict Text ℕ) (attempt : ChildCreateAttempt) (caller : Text) (first : ℕ)
      → lookup attempt.predicted_caller expected ≡ some attempt.nonce
      → next ≡ insert attempt.predicted_caller (suc attempt.nonce) expected
      → lookup caller expected ≡ some first
      → (n : ℕ) × (lookup caller next ≡ some n) × (first ≤ n)
  stepped expected next attempt caller first counted step found =
      elim (Bool-cases (attempt.predicted_caller == caller)) [
        | inl hit ↦ (
          suc attempt.nonce,
          ground (
            arith,
            step,
            lookup-insert attempt.predicted_caller caller (suc attempt.nonce) expected,
            hit,
          ),
          ground (arith, counted, found, (text_iff attempt.predicted_caller caller).0 hit),
        )
        | inr miss ↦ (
          first,
          ground (
            arith,
            step,
            lookup-insert attempt.predicted_caller caller (suc attempt.nonce) expected,
            miss,
            found,
          ),
          omega arith,
        )
      ]

  -- A counter that another caller has after one attempt, it had before.
  unstepped :
      (expected next : Dict Text ℕ) (attempt : ChildCreateAttempt) (caller : Text) (n : ℕ)
      → lookup attempt.predicted_caller expected ≡ some attempt.nonce
      → next ≡ insert attempt.predicted_caller (suc attempt.nonce) expected
      → lookup caller next ≡ some n
      → (first : ℕ) × (lookup caller expected ≡ some first)
        × (first ≤ n)
        × (attempt.predicted_caller ≡ caller → suc attempt.nonce ≡ n)
  unstepped expected next attempt caller n counted step found =
      elim (Bool-cases (attempt.predicted_caller == caller)) [
        | inl hit ↦ (
          attempt.nonce,
          ground (arith, counted, (text_iff attempt.predicted_caller caller).0 hit),
          ground (
            arith,
            step,
            lookup-insert attempt.predicted_caller caller (suc attempt.nonce) expected,
            hit,
            found,
          ),
          λ e. ground (
            arith,
            step,
            lookup-insert attempt.predicted_caller caller (suc attempt.nonce) expected,
            hit,
            found,
          ),
        )
        | inr miss ↦ (
          n,
          ground (
            arith,
            step,
            lookup-insert attempt.predicted_caller caller (suc attempt.nonce) expected,
            miss,
            found,
          ),
          omega arith,
          λ e. absurd (ground (arith, miss, (text_iff attempt.predicted_caller caller).1 e)),
        )
      ]

  -- Counters never go back.
  validate_attempts-grow :
      (raws attempts : List ChildCreateAttempt) (expected later : Dict Text ℕ) (index : ℕ)
      (caller : Text) (first : ℕ)
      → validate_attempts env expected index raws ≡ ok (later, attempts)
      → lookup caller expected ≡ some first
      → (last : ℕ) × (lookup caller later ≡ some last) × (first ≤ last)
  unfolding validate_attempts
  validate_attempts-grow [] attempts expected later index caller first h found =
      (first, ground arith, omega arith)
  validate_attempts-grow (raw ∷ raws) attempts expected later index caller first h found =
      elim (Result-cases (validate_attempt env expected index raw)) [
        | inl (e, f) ↦ absurd (ground (arith, f))
        | inr ((next, attempt), f) ↦
            elim (Result-cases (validate_attempts env next (suc index) raws)) [
              | inl (e, g) ↦ absurd (ground (arith, f, g))
              | inr ((final, rest), g) ↦
                  let (counted, step) = validate_attempt-slot expected next index raw attempt f in
                  let (second, there, grown) =
                    stepped expected next attempt caller first counted step found in
                  let (last, reached, more) =
                    validate_attempts-grow raws rest next final (suc index) caller second g there in
                  (last, ground (arith, f, g, reached), omega (arith, grown, more))
            ]
      ]

  -- A nonce that the attempts take lies in the caller's range, and one attempt takes it.
  validate_attempts-slots :
      (raws attempts : List ChildCreateAttempt) (expected later : Dict Text ℕ) (index : ℕ)
      (caller : Text) (nonce : ℕ)
      → validate_attempts env expected index raws ≡ ok (later, attempts)
      → 0 < slots caller nonce attempts
      → (slots caller nonce attempts ≡ 1) × Range expected later caller nonce
  unfolding validate_attempts slots
  validate_attempts-slots [] attempts expected later index caller nonce h taken =
      absurd (ground arith)
  validate_attempts-slots (raw ∷ raws) attempts expected later index caller nonce h taken =
      elim (Result-cases (validate_attempt env expected index raw)) [
        | inl (e, f) ↦ absurd (ground (arith, f))
        | inr ((next, attempt), f) ↦
            elim (Result-cases (validate_attempts env next (suc index) raws)) [
              | inl (e, g) ↦ absurd (ground (arith, f, g))
              | inr ((final, rest), g) ↦
                  let (counted, step) = validate_attempt-slot expected next index raw attempt f in
                  let last_one : later ≡ final = ground (arith, f, g) in
                  let all_of : attempts ≡ attempt ∷ rest = ground (arith, f, g) in
                  let tail =
                    validate_attempts-slots raws rest next final (suc index) caller nonce g in
                  elim (Bool-cases (ltb 0 (slots caller nonce rest))) [
                    | inl more ↦
                        let (one, (first, last, at_first, at_last, low, high)) =
                          tail (ltb→lt 0 (slots caller nonce rest) more) in
                        let (begin, before, less, own) =
                          unstepped expected next attempt caller first counted step at_first in
                        let reached : lookup caller later ≡ some last =
                          ground (arith, last_one, at_last) in
                        elim (Bool-cases
                          ((attempt.predicted_caller == caller) && eqb attempt.nonce nonce)) [
                            | inl hit ↦ absurd (
                                ground (
                                  arith,
                                  hit,
                                  low,
                                  less,
                                  own,
                                  text_iff attempt.predicted_caller caller,
                                  eqb_iff attempt.nonce nonce,
                                ))
                            | inr miss ↦ (
                              ground (arith, all_of, one, miss),
                              (begin, last, before, reached, omega (arith, less, low), high),
                            )
                          ]
                    | inr done ↦
                        elim (Bool-cases
                          ((attempt.predicted_caller == caller) && eqb attempt.nonce nonce)) [
                            | inr miss ↦ absurd (ground (arith, all_of, taken, miss, done))
                            | inl hit ↦
                                let same : attempt.predicted_caller ≡ caller =
                                  ground (arith, hit, text_iff attempt.predicted_caller caller) in
                                let number : attempt.nonce ≡ nonce =
                                  ground (arith, hit, eqb_iff attempt.nonce nonce) in
                                let there : lookup caller expected ≡ some nonce =
                                  ground (arith, counted, same, number) in
                                let now : lookup caller next ≡ some (suc nonce) = ground (
                                  arith,
                                  step,
                                  same,
                                  number,
                                  eq_refl caller,
                                  lookup-insert attempt.predicted_caller caller (suc attempt.nonce)
                                      expected,
                                ) in
                                let (last, reached, grown) =
                                  validate_attempts-grow raws rest next final (suc index) caller
                                    (suc nonce) g now in
                                let at_last : lookup caller later ≡ some last =
                                  ground (arith, last_one, reached) in
                                (
                                  ground (arith, all_of, hit, done),
                                  (nonce, last, there, at_last, omega arith, omega (arith, grown)),
                                )
                          ]
                  ]
            ]
      ]

  -- The last tests of a plan, over what its attempts leave.
  accepted_slots :
      (raws planned attempts : List ChildCreateAttempt)
      (expected bases later finals ends : Dict Text ℕ) (caller : Text) (nonce : ℕ)
      → planned ≡ attempts
      → bases ≡ expected
      → ends ≡ finals
      → validate_attempts env expected 0 raws ≡ ok (later, attempts)
      → each (check_final finals) later ≡ ok tt
      → (slots caller nonce planned ≡ 0)
        ⊎ ((slots caller nonce planned ≡ 1) × Range bases ends caller nonce)
  accepted_slots raws planned attempts expected bases later finals ends caller nonce same b e l m =
      elim (Bool-cases (ltb 0 (slots caller nonce attempts))) [
        | inr none_taken ↦ inl (ap (slots caller nonce) same ∙ ground (arith, none_taken))
        | inl some_taken ↦
            let (one, (first, last, at_first, at_last, low, high)) =
              validate_attempts-slots raws attempts expected later 0 caller nonce l
                (ltb→lt 0 (slots caller nonce attempts) some_taken) in
            let final = checked_final finals later caller last m at_last in
            inr (
              ap (slots caller nonce) same ∙ one,
              (
                first,
                last,
                ap (lookup caller) b ∙ at_first,
                ap (lookup caller) e ∙ final,
                low,
                high,
              ),
            )
      ]

  -- A plan that the journal accepts has the counter maps that it was given and, for any caller and
  -- nonce, either none of its attempts takes that nonce of that caller, or exactly one does and the
  -- nonce lies at or above the caller's base and below its final counter.
  pub plan_slots :
      (raw plan : ChildCreatePlan) (caller : Text) (nonce : ℕ)
      → validate_child_create_plan env raw ≡ ok plan
      → (plan.counter_bases ≡ raw.counter_bases)
        × (plan.counter_finals ≡ raw.counter_finals)
        × ((slots caller nonce plan.attempts ≡ 0)
            ⊎ ((slots caller nonce plan.attempts ≡ 1)
                × Range plan.counter_bases plan.counter_finals caller nonce))
  unfolding validate_child_create_plan validate_counter_map
  plan_slots raw plan caller nonce h = elim (Bool-cases (eqb raw.version 1)) [
    | inr bad ↦ absurd (ground (arith, bad))
    | inl good ↦ elim (Result-cases (each (check_counter env) raw.counter_bases)) [
      | inl (e, f) ↦ absurd (ground (arith, good, f))
      | inr (u, f) ↦ elim (Result-cases (each (check_counter env) raw.counter_finals)) [
        | inl (e, g) ↦ absurd (ground (arith, good, f, g))
        | inr (u', g) ↦ elim (Bool-cases (same_keys raw.counter_bases raw.counter_finals)) [
          | inr differ ↦ absurd (ground (arith, good, f, g, differ))
          | inl keys ↦
              elim (Result-cases
                (each (check_final_at_least raw.counter_finals) raw.counter_bases)) [
                  | inl (e, k) ↦ absurd (ground (arith, good, f, g, keys, k))
                  | inr (v, k) ↦
                      elim (Result-cases (validate_attempts env raw.counter_bases 0 raw.attempts)) [
                        | inl (e, l) ↦ absurd (ground (arith, good, f, g, keys, k, l))
                        | inr ((later, attempts), l) ↦
                            elim (Result-cases (each (check_final raw.counter_finals) later)) [
                              | inl (e, m) ↦ absurd (ground (arith, good, f, g, keys, k, l, m))
                              | inr (w, m) ↦
                                  elim (Result-cases (normalize_address env raw.sender)) [
                                    | inl (e, n) ↦
                                        absurd (ground (arith, good, f, g, keys, k, l, m, n))
                                    | inr (sender, n) ↦
                                        elim (Result-cases
                                          (normalize_address env raw.simulation_root_address)) [
                                            | inl (e, o) ↦
                                                absurd
                                                  (ground (arith, good, f, g, keys, k, l, m, n, o))
                                            | inr (root, o) ↦
                                                let same : plan.attempts ≡ attempts =
                                                  ground (arith, good, f, g, keys, k, l, m, n, o) in
                                                let bases : plan.counter_bases ≡ raw.counter_bases =
                                                  ground (arith, good, f, g, keys, k, l, m, n, o) in
                                                let finals : plan.counter_finals
                                                    ≡ raw.counter_finals =
                                                  ground (arith, good, f, g, keys, k, l, m, n, o) in
                                                (
                                                  bases,
                                                  finals,
                                                  accepted_slots raw.attempts plan.attempts attempts
                                                      raw.counter_bases plan.counter_bases later
                                                      raw.counter_finals plan.counter_finals caller
                                                      nonce same bases finals l m,
                                                )
                                          ]
                                  ]
                            ]
                      ]
                ]
        ]
      ]
    ]
  ]
