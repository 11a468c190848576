-- ===== src/Journal/Plan.antt =====
-- rpc-src/journal.ts: `validateChildCreatePlan` and `validatePreparation`.
use openzeppelin_foundry_upg.Base.{
  ℕ, suc, Bool, true, ◌&&◌, some, List, [], ◌∷◌, eqb, leb, ◌==◌, nat_eq, list_eq, match_option,
  length,
}
use openzeppelin_foundry_upg.Base.Tests.{option_eq}
use openzeppelin_foundry_upg.Base.Text.{Text}
use openzeppelin_foundry_upg.Base.Patterns.{to_lower}
use openzeppelin_foundry_upg.Base.Result.{Result, ok, err, ◌>>=◌, ◌>>◌, require}
use openzeppelin_foundry_upg.Base.Dict.{Dict, lookup, insert, has}
use openzeppelin_foundry_upg.Base.Loops.{each}
use openzeppelin_foundry_upg.Journal.State.{
  ChildCreateAttempt, ChildCreatePlan, Preparation, Runtime,
}
use openzeppelin_foundry_upg.Journal.Validation.{
  nullable, normalize_address, validate_operation_context, validate_child_metadata,
  validate_counter_map,
}

-- Every key of the first map is a key of the second.
unfoldable pub keys_in : Dict Text ℕ → Dict Text ℕ → Bool
keys_in [] d = true
keys_in ((k, n) ∷ rest) d = let later = keys_in rest d in has k d && later

-- The comparison of the two sorted key lists.
unfoldable pub same_keys : Dict Text ℕ → Dict Text ℕ → Bool
same_keys a b = eqb (length a) (length b) && keys_in a b

unfoldable pub check_final_at_least : Dict Text ℕ → Text → ℕ → Result (Unit {0})
check_final_at_least finals caller base =
    match_option (lookup caller finals) (err "Invalid child CREATE counter plan")
      (λ final. require (leb base final) "Invalid child CREATE counter plan")

unfoldable pub check_final : Dict Text ℕ → Text → ℕ → Result (Unit {0})
check_final finals caller next =
    require (lookup caller finals == some next) "Invalid child CREATE final counter"

module _ {R : Type 0} (env : Runtime R) where
  -- `getCreateAddress({ from, nonce }).toLowerCase()`
  unfoldable pub create_address : Text → ℕ → Text
  create_address from nonce = to_lower (env.get_create_address from nonce)

  -- One attempt: `expected` holds the next nonce of each caller.
  unfoldable pub validate_attempt :
      Dict Text ℕ → ℕ → ChildCreateAttempt → Result (Dict Text ℕ × ChildCreateAttempt)
  validate_attempt expected index attempt = do
    require (eqb attempt.index index && leb 1 attempt.nonce) "Invalid child CREATE attempt plan"
    predicted_caller ← normalize_address env attempt.predicted_caller
    require (lookup predicted_caller expected == some attempt.nonce)
        "Invalid child CREATE attempt counter"
    predicted_address ← normalize_address env attempt.predicted_address
    require (predicted_address == create_address predicted_caller attempt.nonce)
        "Invalid child CREATE predicted address"
    actual_caller ← normalize_address env attempt.actual_caller
    simulated ← normalize_address env attempt.simulated_actual_address
    child_metadata ← nullable validate_child_metadata attempt.child_metadata
    ok (
      insert predicted_caller (suc attempt.nonce) expected,
      record attempt {
        actual_caller = actual_caller;
        predicted_caller = predicted_caller;
        predicted_address = predicted_address;
        simulated_actual_address = simulated;
        child_metadata = child_metadata;
      },
    )

  unfoldable pub validate_attempts :
      Dict Text ℕ → ℕ → List ChildCreateAttempt → Result (Dict Text ℕ × List ChildCreateAttempt)
  validate_attempts expected index [] = ok (expected, [])
  validate_attempts expected index (attempt ∷ rest) = do
    first ← validate_attempt expected index attempt
    later ← validate_attempts first.0 (suc index) rest
    ok (later.0, first.1 ∷ later.1)

  unfoldable pub validate_child_create_plan : ChildCreatePlan → Result ChildCreatePlan
  validate_child_create_plan plan = do
    require (eqb plan.version 1) "Invalid child CREATE plan"
    bases ← validate_counter_map env plan.counter_bases
    finals ← validate_counter_map env plan.counter_finals
    require (same_keys bases finals) "Invalid child CREATE counter plan"
    each (check_final_at_least finals) bases
    attempts ← validate_attempts bases 0 plan.attempts
    each (check_final finals) attempts.0
    sender ← normalize_address env plan.sender
    root ← normalize_address env plan.simulation_root_address
    ok (record {
      version = 1;
      mode = plan.mode;
      sender = sender;
      simulation_root_address = root;
      attempts = attempts.1;
      counter_bases = bases;
      counter_finals = finals;
    })

  unfoldable pub validate_preparation : Preparation → Result Preparation
  validate_preparation preparation = do
    context ← validate_operation_context env preparation.operation_context
    plan ← validate_child_create_plan preparation.child_create_plan
    require (context.from == plan.sender) "Native operation and child CREATE sender mismatch"
    ok (record { operation_context = context; child_create_plan = plan })
