-- ===== src/Reconciler/State.antt =====
-- rpc-src/create-reconciler.ts: what the reconciler throws, and the simulations that it reads.
use openzeppelin_foundry_upg.Base.{
  ℕ, ◌≡◌, refl, ◌⊎◌, inl, inr, Bool, true, false, Option, List, String,
}
use openzeppelin_foundry_upg.Base.Text.{Text, codes}
use openzeppelin_foundry_upg.Base.Result.{Result, ok, err}
use openzeppelin_foundry_upg.Journal.State.{SimulationMode, ChildCreateMetadata}

-- A `CreateReconciliationError`, or the error of a module that the reconciler calls.
pub data Thrown : Type 0 where
  reconciliation_error : (code message : Text) → Thrown
  other_error : (message : Text) → Thrown

pub data Outcome (V : Type 0) : Type 0 where
  throws : Thrown → Outcome V
  returns : V → Outcome V

module _ {W : Type 0} where
  infixl 5 ◌>>=◌ ◌>>◌
  abbrev pub ◌>>=◌ : {V : Type 0} → Outcome V → (V → Outcome W) → Outcome W
  throws e >>= k = throws e
  returns v >>= k = k v

  abbrev pub ◌>>◌ : Outcome (Unit {0}) → Outcome W → Outcome W
  first >> second = first >>= λ _. second

-- To split on a computed outcome and keep the equation.
pub Outcome-cases :
    {V : Type 0} (m : Outcome V) → ((e : Thrown) × (m ≡ throws e)) ⊎ ((v : V) × (m ≡ returns v))
Outcome-cases (throws e) = inl (e, refl)
Outcome-cases (returns v) = inr (v, refl)

-- A call of another module.
abbrev pub lift : {V : Type 0} → Result V → Outcome V
lift (ok v) = returns v
lift (err e) = throws (other_error (codes e))

-- `throw new CreateReconciliationError(code, message)`
abbrev pub refuse : {V : Type 0} → String → String → Outcome V
refuse code message = throws (reconciliation_error (codes code) (codes message))

-- `if (!test) throw new CreateReconciliationError(code, message)`
abbrev pub demand : Bool → String → String → Outcome (Unit {0})
demand true code message = returns tt
demand false code message = refuse code message

-- One entry of `childCreateAttempts` of a simulation.
pub record RawAttempt : Type 0 where
  pub kind : Option Text
  pub index : Option ℕ
  pub caller_address : Text
  pub created_address : Text
  pub success : Bool

pub record Simulation : Type 0 where
  pub trace_complete : Bool
  pub mode : SimulationMode
  pub native_transaction_id : Text
  pub simulation_root_address : Text
  pub child_create_attempts : List RawAttempt

pub record ValidatedSimulation : Type 0 where
  pub mode : SimulationMode
  pub simulation_root_address : Text
  pub attempts : List RawAttempt

-- What is known of a caller: its predicted address and its metadata.
pub record Caller : Type 0 where
  pub predicted : Text
  pub metadata : Option ChildCreateMetadata
