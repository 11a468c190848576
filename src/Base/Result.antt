-- ===== src/Base/Result.antt =====
-- Code that throws returns a `Result`; an error names its class by the text of the source.
use mathlib.Core.Path.{◌≡◌, refl}
use mathlib.Core.Logic.{◌⊎◌, inl, inr}
use mathlib.Core.Bool.{Bool, true, false}
use Prim.Native.String.{String}

pub data Result {κ} (V : Type κ) : Type κ where
  err : String → Result V
  ok : V → Result V

module _ {κ} {W : Type κ} where
  infixl 5 ◌>>=◌ ◌>>◌
  abbrev pub ◌>>=◌ {ℓ} : {V : Type ℓ} → Result V → (V → Result W) → Result W
  err message >>= k = err message
  ok v >>= k = k v

  abbrev pub ◌>>◌ : Result (Unit {0}) → Result W → Result W
  first >> second = first >>= λ _. second

-- `if (!test) throw new Error(message)`
abbrev pub require : Bool → String → Result (Unit {0})
require false message = err message
require true message = ok tt

-- `try { … } catch (error) { throw new Error(message, { cause: error }) }`
abbrev pub rethrow {ℓ} : {A : Type ℓ} → String → Result A → Result A
rethrow e (ok a) = ok a
rethrow e (err _) = err e

-- To split on a computed result and keep the equation.
pub Result-cases {ℓ} :
    {V : Type ℓ} (m : Result V) → ((e : String) × (m ≡ err e)) ⊎ ((v : V) × (m ≡ ok v))
Result-cases (err e) = inl (e, refl)
Result-cases (ok v) = inr (v, refl)
