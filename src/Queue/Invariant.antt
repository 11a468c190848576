-- ===== src/Queue/Invariant.antt =====
-- What holds of the queue between two turns of the event loop, one signer at a time.
pub mod Frame
pub mod Release
pub mod Pumping
pub mod Admitting
pub mod Ending
pub mod Timing
use openzeppelin_foundry_upg.Base.{
  ℕ, ◌≤◌, ◌<◌, ◌≡◌, ◌≢◌, ◌==◌, Bool, true, false, Option, none, some, List, [], ◌∷◌, any, list_eq,
  nat_eq,
}
use openzeppelin_foundry_upg.Base.Text.{Text}
use openzeppelin_foundry_upg.Base.Dict.{Dict, lookup, IsUnique, Entries}
use openzeppelin_foundry_upg.Base.Weight.{weight, indicator}
use openzeppelin_foundry_upg.Queue.State.{QueueEntry, SignerState, Queue}

abbrev pub Running : Type 0
Running = Dict ℕ (Text × QueueEntry)

-- How many callbacks of a signer run.
abbrev pub run_count : Text → Running → ℕ
run_count signer = weight (λ r. indicator (r.0 == signer))

-- A microtask will pump the signer.
abbrev pub scheduled : Text → List Text → Bool
scheduled signer = any (λ s. s == signer)

abbrev pub Matches : ℕ → QueueEntry → Type 0
Matches key entry = key ≡ entry.nonce

abbrev pub KeysMatch : Dict ℕ QueueEntry → Type 0
KeysMatch = Entries Matches

-- Of one signer: `expected` is its durable expected nonce.
pub record IsSoundState (expected : ℕ) (signer : Text) (running : Running) (timers : Dict ℕ Text)
    (microtasks : List Text) (state : SignerState) : Type 0 where
  pub runs : run_count signer running ≡ indicator state.active
  pub keys : KeysMatch state.pending
  pub cursor_le : (c : ℕ) → state.cursor ≡ some c → c ≤ expected
  pub armed : (h : ℕ) → state.deadline_handle ≡ some h → lookup h timers ≡ some signer
  pub only_timer : (h : ℕ) → lookup h timers ≡ some signer → state.deadline_handle ≡ some h
  pub no_deadline_while_active : state.active ≡ true → state.deadline_handle ≡ none
  pub wakes :
      state.active ≡ false → state.deadline_handle ≡ none → scheduled signer microtasks ≡ true

pub record IsAbsent (signer : Text) (running : Running) (timers : Dict ℕ Text) : Type 0 where
  pub runs : run_count signer running ≡ 0
  pub only_timer : (h : ℕ) → lookup h timers ≢ some signer

abbrev pub IsSoundAt : {V : Type 0} → ℕ → Text → Queue V → Option SignerState → Type 0
IsSoundAt expected signer q none = IsAbsent signer q.running q.timers
IsSoundAt expected signer q (some state) =
    IsSoundState expected signer q.running q.timers q.microtasks state

-- Every release so far was at or below its signer's expected nonce, and the releases of one signer
-- stand in the order of their nonces. The newest stands first.
abbrev pub EarlierLe : Text → ℕ → List (Text × ℕ) → Type 0
EarlierLe signer nonce [] = Unit
EarlierLe signer nonce ((s, n) ∷ rest) = (s ≡ signer → n ≤ nonce) × EarlierLe signer nonce rest

abbrev pub Ordered : List (Text × ℕ) → Type 0
Ordered [] = Unit
Ordered ((s, n) ∷ rest) = EarlierLe s n rest × Ordered rest

abbrev pub WithinExpected : (Text → ℕ) → List (Text × ℕ) → Type 0
WithinExpected expected [] = Unit
WithinExpected expected ((s, n) ∷ rest) = (n ≤ expected s) × WithinExpected expected rest

-- The parts that belong to no one signer.
pub record IsSoundWhole {V : Type 0} (expected : Text → ℕ) (q : Queue V) : Type 0 where
  pub signers_unique : IsUnique q.signers
  pub timers_unique : IsUnique q.timers
  pub timers_old : (h : ℕ) (s : Text) → lookup h q.timers ≡ some s → h < q.next_handle
  pub ordered : Ordered q.started
  pub within : WithinExpected expected q.started

pub record IsSound {V : Type 0} (expected : Text → ℕ) (q : Queue V) : Type 0 where
  pub whole : IsSoundWhole expected q
  pub at : (signer : Text) → IsSoundAt (expected signer) signer q (lookup signer q.signers)

-- The invariant at every signer but one, which an operation has in hand.
pub record IsSoundBut {V : Type 0} (expected : Text → ℕ) (signer : Text) (q : Queue V)
    : Type 0 where
  pub whole : IsSoundWhole expected q
  pub at :
      (other : Text) → signer ≢ other → IsSoundAt (expected other) other q (lookup other q.signers)

-- What the operation knows of the signer in hand: it is idle, and its timer is the one that the
-- state names.
pub record IsIdle (expected : ℕ) (signer : Text) (running : Running) (timers : Dict ℕ Text)
    (state : SignerState) : Type 0 where
  pub runs : run_count signer running ≡ 0
  pub keys : KeysMatch state.pending
  pub inactive : state.active ≡ false
  pub cursor_le : (c : ℕ) → state.cursor ≡ some c → c ≤ expected
  pub armed : (h : ℕ) → state.deadline_handle ≡ some h → lookup h timers ≡ some signer
  pub only_timer : (h : ℕ) → lookup h timers ≡ some signer → state.deadline_handle ≡ some h
