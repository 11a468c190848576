-- ===== src/Queue/World.antt =====
-- The queue in its surroundings: the durable expected nonces, which only grow, and the steps that
-- the program and the event loop make.
use openzeppelin_foundry_upg.Base.{ℕ, ◌≤◌, ◌≡◌, some, List, ◌∷◌, list_eq, nat_eq}
use openzeppelin_foundry_upg.Base.Text.{Text}
use openzeppelin_foundry_upg.Base.Dict.{lookup, erase}
use openzeppelin_foundry_upg.Queue.State.{
  QueueEntry, Outcome, resolved, rejected, Queue, empty_queue,
}
use openzeppelin_foundry_upg.Queue.Admission.{enqueue}
use openzeppelin_foundry_upg.Queue.Pump.{pump, after_run, on_deadline}

pub record World (V : Type 0) : Type 0 where
  pub queue : Queue V
  pub expected : Text → ℕ

-- A run ends with its own value or failure.
abbrev pub IsRunOutcome : {V : Type 0} → Outcome V → Type 0
IsRunOutcome (resolved v) = Unit
IsRunOutcome (rejected v) = Unit
IsRunOutcome _ = ⊥

-- One turn of the event loop, one call of `enqueue`, or an advance of the durable state. The
-- microtasks run in order; which callback ends next, and which timer, is the environment's choice.
pub data Step {V : Type 0} (w : World V) : World V → Type 0 where
  enqueues :
      (signer : Text) (nonce : ℕ) (hash : Text)
      → Step w (record w { queue = (enqueue signer nonce hash w.queue).0 })
  runs_microtask :
      (signer : Text) (rest : List Text)
      → w.queue.microtasks ≡ signer ∷ rest
      → Step w (record w { queue = pump w.expected signer (record w.queue { microtasks = rest }) })
  ends :
      (promise : ℕ) (signer : Text) (entry : QueueEntry) (outcome : Outcome V)
      → lookup promise w.queue.running ≡ some (signer, entry)
      → IsRunOutcome outcome
      → Step w (record w {
        queue =
            after_run w.expected signer entry outcome
              (record w.queue { running = erase promise w.queue.running });
      })
  times_out :
      (handle : ℕ) (signer : Text)
      → lookup handle w.queue.timers ≡ some signer
      → Step w (record w {
        queue =
            on_deadline w.expected signer (record w.queue { timers = erase handle w.queue.timers });
      })
  advances :
      (later : Text → ℕ)
      → ((signer : Text) → w.expected signer ≤ later signer)
      → Step w (record w { expected = later })

pub data Reach {V : Type 0} (expected : Text → ℕ) : World V → Type 0 where
  here : Reach expected (record { queue = empty_queue; expected = expected })
  next : {w w' : World V} → Reach expected w → Step w w' → Reach expected w'
