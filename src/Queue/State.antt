-- ===== src/Queue/State.antt =====
-- rpc-src/transaction-queue.ts: the state. A `Queue` is the object's two maps with what the event
-- loop holds for it: the microtasks that will pump a signer, the callbacks that run, the armed
-- timers. `settled` and `started` log the promises that were settled and the callbacks that were
-- released, newest first. A promise is named by a number.
use openzeppelin_foundry_upg.Base.{
  ℕ, Bool, false, ◌&&◌, Option, none, List, [], leb, match_option, if◌then◌else◌, list_eq, nat_eq,
}
use openzeppelin_foundry_upg.Base.Text.{Text}
use openzeppelin_foundry_upg.Base.Dict.{Dict, lookup}
use openzeppelin_foundry_upg.Base.Result.{Result, ok, err}

pub data QueueError : Type 0 where
  nonce_already_queued nonce_too_low nonce_gap_timeout : QueueError

-- The callback `run` and the two halves of the promise are named by `promise`.
pub record QueueEntry : Type 0 where
  pub hash : Text
  pub nonce : ℕ
  pub promise : ℕ

pub record SignerState : Type 0 where
  pub pending : Dict ℕ QueueEntry
  pub cursor : Option ℕ
  pub active : Bool
  pub deadline_handle : Option ℕ

-- What a promise is settled with: the run's value, the run's failure, or the queue's own error.
pub data Outcome (V : Type 0) : Type 0 where
  resolved : V → Outcome V
  rejected : V → Outcome V
  refused : QueueError → Outcome V

pub record Queue (V : Type 0) : Type 0 where
  pub signers : Dict Text SignerState
  pub by_hash : Dict Text ℕ
  pub next_promise : ℕ
  pub next_handle : ℕ
  pub microtasks : List Text
  pub running : Dict ℕ (Text × QueueEntry)
  pub timers : Dict ℕ Text
  pub settled : List (QueueEntry × Outcome V)
  pub started : List (Text × ℕ)

-- What `enqueue` returns: a promise of the queue, or one that is rejected already.
pub data Ticket : Type 0 where
  promised : ℕ → Ticket
  rejected_at_once : QueueError → Ticket

unfoldable pub fresh_state : SignerState
fresh_state = record { pending = []; cursor = none; active = false; deadline_handle = none }

-- `Number.isSafeInteger(options.gapDeadlineMs)` and at least 1
unfoldable pub valid_options : ℕ → Bool
valid_options gap_deadline_ms = leb gap_deadline_ms 9007199254740991 && leb 1 gap_deadline_ms

module _ {V : Type 0} where
  unfoldable pub empty_queue : Queue V
  empty_queue = record {
    signers = [];
    by_hash = [];
    next_promise = 0;
    next_handle = 0;
    microtasks = [];
    running = [];
    timers = [];
    settled = [];
    started = [];
  }

  unfoldable pub constructor : ℕ → Result (Queue V)
  unfolding valid_options
  constructor gap_deadline_ms =
      if valid_options gap_deadline_ms
      then ok empty_queue
      else err "Invalid nonce-ordered queue options"

  unfoldable pub get : Queue V → Text → Option ℕ
  get q hash = lookup hash q.by_hash

  unfoldable pub signer_state : Queue V → Text → SignerState
  unfolding fresh_state
  signer_state q signer = match_option (lookup signer q.signers) fresh_state (λ s. s)
