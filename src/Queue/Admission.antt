-- ===== src/Queue/Admission.antt =====
-- rpc-src/transaction-queue.ts: `enqueue`, `_settle` and the deadline's handle.
use openzeppelin_foundry_upg.Base.{
  ℕ, suc, Bool, false, not, Option, none, some, [], ◌∷◌, ◌++◌, match_option, if◌then◌else◌, ◌==◌,
  list_eq, nat_eq,
}
use openzeppelin_foundry_upg.Base.Text.{Text}
use openzeppelin_foundry_upg.Base.Dict.{lookup, insert, erase}
use openzeppelin_foundry_upg.Queue.State.{
  nonce_already_queued, QueueEntry, SignerState, Outcome, Queue, Ticket, promised, rejected_at_once,
  signer_state,
}

-- `conflicting !== undefined && conflicting.hash !== hash`
unfoldable pub conflicts : Option QueueEntry → Text → Bool
conflicts none hash = false
conflicts (some e) hash = not (e.hash == hash)

module _ {V : Type 0} where
  unfoldable pub put_signer : Text → SignerState → Queue V → Queue V
  put_signer signer state q = record q { signers = insert signer state q.signers }

  unfoldable pub forget_signer : Text → Queue V → Queue V
  forget_signer signer q = record q { signers = erase signer q.signers }

  -- The new entry, its promise and the microtask that will pump the signer.
  unfoldable pub admit : Text → ℕ → Text → Queue V → Queue V
  unfolding signer_state
  admit signer nonce hash q = record q {
    signers = insert signer (record state { pending = insert nonce entry state.pending }) q.signers;
    by_hash = insert hash q.next_promise q.by_hash;
    next_promise = suc q.next_promise;
    microtasks = q.microtasks ++ signer ∷ [];
  }
    where
      state : SignerState
      state = signer_state q signer

      entry : QueueEntry
      entry = record { hash = hash; nonce = nonce; promise = q.next_promise }

  -- `_signer` has stored a fresh state for a new signer when the conflict is looked up; a new
  -- signer has no entry, so that state is never left behind.
  unfoldable pub enqueue : Text → ℕ → Text → Queue V → Queue V × Ticket
  unfolding admit conflicts signer_state
  enqueue signer nonce hash q =
      match_option (lookup hash q.by_hash)
        (if conflicts (lookup nonce (signer_state q signer).pending) hash
          then (q, rejected_at_once nonce_already_queued)
          else (admit signer nonce hash q, promised q.next_promise))
        (λ promise. (q, promised promise))

  unfoldable pub settle : QueueEntry → Outcome V → Queue V → Queue V
  settle entry outcome q = record q {
    by_hash = erase entry.hash q.by_hash;
    settled = (entry, outcome) ∷ q.settled;
  }

  unfoldable pub clear_deadline : SignerState → Queue V → SignerState × Queue V
  clear_deadline state q =
      match_option state.deadline_handle (state, q)
        (λ handle.
          (record state { deadline_handle = none }, record q { timers = erase handle q.timers }))

  unfoldable pub arm_deadline : Text → SignerState → Queue V → SignerState × Queue V
  arm_deadline signer state q =
      match_option state.deadline_handle
        (
          record state { deadline_handle = some q.next_handle },
          record q {
            timers = insert q.next_handle signer q.timers;
            next_handle = suc q.next_handle;
          },
        )
        (λ handle. (state, q))
