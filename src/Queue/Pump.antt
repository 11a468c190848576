-- ===== src/Queue/Pump.antt =====
-- rpc-src/transaction-queue.ts: `_pump`, `_afterRun` and the callback of the gap deadline.
use openzeppelin_foundry_upg.Base.{
  ℕ, Bool, true, false, Option, none, some, [], ◌∷◌, ltb, is_empty, match_option, if◌then◌else◌,
  list_eq, nat_eq,
}
use openzeppelin_foundry_upg.Base.Text.{Text}
use openzeppelin_foundry_upg.Base.Dict.{Dict, lookup, erase, has}
use openzeppelin_foundry_upg.Queue.State.{
  nonce_too_low, nonce_gap_timeout, QueueEntry, SignerState, Outcome, refused, Queue,
}
use openzeppelin_foundry_upg.Queue.Admission.{
  put_signer, forget_signer, settle, clear_deadline, arm_deadline,
}

unfoldable pub advanced : Option ℕ → ℕ → Option ℕ
advanced none expected = none
advanced (some cursor) expected = some (if ltb cursor expected then expected else cursor)

-- `current.cursor !== undefined && current.pending.has(current.cursor.toString())`
unfoldable pub is_ready : Option ℕ → Dict ℕ QueueEntry → Bool
is_ready none pending = false
is_ready (some cursor) pending = has cursor pending

module _ {V : Type 0} where
  -- The loop over the pending entries: those below the cursor are deleted and rejected.
  unfoldable pub reject_below : ℕ → Dict ℕ QueueEntry → Queue V → Dict ℕ QueueEntry × Queue V
  unfolding settle
  reject_below cursor [] q = ([], q)
  reject_below cursor ((key, entry) ∷ rest) q =
      let dropped = reject_below cursor rest (settle entry (refused nonce_too_low) q) in
      let passed = reject_below cursor rest q in
      if ltb entry.nonce cursor then dropped else ((key, entry) ∷ passed.0, passed.1)

  -- The loop of the deadline: every pending entry is deleted and rejected.
  unfoldable pub reject_all : Dict ℕ QueueEntry → Queue V → Queue V
  unfolding settle
  reject_all [] q = q
  reject_all ((key, entry) ∷ rest) q = reject_all rest (settle entry (refused nonce_gap_timeout) q)

  -- The entry at the cursor leaves the map and its callback starts.
  unfoldable pub start : Text → SignerState → ℕ → QueueEntry → Queue V → Queue V
  start signer state cursor ready q =
      let (cleared, q') = clear_deadline state q in
      put_signer signer (record cleared { pending = erase cursor cleared.pending; active = true })
        (record q' {
          running = (ready.promise, (signer, ready)) ∷ q'.running;
          started = (signer, ready.nonce) ∷ q'.started;
        })

  unfoldable pub drop_signer : Text → SignerState → Queue V → Queue V
  drop_signer signer state q = forget_signer signer (clear_deadline state q).1

  unfoldable pub wait : Text → SignerState → Queue V → Queue V
  wait signer state q = let (armed, q') = arm_deadline signer state q in put_signer signer armed q'

  -- `_pump` from the look-up of the entry at the cursor on
  unfoldable pub release : Text → SignerState → ℕ → Queue V → Queue V
  release signer state cursor q =
      match_option (lookup cursor state.pending)
        (if is_empty state.pending then drop_signer signer state q else wait signer state q)
        (λ ready. start signer state cursor ready q)

  -- `_pump` from the second reading of the expected nonce on
  unfoldable pub pump_from : ℕ → Text → SignerState → ℕ → Queue V → Queue V
  pump_from expected signer state pinned q =
      let cursor = if ltb pinned expected then expected else pinned in
      let (kept, q') = reject_below cursor state.pending q in
      release signer (record state { pending = kept; cursor = some cursor }) cursor q'

  unfoldable pub pump_idle : ℕ → Text → SignerState → Queue V → Queue V
  pump_idle expected signer state q =
      match_option state.cursor
        (if is_empty state.pending
          then drop_signer signer state q
          else pump_from expected signer state expected q)
        (λ cursor. pump_from expected signer state cursor q)

  -- The first argument is `expectedNonce`, taken to return a nonce.
  unfoldable pub pump : (Text → ℕ) → Text → Queue V → Queue V
  pump expected signer q =
      match_option (lookup signer q.signers) q
        (λ state. if state.active then q else pump_idle (expected signer) signer state q)

  unfoldable pub deactivate : Text → Queue V → Queue V
  unfolding put_signer
  deactivate signer q =
      match_option (lookup signer q.signers) q
        (λ state. put_signer signer (record state { active = false }) q)

  -- A callback has ended: `q` no longer counts it among the running ones.
  unfoldable pub after_run : (Text → ℕ) → Text → QueueEntry → Outcome V → Queue V → Queue V
  after_run expected signer entry outcome q =
      pump expected signer (settle entry outcome (deactivate signer q))

  unfoldable pub expire : ℕ → (Text → ℕ) → Text → SignerState → Queue V → Queue V
  expire expected_now expected signer current q =
      let cursor = advanced current.cursor expected_now in
      let current' = record current { cursor = cursor; deadline_handle = none } in
      if is_ready cursor current.pending
      then pump expected signer (put_signer signer current' q)
      else forget_signer signer (reject_all current.pending q)

  -- The callback of the gap deadline: `q` no longer counts its timer among the armed ones.
  unfoldable pub on_deadline : (Text → ℕ) → Text → Queue V → Queue V
  on_deadline expected signer q = match_option (lookup signer q.signers) q (λ current.
      if current.active
      then put_signer signer (record current { deadline_handle = none }) q
      else expire (expected signer) expected signer current q)
