-- ===== src/Queue/Progress.antt =====
-- What one call does: `_pump` releases the entry at the expected nonce, and `enqueue` displaces
-- no entry.
use openzeppelin_foundry_upg.Base.{
  ℕ, ◌≤◌, ◌≡◌, refl, subst, true, false, none, some, [], ◌∷◌, list_eq, nat_eq, arith, ltb,
  if◌then◌else◌, match_option-ind, if-ind, is_empty,
}
use openzeppelin_foundry_upg.Base.Text.{Text, text_iff}
use openzeppelin_foundry_upg.Base.Dict.{Dict, lookup, insert}
use openzeppelin_foundry_upg.Queue.State.{
  QueueEntry, SignerState, refused, nonce_too_low, Queue, Ticket, signer_state,
}
use openzeppelin_foundry_upg.Queue.Admission.{
  admit, conflicts, enqueue, settle, put_signer, clear_deadline,
}
use openzeppelin_foundry_upg.Queue.Pump.{reject_below, start, release, pump_from, pump_idle, pump}
use openzeppelin_foundry_upg.Queue.World.{World, Reach}
use openzeppelin_foundry_upg.Base.Dict.{lookup-insert}
use openzeppelin_foundry_upg.Queue.Hashes.{Reach-IsIndexed, free_nonce}
use openzeppelin_foundry_upg.Queue.Invariant.{KeysMatch, IsSoundAt}
use openzeppelin_foundry_upg.Queue.Runs.{Reach-IsSound}

not_empty :
    (p : Dict ℕ QueueEntry) (c : ℕ) (entry : QueueEntry)
    → is_empty p ≡ true
    → lookup c p ≡ some entry
    → ⊥
unfolding is_empty lookup
not_empty [] c entry e found = cc
not_empty (x ∷ p) c entry e found = cc

module _ {V : Type 0} where
  -- The entry at the cursor is not below it, so the loop keeps it.
  reject_below-lookup :
      (cursor : ℕ) (p : Dict ℕ QueueEntry) (q : Queue V)
      → KeysMatch p
      → lookup cursor (reject_below cursor p q).0 ≡ lookup cursor p
  unfolding reject_below lookup
  reject_below-lookup cursor [] q m = refl
  reject_below-lookup cursor ((k, e) ∷ p) q m = ground (
    arith,
    m.0,
    reject_below-lookup cursor p q m.1,
    reject_below-lookup cursor p (settle e (refused nonce_too_low) q) m.1,
  )

  reject_below-started :
      (cursor : ℕ) (p : Dict ℕ QueueEntry) (q : Queue V)
      → (reject_below cursor p q).1.started ≡ q.started
  unfolding reject_below
  reject_below-started cursor [] q = refl
  reject_below-started cursor ((k, e) ∷ p) q = ground (
    arith,
    reject_below-started cursor p q,
    reject_below-started cursor p (settle e (refused nonce_too_low) q),
  )

  start-started :
      (signer : Text) (state : SignerState) (cursor : ℕ) (entry : QueueEntry) (q : Queue V)
      → (start signer state cursor entry q).started ≡ (signer, entry.nonce) ∷ q.started
  unfolding start clear_deadline put_signer
  start-started signer state cursor entry q = ground arith

  pump_from_releases :
      (signer : Text) (state : SignerState) (entry : QueueEntry) (expected pinned : ℕ) (q : Queue V)
      → pinned ≤ expected
      → KeysMatch state.pending
      → lookup expected state.pending ≡ some entry
      → (pump_from expected signer state pinned q).started ≡ (signer, entry.nonce) ∷ q.started
  unfolding pump_from release
  pump_from_releases signer state entry expected pinned q below m found =
      let at_expected : (if ltb pinned expected then expected else pinned) ≡ expected =
        ground arith in
      rw
        (
          at_expected,
          reject_below-lookup expected state.pending q m,
          found,
          start-started,
          reject_below-started expected state.pending q,
        )
        refl

  -- When a known signer with no callback running is pumped, the entry that waits at its durable
  -- expected nonce is released by that call.
  pub pump_releases :
      {expected₀ : Text → ℕ} {w : World V} (signer : Text) (state : SignerState)
      (entry : QueueEntry)
      → Reach expected₀ w
      → lookup signer w.queue.signers ≡ some state
      → state.active ≡ false
      → lookup (w.expected signer) state.pending ≡ some entry
      → (pump w.expected signer w.queue).started ≡ (signer, entry.nonce) ∷ w.queue.started
  unfolding pump pump_idle
  pump_releases {w} signer state entry r stored idle found =
      let s =
        subst (IsSoundAt (w.expected signer) signer w.queue) stored ((Reach-IsSound r).at signer) in
      let Released = λ (q : Queue V). q.started ≡ (signer, entry.nonce) ∷ w.queue.started in
      let from = λ (pinned : ℕ) (below : pinned ≤ w.expected signer).
        pump_from_releases signer state entry (w.expected signer) pinned w.queue below s.keys
          found in
      rw stored (
        if-ind Released state.active (λ busy. ground (arith, idle, busy))
          (λ _.
            match_option-ind Released state.cursor
              (λ _.
                if-ind Released (is_empty state.pending)
                  (λ none_waits.
                    absurd (not_empty state.pending (w.expected signer) entry none_waits found))
                  (λ _. from (w.expected signer) (omega arith)))
              (λ c e. from c (s.cursor_le c e))))

  admit_keeps :
      (signer : Text) (nonce : ℕ) (hash : Text) (other : Text) (n : ℕ) (entry : QueueEntry)
      (q : Queue V)
      → lookup nonce (signer_state q signer).pending ≡ none
      → lookup n (signer_state q other).pending ≡ some entry
      → lookup n (signer_state (admit signer nonce hash q) other).pending ≡ some entry
  unfolding admit signer_state
  admit_keeps signer nonce hash other n entry q vacant waits =
      let state = signer_state q signer in
      let new : QueueEntry = record { hash = hash; nonce = nonce; promise = q.next_promise } in
      let state' : SignerState = record state { pending = insert nonce new state.pending } in
      ground (
        arith,
        lookup-insert signer other state' q.signers,
        lookup-insert nonce n new state.pending,
        text_iff signer other,
        nat_eq.beq_iff nonce n,
      )

  -- A call of `enqueue` in a run of the queue leaves every waiting entry where it is.
  pub enqueue_keeps_waiters :
      {expected₀ : Text → ℕ} {w : World V} (signer : Text) (nonce : ℕ) (hash : Text) (other : Text)
      (n : ℕ) (entry : QueueEntry)
      → Reach expected₀ w
      → lookup n (signer_state w.queue other).pending ≡ some entry
      → lookup n (signer_state (enqueue signer nonce hash w.queue).0 other).pending ≡ some entry
  unfolding enqueue
  enqueue_keeps_waiters {w} signer nonce hash other n entry r waits =
      let q = w.queue in
      let Kept = λ (t : Queue V × Ticket). lookup n (signer_state t.0 other).pending ≡ some entry in
      match_option-ind Kept (lookup hash q.by_hash)
        (λ absent.
          if-ind Kept (conflicts (lookup nonce (signer_state q signer).pending) hash) (λ _. waits)
            (λ free.
              let vacant = free_nonce signer nonce hash q (Reach-IsIndexed r) absent free in
              admit_keeps signer nonce hash other n entry q vacant waits))
        (λ _ _. waits)
