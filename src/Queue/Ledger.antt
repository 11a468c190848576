-- ===== src/Queue/Ledger.antt =====
-- Conservation: an entry that is admitted is pending, running or settled, and never lost or copied.
-- `f` weighs entries, so that one law serves for promises and for hashes.
use openzeppelin_foundry_upg.Base.{
  ℕ, ◌+◌, ◌≡◌, refl, ap, true, false, none, some, List, [], ◌∷◌, arith, ltb, is_empty, is_empty→nil,
  match_option-ind, if-ind, if◌then◌else◌, list_eq, nat_eq,
}
use openzeppelin_foundry_upg.Base.Text.{Text}
use openzeppelin_foundry_upg.Base.Dict.{Dict, lookup, insert, erase}
use openzeppelin_foundry_upg.Base.Weight.{weight, weight_opt, sum_of, weight-insert, weight-erase}
use openzeppelin_foundry_upg.Queue.State.{
  refused, nonce_too_low, nonce_gap_timeout, QueueEntry, SignerState, Outcome, Queue, signer_state,
}
use openzeppelin_foundry_upg.Queue.Admission.{
  put_signer, forget_signer, admit, settle, clear_deadline, arm_deadline,
}
use openzeppelin_foundry_upg.Queue.Pump.{
  reject_below, reject_all, start, drop_signer, wait, release, pump_from, pump_idle, pump,
  deactivate, advanced, is_ready, after_run, expire, on_deadline,
}

module _ (f : QueueEntry → ℕ) where
  abbrev pub pending_weight : Dict Text SignerState → ℕ
  pending_weight = weight (λ s. weight f s.pending)

  abbrev pub running_weight : Dict ℕ (Text × QueueEntry) → ℕ
  running_weight = weight (λ r. f r.1)

module _ {V : Type 0} (f : QueueEntry → ℕ) where
  abbrev pub settled_weight : List (QueueEntry × Outcome V) → ℕ
  settled_weight = sum_of (λ x. f x.0)

  abbrev pub ledger : Queue V → ℕ
  ledger q = pending_weight f q.signers + running_weight f q.running + settled_weight q.settled

  -- What the two loops leave alone, and what they move into the log.
  reject_below-signers :
      (cursor : ℕ) (p : Dict ℕ QueueEntry) (q : Queue V)
      → (reject_below cursor p q).1.signers ≡ q.signers
  unfolding reject_below
  reject_below-signers cursor [] q = refl
  reject_below-signers cursor ((k, e) ∷ p) q = ground (
    arith,
    reject_below-signers cursor p q,
    reject_below-signers cursor p (settle e (refused nonce_too_low) q),
  )

  reject_below-running :
      (cursor : ℕ) (p : Dict ℕ QueueEntry) (q : Queue V)
      → (reject_below cursor p q).1.running ≡ q.running
  unfolding reject_below
  reject_below-running cursor [] q = refl
  reject_below-running cursor ((k, e) ∷ p) q = ground (
    arith,
    reject_below-running cursor p q,
    reject_below-running cursor p (settle e (refused nonce_too_low) q),
  )

  reject_below-weight :
      (cursor : ℕ) (p : Dict ℕ QueueEntry) (q : Queue V)
      → weight f (reject_below cursor p q).0 + settled_weight (reject_below cursor p q).1.settled
        ≡ weight f p + settled_weight q.settled
  unfolding reject_below weight
  reject_below-weight cursor [] q = refl
  reject_below-weight cursor ((k, e) ∷ p) q = ground (
    arith,
    reject_below-weight cursor p q,
    reject_below-weight cursor p (settle e (refused nonce_too_low) q),
  )

  reject_all-ledger :
      (p : Dict ℕ QueueEntry) (q : Queue V) → ledger (reject_all p q) ≡ weight f p + ledger q
  unfolding reject_all weight
  reject_all-ledger [] q = omega arith
  reject_all-ledger ((k, e) ∷ p) q =
      ground (arith, reject_all-ledger p (settle e (refused nonce_gap_timeout) q))

  reject_all-signers : (p : Dict ℕ QueueEntry) (q : Queue V) → (reject_all p q).signers ≡ q.signers
  unfolding reject_all
  reject_all-signers [] q = refl
  reject_all-signers ((k, e) ∷ p) q = reject_all-signers p (settle e (refused nonce_gap_timeout) q)

  pub put_signer-ledger :
      (signer : Text) (new old : SignerState) (q : Queue V)
      → lookup signer q.signers ≡ some old
      → ledger (put_signer signer new q) + weight f old.pending ≡ ledger q + weight f new.pending
  unfolding put_signer
  put_signer-ledger signer new old q h =
      ground (arith, weight-insert (λ (s : SignerState). weight f s.pending) signer new q.signers)

  forget_signer-ledger :
      (signer : Text) (old : SignerState) (q : Queue V)
      → lookup signer q.signers ≡ some old
      → ledger (forget_signer signer q) + weight f old.pending ≡ ledger q
  unfolding forget_signer
  forget_signer-ledger signer old q h =
      ground (arith, weight-erase (λ (s : SignerState). weight f s.pending) signer q.signers)

  clear_deadline-ledger : (s : SignerState) (q : Queue V) → ledger (clear_deadline s q).1 ≡ ledger q
  unfolding clear_deadline
  clear_deadline-ledger s q = ground arith

  clear_deadline-pending :
      (s : SignerState) (q : Queue V) → (clear_deadline s q).0.pending ≡ s.pending
  unfolding clear_deadline
  clear_deadline-pending s q = ground arith

  clear_deadline-signers :
      (s : SignerState) (q : Queue V) → (clear_deadline s q).1.signers ≡ q.signers
  unfolding clear_deadline
  clear_deadline-signers s q = ground arith

  -- `state` is what the code holds in hand, `old` what the map still holds of the signer.
  module _ (signer : Text) (state old : SignerState) (q : Queue V)
      (stored : lookup signer q.signers ≡ some old) where
    start-ledger :
        (cursor : ℕ) (ready : QueueEntry)
        → lookup cursor state.pending ≡ some ready
        → ledger (start signer state cursor ready q) + weight f old.pending
          ≡ ledger q + weight f state.pending
    unfolding start clear_deadline put_signer weight
    start-ledger cursor ready found =
        let placed = λ (new : SignerState).
          weight-insert (λ (s : SignerState). weight f s.pending) signer new q.signers in
        ground (
          arith,
          weight-erase f cursor state.pending,
          placed (record state {
            deadline_handle = none;
            pending = erase cursor state.pending;
            active = true;
          }),
          placed (record state { pending = erase cursor state.pending; active = true }),
        )

    drop_signer-ledger :
        state.pending ≡ []
        → ledger (drop_signer signer state q) + weight f old.pending
          ≡ ledger q + weight f state.pending
    unfolding drop_signer forget_signer clear_deadline weight
    drop_signer-ledger empty =
        ground (arith, weight-erase (λ (s : SignerState). weight f s.pending) signer q.signers)

    wait-ledger :
        ledger (wait signer state q) + weight f old.pending ≡ ledger q + weight f state.pending
    unfolding wait arm_deadline put_signer
    wait-ledger =
        let placed = λ (new : SignerState).
          weight-insert (λ (s : SignerState). weight f s.pending) signer new q.signers in
        ground (arith, placed state, placed (record state { deadline_handle = some q.next_handle }))

    release-ledger :
        (cursor : ℕ)
        → ledger (release signer state cursor q) + weight f old.pending
          ≡ ledger q + weight f state.pending
    unfolding release
    release-ledger cursor =
        let Balanced =
          λ (r : Queue V). ledger r + weight f old.pending ≡ ledger q + weight f state.pending in
        match_option-ind Balanced (lookup cursor state.pending)
          (λ _.
            if-ind Balanced (is_empty state.pending)
              (λ empty. drop_signer-ledger (is_empty→nil state.pending empty)) (λ _. wait-ledger))
          (λ ready found. start-ledger cursor ready found)

  pump_from-ledger :
      (signer : Text) (state old : SignerState) (q : Queue V) (expected pinned : ℕ)
      → lookup signer q.signers ≡ some old
      → ledger (pump_from expected signer state pinned q) + weight f old.pending
        ≡ ledger q + weight f state.pending
  unfolding pump_from
  pump_from-ledger signer state old q expected pinned stored =
      let cursor : ℕ = if ltb pinned expected then expected else pinned in
      let rejected = reject_below cursor state.pending q in
      omega (
        arith,
        reject_below-weight cursor state.pending q,
        release-ledger signer (record state { pending = rejected.0; cursor = some cursor }) old
            rejected.1 (rw reject_below-signers stored) cursor,
        ap (pending_weight f) (reject_below-signers cursor state.pending q),
        ap (running_weight f) (reject_below-running cursor state.pending q),
      )

  pump_idle-ledger :
      (signer : Text) (state : SignerState) (q : Queue V) (expected : ℕ)
      → lookup signer q.signers ≡ some state
      → ledger (pump_idle expected signer state q) ≡ ledger q
  unfolding pump_idle
  pump_idle-ledger signer state q expected stored =
      let Kept = λ (r : Queue V). ledger r ≡ ledger q in
      let from = λ (pinned : ℕ). pump_from-ledger signer state state q expected pinned stored in
      match_option-ind Kept state.cursor
        (λ _.
          if-ind Kept (is_empty state.pending)
            (λ empty. omega (
              arith,
              drop_signer-ledger signer state state q stored (is_empty→nil state.pending empty),
            ))
            (λ _. omega (arith, from expected)))
        (λ cursor _. omega (arith, from cursor))

  pub pump-ledger :
      (expected : Text → ℕ) (signer : Text) (q : Queue V)
      → ledger (pump expected signer q) ≡ ledger q
  unfolding pump
  pump-ledger expected signer q =
      let Kept = λ (r : Queue V). ledger r ≡ ledger q in
      match_option-ind Kept (lookup signer q.signers) (λ _. refl)
        (λ state stored.
          if-ind Kept state.active (λ _. refl)
            (λ _. pump_idle-ledger signer state q (expected signer) stored))

  pub deactivate-ledger : (signer : Text) (q : Queue V) → ledger (deactivate signer q) ≡ ledger q
  unfolding deactivate
  deactivate-ledger signer q =
      match_option-ind (λ r. ledger r ≡ ledger q) (lookup signer q.signers) (λ _. refl)
        (λ s stored.
          omega (arith, put_signer-ledger signer (record s { active = false }) s q stored))

  -- `entry` has just left the running callbacks.
  pub after_run-ledger :
      (expected : Text → ℕ) (signer : Text) (entry : QueueEntry) (outcome : Outcome V) (q : Queue V)
      → ledger (after_run expected signer entry outcome q) ≡ f entry + ledger q
  unfolding after_run settle
  after_run-ledger expected signer entry outcome q = omega (
    arith,
    pump-ledger expected signer (settle entry outcome (deactivate signer q)),
    deactivate-ledger signer q,
  )

  expire-ledger :
      (now : ℕ) (expected : Text → ℕ) (signer : Text) (current : SignerState) (q : Queue V)
      → lookup signer q.signers ≡ some current
      → ledger (expire now expected signer current q) ≡ ledger q
  unfolding expire
  expire-ledger now expected signer current q stored =
      let cursor = advanced current.cursor now in
      let current' : SignerState = record current { cursor = cursor; deadline_handle = none } in
      if-ind (λ (r : Queue V). ledger r ≡ ledger q) (is_ready cursor current.pending)
        (λ _. omega (
          arith,
          pump-ledger expected signer (put_signer signer current' q),
          put_signer-ledger signer current' current q stored,
        ))
        (λ _. omega (
          arith,
          reject_all-ledger current.pending q,
          forget_signer-ledger signer current (reject_all current.pending q)
              (rw reject_all-signers stored),
        ))

  pub on_deadline-ledger :
      (expected : Text → ℕ) (signer : Text) (q : Queue V)
      → ledger (on_deadline expected signer q) ≡ ledger q
  unfolding on_deadline
  on_deadline-ledger expected signer q =
      let Kept = λ (r : Queue V). ledger r ≡ ledger q in
      match_option-ind Kept (lookup signer q.signers) (λ _. refl)
        (λ current stored.
          if-ind Kept current.active
            (λ _. omega (
              arith,
              put_signer-ledger signer (record current { deadline_handle = none }) current q stored,
            ))
            (λ _. expire-ledger (expected signer) expected signer current q stored))

  -- A new entry enters once; nothing else changes, unless it overwrites another at its nonce.
  pub admit-ledger :
      (signer : Text) (nonce : ℕ) (hash : Text) (q : Queue V)
      → ledger (admit signer nonce hash q)
          + weight_opt f (lookup nonce (signer_state q signer).pending)
        ≡ ledger q + f (record { hash = hash; nonce = nonce; promise = q.next_promise })
  unfolding admit weight
  admit-ledger signer nonce hash q =
      let state = signer_state q signer in
      let entry : QueueEntry = record { hash = hash; nonce = nonce; promise = q.next_promise } in
      let new : SignerState = record state { pending = insert nonce entry state.pending } in
      ground (
        arith,
        weight-insert f nonce entry state.pending,
        weight-insert (λ (s : SignerState). weight f s.pending) signer new q.signers,
      )
