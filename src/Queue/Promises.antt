-- ===== src/Queue/Promises.antt =====
-- Every promise that `enqueue` gives out is in one place: its entry is pending, or its callback
-- runs, or it is settled, and it is settled once.
use openzeppelin_foundry_upg.Base.{
  ℕ, ◌≡◌, ◌==◌, refl, ◌∙◌, some, [], ◌∷◌, list_eq, nat_eq, arith, ltb, match_option-ind, if-ind,
  is_empty,
}
use openzeppelin_foundry_upg.Base.Text.{Text}
use openzeppelin_foundry_upg.Base.Dict.{Dict, lookup, erase}
use openzeppelin_foundry_upg.Base.Weight.{weight, indicator, weight-erase}
use openzeppelin_foundry_upg.Queue.State.{
  QueueEntry, SignerState, refused, nonce_too_low, nonce_gap_timeout, Queue, Ticket, empty_queue,
  signer_state,
}
use openzeppelin_foundry_upg.Queue.Admission.{
  admit, conflicts, enqueue, settle, put_signer, forget_signer, clear_deadline, arm_deadline,
}
use openzeppelin_foundry_upg.Queue.Pump.{
  reject_below, reject_all, start, drop_signer, wait, release, pump_from, pump_idle, pump,
  deactivate, after_run, advanced, is_ready, expire, on_deadline,
}
use openzeppelin_foundry_upg.Queue.World.{
  World, Step, Reach, enqueues, runs_microtask, ends, times_out, advances, here, next,
}
use openzeppelin_foundry_upg.Queue.Ledger.{
  ledger, pump-ledger, after_run-ledger, on_deadline-ledger, admit-ledger,
}
use openzeppelin_foundry_upg.Queue.Hashes.{IsIndexed, Reach-IsIndexed, free_nonce}

abbrev pub has_promise : ℕ → QueueEntry → ℕ
has_promise promise e = indicator (e.promise == promise)

-- How many places hold the promise: pending entries, running callbacks, settled promises.
abbrev pub places : {V : Type 0} → ℕ → Queue V → ℕ
places promise q = ledger (has_promise promise) q

module _ {V : Type 0} where
  reject_below-next_promise :
      (cursor : ℕ) (p : Dict ℕ QueueEntry) (q : Queue V)
      → (reject_below cursor p q).1.next_promise ≡ q.next_promise
  unfolding reject_below
  reject_below-next_promise cursor [] q = refl
  reject_below-next_promise cursor ((k, e) ∷ p) q = ground (
    arith,
    reject_below-next_promise cursor p q,
    reject_below-next_promise cursor p (settle e (refused nonce_too_low) q),
  )

  reject_all-next_promise :
      (p : Dict ℕ QueueEntry) (q : Queue V) → (reject_all p q).next_promise ≡ q.next_promise
  unfolding reject_all
  reject_all-next_promise [] q = refl
  reject_all-next_promise ((k, e) ∷ p) q =
      reject_all-next_promise p (settle e (refused nonce_gap_timeout) q)

  release-next_promise :
      (signer : Text) (state : SignerState) (cursor : ℕ) (q : Queue V)
      → (release signer state cursor q).next_promise ≡ q.next_promise
  unfolding release start drop_signer wait clear_deadline arm_deadline put_signer forget_signer
  release-next_promise signer state cursor q = ground arith

  drop_signer-next_promise :
      (signer : Text) (state : SignerState) (q : Queue V)
      → (drop_signer signer state q).next_promise ≡ q.next_promise
  unfolding drop_signer clear_deadline forget_signer
  drop_signer-next_promise signer state q = ground arith

  pump-next_promise :
      (expected : Text → ℕ) (signer : Text) (q : Queue V)
      → (pump expected signer q).next_promise ≡ q.next_promise
  unfolding pump pump_idle pump_from
  pump-next_promise expected signer q =
      let Same = λ (r : Queue V). r.next_promise ≡ q.next_promise in
      let from = λ (state : SignerState) (cursor : ℕ).
        release-next_promise signer
          (record state { pending = (reject_below cursor state.pending q).0; cursor = some cursor })
          cursor (reject_below cursor state.pending q).1
        ∙ reject_below-next_promise cursor state.pending q in
      match_option-ind Same (lookup signer q.signers) (λ _. refl)
        (λ state _.
          if-ind Same state.active (λ _. refl)
            (λ _.
              match_option-ind Same state.cursor
                (λ _.
                  if-ind Same (is_empty state.pending)
                    (λ _. drop_signer-next_promise signer state q) (λ _. from state _))
                (λ cursor _. from state _)))

  deactivate-next_promise :
      (signer : Text) (q : Queue V) → (deactivate signer q).next_promise ≡ q.next_promise
  unfolding deactivate put_signer
  deactivate-next_promise signer q = ground arith

  on_deadline-next_promise :
      (expected : Text → ℕ) (signer : Text) (q : Queue V)
      → (on_deadline expected signer q).next_promise ≡ q.next_promise
  unfolding on_deadline expire put_signer forget_signer
  on_deadline-next_promise expected signer q =
      let Same = λ (r : Queue V). r.next_promise ≡ q.next_promise in
      match_option-ind Same (lookup signer q.signers) (λ _. refl)
        (λ current _.
          if-ind Same current.active (λ _. refl)
            (λ _.
              if-ind Same (is_ready (advanced current.cursor (expected signer)) current.pending)
                (λ _. pump-next_promise expected signer _)
                (λ _. reject_all-next_promise current.pending q)))

  -- A promise that was given out is in one place, one that was not in none.
  abbrev pub IsAccounted : Queue V → Type 0
  IsAccounted q = (promise : ℕ) → places promise q ≡ indicator (ltb promise q.next_promise)

  enqueue-IsAccounted :
      (signer : Text) (nonce : ℕ) (hash : Text) (q : Queue V)
      → IsIndexed q
      → IsAccounted q
      → IsAccounted (enqueue signer nonce hash q).0
  unfolding enqueue
  enqueue-IsAccounted signer nonce hash q indexed a =
      let Good = λ (r : Queue V × Ticket). IsAccounted r.0 in
      match_option-ind Good (lookup hash q.by_hash)
        (λ absent.
          if-ind Good (conflicts (lookup nonce (signer_state q signer).pending) hash) (λ _. a)
            (λ free p.
              let entered = admit-ledger (has_promise p) signer nonce hash q in
              let vacant = free_nonce signer nonce hash q indexed absent free in
              unfold admit in ground (arith, entered, vacant, a p)))
        (λ _ _. a)

  Step-IsAccounted :
      {w w' : World V} → Step w w' → IsIndexed w.queue → IsAccounted w.queue → IsAccounted w'.queue
  unfolding after_run settle
  Step-IsAccounted {w} (enqueues signer nonce hash) i a p =
      enqueue-IsAccounted signer nonce hash w.queue i a p
  Step-IsAccounted {w} (runs_microtask signer rest e) i a p =
      let q : Queue V = record w.queue { microtasks = rest } in
      pump-ledger (has_promise p) w.expected signer q
      ∙ (rw (pump-next_promise w.expected signer q) (a p))
  Step-IsAccounted {w} (ends promise signer entry outcome e _) i a p =
      let q : Queue V = record w.queue { running = erase promise w.queue.running } in
      ground (
        arith,
        a p,
        e,
        weight-erase (λ (r : Text × QueueEntry). has_promise p r.1) promise w.queue.running,
        after_run-ledger (has_promise p) w.expected signer entry outcome q,
        pump-next_promise w.expected signer (settle entry outcome (deactivate signer q)),
        deactivate-next_promise signer q,
      )
  Step-IsAccounted {w} (times_out handle signer e) i a p =
      let q : Queue V = record w.queue { timers = erase handle w.queue.timers } in
      on_deadline-ledger (has_promise p) w.expected signer q
      ∙ (rw (on_deadline-next_promise w.expected signer q) (a p))
  Step-IsAccounted (advances later grows) i a p = a p

  Reach-IsAccounted : {expected : Text → ℕ} {w : World V} → Reach expected w → IsAccounted w.queue
  unfolding empty_queue weight
  Reach-IsAccounted here p = ground arith
  Reach-IsAccounted (next r st) p = Step-IsAccounted st (Reach-IsIndexed r) (Reach-IsAccounted r) p

  -- In every run, each promise that `enqueue` has given out is in one place: its entry is pending,
  -- or its callback runs, or it is settled; so none is lost and none is settled twice. A promise
  -- that was not given out is in no place.
  pub each_promise_once :
      {expected : Text → ℕ} {w : World V} (promise : ℕ)
      → Reach expected w
      → places promise w.queue ≡ indicator (ltb promise w.queue.next_promise)
  each_promise_once promise r = Reach-IsAccounted r promise
