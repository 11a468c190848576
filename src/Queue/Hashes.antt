-- ===== src/Queue/Hashes.antt =====
-- The index by hash: it holds the hashes of the entries that are pending or running, each once.
use openzeppelin_foundry_upg.Base.{
  ℕ, ◌+◌, ◌≤◌, ◌<◌, ◌≡◌, ◌==◌, refl, ap, ◌∙◌, false, none, some, [], ◌∷◌, inl, inr, list_eq, nat_eq,
  arith, Option-cases, ltb, match_option-ind, if-ind, is_empty, eq_refl,
}
use openzeppelin_foundry_upg.Base.Text.{Text}
use openzeppelin_foundry_upg.Base.Dict.{Dict, lookup, erase}
use openzeppelin_foundry_upg.Base.Weight.{
  weight, indicator, weight-erase, count_key, count_key-lookup-none, count_key-insert,
  count_key-erase,
}
use openzeppelin_foundry_upg.Queue.State.{
  QueueEntry, SignerState, Outcome, refused, nonce_too_low, nonce_gap_timeout, Queue, Ticket,
  empty_queue, signer_state, fresh_state,
}
use openzeppelin_foundry_upg.Queue.Admission.{
  admit, conflicts, enqueue, settle, put_signer, forget_signer, clear_deadline, arm_deadline,
}
use openzeppelin_foundry_upg.Queue.Pump.{
  reject_below, reject_all, start, drop_signer, wait, release, pump_from, pump_idle, pump,
  deactivate, after_run, advanced, is_ready, expire, on_deadline,
}
use openzeppelin_foundry_upg.Queue.World.{
  World, Step, Reach, enqueues, runs_microtask, ends, times_out, advances, here, next,
}
use openzeppelin_foundry_upg.Queue.Ledger.{
  pending_weight, running_weight, settled_weight, put_signer-ledger, deactivate-ledger, pump-ledger,
  on_deadline-ledger, admit-ledger,
}

abbrev pub has_hash : Text → QueueEntry → ℕ
has_hash hash e = indicator (e.hash == hash)

-- How many entries with this hash are pending or running.
abbrev pub live : {V : Type 0} → Text → Queue V → ℕ
live hash q = pending_weight (has_hash hash) q.signers + running_weight (has_hash hash) q.running

abbrev pub IsIndexed : {V : Type 0} → Queue V → Type 0
IsIndexed q = (hash : Text) → live hash q ≡ count_key hash q.by_hash

-- What settling keeps: the settled entries of a hash with its place in the index.
abbrev pub tally : {V : Type 0} → Text → Queue V → ℕ
tally hash q = settled_weight (has_hash hash) q.settled + count_key hash q.by_hash

module _ {V : Type 0} where
  settle-tally :
      (hash : Text) (entry : QueueEntry) (outcome : Outcome V) (q : Queue V)
      → 0 < count_key entry.hash q.by_hash
      → tally hash (settle entry outcome q) ≡ tally hash q
  unfolding settle
  settle-tally hash entry outcome q present =
      omega (arith, count_key-erase hash entry.hash q.by_hash present)

  -- An entry in hand is indexed, so it can be settled, and the others stay indexed.
  settle-covers :
      (p : Dict ℕ QueueEntry) (k : ℕ) (entry : QueueEntry) (outcome : Outcome V) (q : Queue V)
      → ((h : Text) → weight (has_hash h) ((k, entry) ∷ p) ≤ count_key h q.by_hash)
      → (0 < count_key entry.hash q.by_hash)
        × ((h : Text) → weight (has_hash h) p ≤ count_key h (settle entry outcome q).by_hash)
  unfolding settle weight
  settle-covers p k entry outcome q covered =
      let present : 0 < count_key entry.hash q.by_hash =
        ground (arith, covered entry.hash, eq_refl entry.hash) in
      (present, λ h. omega (arith, covered h, count_key-erase h entry.hash q.by_hash present))

  reject_below-tally :
      (hash : Text) (cursor : ℕ) (p : Dict ℕ QueueEntry) (q : Queue V)
      → ((h : Text) → weight (has_hash h) p ≤ count_key h q.by_hash)
      → tally hash (reject_below cursor p q).1 ≡ tally hash q
  unfolding reject_below weight
  reject_below-tally hash cursor [] q covered = refl
  reject_below-tally hash cursor ((k, e) ∷ p) q covered =
      let c = settle-covers p k e (refused nonce_too_low) q covered in
      if-ind (λ (r : Dict ℕ QueueEntry × Queue V). tally hash r.1 ≡ tally hash q)
        (ltb e.nonce cursor)
        (λ _.
          reject_below-tally hash cursor p (settle e (refused nonce_too_low) q) c.1
          ∙ settle-tally hash e (refused nonce_too_low) q c.0)
        (λ _. reject_below-tally hash cursor p q (λ h. omega (arith, covered h)))

  reject_all-tally :
      (hash : Text) (p : Dict ℕ QueueEntry) (q : Queue V)
      → ((h : Text) → weight (has_hash h) p ≤ count_key h q.by_hash)
      → tally hash (reject_all p q) ≡ tally hash q
  unfolding reject_all
  reject_all-tally hash [] q covered = refl
  reject_all-tally hash ((k, e) ∷ p) q covered =
      let c = settle-covers p k e (refused nonce_gap_timeout) q covered in
      reject_all-tally hash p (settle e (refused nonce_gap_timeout) q) c.1
      ∙ settle-tally hash e (refused nonce_gap_timeout) q c.0

  release-tally :
      (hash signer : Text) (state : SignerState) (cursor : ℕ) (q : Queue V)
      → tally hash (release signer state cursor q) ≡ tally hash q
  unfolding release start drop_signer wait clear_deadline arm_deadline put_signer forget_signer
  release-tally hash signer state cursor q = ground arith

  -- The pending entries of a stored signer are indexed.
  stored-covers :
      (signer : Text) (state : SignerState) (q : Queue V)
      → lookup signer q.signers ≡ some state
      → IsIndexed q
      → (h : Text) → weight (has_hash h) state.pending ≤ count_key h q.by_hash
  stored-covers signer state q stored indexed h = ground (
    arith,
    indexed h,
    weight-erase (λ (s : SignerState). weight (has_hash h) s.pending) signer q.signers,
  )

  drop_signer-tally :
      (hash signer : Text) (state : SignerState) (q : Queue V)
      → tally hash (drop_signer signer state q) ≡ tally hash q
  unfolding drop_signer clear_deadline forget_signer
  drop_signer-tally hash signer state q = ground arith

  pump-tally :
      (hash : Text) (expected : Text → ℕ) (signer : Text) (q : Queue V)
      → IsIndexed q
      → tally hash (pump expected signer q) ≡ tally hash q
  unfolding pump pump_idle pump_from
  pump-tally hash expected signer q indexed =
      let Kept = λ (r : Queue V). tally hash r ≡ tally hash q in
      let from =
        λ (state : SignerState) (stored : lookup signer q.signers ≡ some state) (cursor : ℕ).
          release-tally hash signer
            (record state {
              pending = (reject_below cursor state.pending q).0;
              cursor = some cursor;
            })
            cursor (reject_below cursor state.pending q).1
          ∙ reject_below-tally hash cursor state.pending q
              (stored-covers signer state q stored indexed) in
      match_option-ind Kept (lookup signer q.signers) (λ _. refl)
        (λ state stored.
          if-ind Kept state.active (λ _. refl)
            (λ _.
              match_option-ind Kept state.cursor
                (λ _.
                  if-ind Kept (is_empty state.pending) (λ _. drop_signer-tally hash signer state q)
                    (λ _. from state stored _))
                (λ cursor _. from state stored _)))

  pump-IsIndexed :
      (expected : Text → ℕ) (signer : Text) (q : Queue V)
      → IsIndexed q
      → IsIndexed (pump expected signer q)
  pump-IsIndexed expected signer q indexed h = omega (
    arith,
    pump-ledger (has_hash h) expected signer q,
    pump-tally h expected signer q indexed,
    indexed h,
  )

  put_signer-IsIndexed :
      (signer : Text) (new old : SignerState) (q : Queue V)
      → lookup signer q.signers ≡ some old
      → new.pending ≡ old.pending
      → IsIndexed q
      → IsIndexed (put_signer signer new q)
  unfolding put_signer
  put_signer-IsIndexed signer new old q stored same indexed h = omega (
    arith,
    put_signer-ledger (has_hash h) signer new old q stored,
    indexed h,
    ap (weight (has_hash h)) same,
  )

  deactivate_index : (signer : Text) (q : Queue V) → (deactivate signer q).by_hash ≡ q.by_hash
  unfolding deactivate put_signer
  deactivate_index signer q = ground arith

  deactivate_settled : (signer : Text) (q : Queue V) → (deactivate signer q).settled ≡ q.settled
  unfolding deactivate put_signer
  deactivate_settled signer q = ground arith

  after_run-IsIndexed :
      (expected : Text → ℕ) (promise : ℕ) (signer : Text) (entry : QueueEntry) (outcome : Outcome V)
      (q : Queue V)
      → IsIndexed q
      → lookup promise q.running ≡ some (signer, entry)
      → IsIndexed
          (after_run expected signer entry outcome (record q { running = erase promise q.running }))
  unfolding after_run settle
  after_run-IsIndexed expected promise signer entry outcome q indexed found =
      let q₁ : Queue V = record q { running = erase promise q.running } in
      let q₂ : Queue V = deactivate signer q₁ in
      pump-IsIndexed expected signer (settle entry outcome q₂) (λ h.
        let left = λ (k : Text).
          weight-erase (λ (r : Text × QueueEntry). has_hash k r.1) promise q.running in
        let present : 0 < count_key entry.hash q.by_hash =
          ground (arith, indexed entry.hash, left entry.hash, found, eq_refl entry.hash) in
        ground (
          arith,
          indexed h,
          left h,
          found,
          count_key-erase h entry.hash q.by_hash present,
          deactivate-ledger (has_hash h) signer q₁,
          deactivate_index signer q₁,
          deactivate_settled signer q₁,
        ))

  on_deadline-tally :
      (hash : Text) (expected : Text → ℕ) (signer : Text) (q : Queue V)
      → IsIndexed q
      → tally hash (on_deadline expected signer q) ≡ tally hash q
  unfolding on_deadline expire
  on_deadline-tally hash expected signer q indexed =
      let Kept = λ (r : Queue V). tally hash r ≡ tally hash q in
      match_option-ind Kept (lookup signer q.signers) (λ _. refl)
        (λ current stored.
          if-ind Kept current.active (λ _. unfold put_signer in refl)
            (λ _.
              let cursor = advanced current.cursor (expected signer) in
              let current' : SignerState = record current {
                cursor = cursor;
                deadline_handle = none;
              } in
              if-ind Kept (is_ready cursor current.pending)
                (λ _.
                  pump-tally hash expected signer (put_signer signer current' q)
                    (put_signer-IsIndexed signer current' current q stored refl indexed)
                  ∙ (unfold put_signer in refl))
                (λ _.
                  unfold forget_signer in
                  reject_all-tally hash current.pending q
                    (stored-covers signer current q stored indexed))))

  on_deadline-IsIndexed :
      (expected : Text → ℕ) (signer : Text) (q : Queue V)
      → IsIndexed q
      → IsIndexed (on_deadline expected signer q)
  on_deadline-IsIndexed expected signer q indexed h = omega (
    arith,
    on_deadline-ledger (has_hash h) expected signer q,
    on_deadline-tally h expected signer q indexed,
    indexed h,
  )

  -- A hash that is not indexed is no pending entry's, so the nonce that it takes is free, unless
  -- another hash has it.
  pub free_nonce :
      (signer : Text) (nonce : ℕ) (hash : Text) (q : Queue V)
      → IsIndexed q
      → lookup hash q.by_hash ≡ none
      → conflicts (lookup nonce (signer_state q signer).pending) hash ≡ false
      → lookup nonce (signer_state q signer).pending ≡ none
  unfolding conflicts signer_state fresh_state lookup
  free_nonce signer nonce hash q indexed absent free =
      elim (Option-cases (lookup nonce (signer_state q signer).pending)) [
        | inl e ↦ e
        | inr (entry, e) ↦ absurd (
            ground (
              arith,
              e,
              indexed hash,
              count_key-lookup-none hash q.by_hash absent,
              weight-erase (has_hash hash) nonce (signer_state q signer).pending,
              weight-erase (λ (s : SignerState). weight (has_hash hash) s.pending) signer q.signers,
            ))
      ]

  admit-IsIndexed :
      (signer : Text) (nonce : ℕ) (hash : Text) (q : Queue V)
      → IsIndexed q
      → lookup hash q.by_hash ≡ none
      → lookup nonce (signer_state q signer).pending ≡ none
      → IsIndexed (admit signer nonce hash q)
  admit-IsIndexed signer nonce hash q indexed absent free h =
      let entered = admit-ledger (has_hash h) signer nonce hash q in
      unfold admit in
      ground
        (arith, entered, free, indexed h, count_key-insert h hash q.next_promise q.by_hash absent)

  enqueue-IsIndexed :
      (signer : Text) (nonce : ℕ) (hash : Text) (q : Queue V)
      → IsIndexed q
      → IsIndexed (enqueue signer nonce hash q).0
  unfolding enqueue
  enqueue-IsIndexed signer nonce hash q indexed =
      let Good = λ (r : Queue V × Ticket). IsIndexed r.0 in
      match_option-ind Good (lookup hash q.by_hash)
        (λ absent.
          if-ind Good (conflicts (lookup nonce (signer_state q signer).pending) hash) (λ _. indexed)
            (λ free.
              admit-IsIndexed signer nonce hash q indexed absent
                (free_nonce signer nonce hash q indexed absent free)))
        (λ _ _. indexed)

  Step-IsIndexed : {w w' : World V} → Step w w' → IsIndexed w.queue → IsIndexed w'.queue
  Step-IsIndexed {w} (enqueues signer nonce hash) i = enqueue-IsIndexed signer nonce hash w.queue i
  Step-IsIndexed {w} (runs_microtask signer rest e) i =
      pump-IsIndexed w.expected signer (record w.queue { microtasks = rest }) i
  Step-IsIndexed {w} (ends promise signer entry outcome e _) i =
      after_run-IsIndexed w.expected promise signer entry outcome w.queue i e
  Step-IsIndexed {w} (times_out handle signer e) i =
      on_deadline-IsIndexed w.expected signer
        (record w.queue { timers = erase handle w.queue.timers }) i
  Step-IsIndexed (advances later grows) i = i

  -- At any time the index holds a hash once for each entry with that hash that is pending or running.
  pub Reach-IsIndexed : {expected : Text → ℕ} {w : World V} → Reach expected w → IsIndexed w.queue
  unfolding empty_queue weight count_key
  Reach-IsIndexed here = λ h. refl
  Reach-IsIndexed (next r st) = Step-IsIndexed st (Reach-IsIndexed r)
