-- ===== src/Queue/Invariant/Pumping.antt =====
-- `_pump` keeps the invariant, also where it is the one event that would have woken the signer.
use openzeppelin_foundry_upg.Base.{
  ℕ, ◌≤◌, ◌≡◌, ◌==◌, true, false, Option, none, some, [], ◌∷◌, list_eq, nat_eq, arith, ltb,
  if◌then◌else◌, Bool-cases, beq→ne, subst, match_option-ind, if-ind, is_empty, inl, inr,
  Bool-cases,
}
use openzeppelin_foundry_upg.Base.Text.{Text}
use openzeppelin_foundry_upg.Base.Dict.{Dict, lookup}
use openzeppelin_foundry_upg.Queue.State.{
  refused, nonce_too_low, nonce_gap_timeout, QueueEntry, SignerState, Queue,
}
use openzeppelin_foundry_upg.Queue.Admission.{settle}
use openzeppelin_foundry_upg.Queue.Pump.{reject_below, reject_all, pump_from, pump_idle, pump}
use openzeppelin_foundry_upg.Queue.Invariant.Release.{drop_signer-IsSound, release-IsSound}
use openzeppelin_foundry_upg.Queue.Invariant.Frame.{IsSoundBut-transfer}
use openzeppelin_foundry_upg.Queue.Invariant.{
  KeysMatch, IsSoundState, IsAbsent, IsSoundAt, IsSound, IsSoundBut, IsIdle,
}

-- The loop over the pending entries touches neither signers, callbacks, timers nor the releases.
pub record SameLoop {V : Type 0} (q q' : Queue V) : Type 0 where
  pub signers : q'.signers ≡ q.signers
  pub running : q'.running ≡ q.running
  pub timers : q'.timers ≡ q.timers
  pub next_handle : q'.next_handle ≡ q.next_handle
  pub microtasks : q'.microtasks ≡ q.microtasks
  pub started : q'.started ≡ q.started

module _ {V : Type 0} where
  pub reject_below-SameLoop :
      (cursor : ℕ) (p : Dict ℕ QueueEntry) (q : Queue V) → SameLoop q (reject_below cursor p q).1
  unfolding reject_below
  reject_below-SameLoop cursor [] q = ground arith
  reject_below-SameLoop cursor ((k, e) ∷ p) q = ground (
    arith,
    reject_below-SameLoop cursor p q,
    reject_below-SameLoop cursor p (settle e (refused nonce_too_low) q),
  )

  pub reject_all-SameLoop : (p : Dict ℕ QueueEntry) (q : Queue V) → SameLoop q (reject_all p q)
  unfolding reject_all
  reject_all-SameLoop [] q = ground arith
  reject_all-SameLoop ((k, e) ∷ p) q =
      ground (arith, reject_all-SameLoop p (settle e (refused nonce_gap_timeout) q))

  pub reject_below-KeysMatch :
      (cursor : ℕ) (p : Dict ℕ QueueEntry) (q : Queue V)
      → KeysMatch p
      → KeysMatch (reject_below cursor p q).0
  unfolding reject_below
  reject_below-KeysMatch cursor [] q h = h
  reject_below-KeysMatch cursor ((k, e) ∷ p) q h =
      if-ind (λ (r : Dict ℕ QueueEntry × Queue V). KeysMatch r.0) (ltb e.nonce cursor)
        (λ _. reject_below-KeysMatch cursor p (settle e (refused nonce_too_low) q) h.1)
        (λ _. (h.0, reject_below-KeysMatch cursor p q h.1))

  pub IsSoundBut-SameLoop :
      (expected : Text → ℕ) (signer : Text) (q q' : Queue V)
      → SameLoop q q'
      → IsSoundBut expected signer q
      → IsSoundBut expected signer q'
  IsSoundBut-SameLoop expected signer q q' same b =
      IsSoundBut-transfer expected signer q q' same.signers
        (record {
          signers_unique = rw same.signers b.whole.signers_unique;
          timers_unique = rw same.timers b.whole.timers_unique;
          timers_old = λ h s. rw (same.timers, same.next_handle) (b.whole.timers_old h s);
          ordered = rw same.started b.whole.ordered;
          within = rw same.started b.whole.within;
        })
        (λ other _. record {
          runs = rw same.running;
          timers_to = λ h e. rw same.timers e;
          timers_from = λ h e. rw (← same.timers) e;
          tasks = λ e. rw same.microtasks e;
        })
        b

-- What `_pump` asks of the signer that it is called for: nothing wakes it yet, if it is idle.
abbrev pub IsPumpable : {V : Type 0} → ℕ → Text → Queue V → Option SignerState → Type 0
IsPumpable expected signer q none = IsAbsent signer q.running q.timers
IsPumpable expected signer q (some state) =
    (state.active ≡ true → IsSoundState expected signer q.running q.timers q.microtasks state)
    × (state.active ≡ false → IsIdle expected signer q.running q.timers state)

module _ {V : Type 0} (expected : Text → ℕ) (signer : Text) (q : Queue V) where
  pub complete :
      (o : Option SignerState)
      → lookup signer q.signers ≡ o
      → IsSoundBut expected signer q
      → IsSoundAt (expected signer) signer q o
      → IsSound expected q
  complete o stored b s = record {
    whole = b.whole;
    at = λ other. elim (Bool-cases (signer == other)) [
      | inl same ↦
          subst (λ t. IsSoundAt (expected t) t q (lookup t q.signers))
            ((list_eq.beq_iff signer other).0 same) (rw stored s)
      | inr differs ↦ b.at other (beq→ne signer other differs)
    ];
  }

  pub IsSound→IsSoundBut : IsSound expected q → IsSoundBut expected signer q
  IsSound→IsSoundBut s = record { whole = s.whole; at = λ other _. s.at other }

  pub pump_from-IsSound :
      (state : SignerState) (pinned : ℕ)
      → IsSoundBut expected signer q
      → IsIdle (expected signer) signer q.running q.timers state
      → pinned ≤ expected signer
      → IsSound expected (pump_from (expected signer) signer state pinned q)
  unfolding pump_from
  pump_from-IsSound state pinned b i below =
      let cursor : ℕ = if ltb pinned (expected signer) then expected signer else pinned in
      let at_expected : expected signer ≡ cursor = ground arith in
      let r = reject_below cursor state.pending q in
      let same = reject_below-SameLoop cursor state.pending q in
      release-IsSound expected signer (record state { pending = r.0; cursor = some cursor }) cursor
        r.1 (IsSoundBut-SameLoop expected signer q r.1 same b)
        (record {
          runs = rw same.running i.runs;
          keys = reject_below-KeysMatch cursor state.pending q i.keys;
          inactive = i.inactive;
          cursor_le = λ c e. ground (arith, at_expected);
          armed = λ h e. rw same.timers (i.armed h e);
          only_timer = λ h e. i.only_timer h (rw (← same.timers) e);
        })
        at_expected

  pump_idle-IsSound :
      (state : SignerState)
      → IsSoundBut expected signer q
      → IsIdle (expected signer) signer q.running q.timers state
      → IsSound expected (pump_idle (expected signer) signer state q)
  unfolding pump_idle
  pump_idle-IsSound state b i =
      match_option-ind (IsSound expected) state.cursor
        (λ _.
          if-ind (IsSound expected) (is_empty state.pending)
            (λ _. drop_signer-IsSound expected signer state q b i)
            (λ _. pump_from-IsSound state (expected signer) b i (omega arith)))
        (λ cursor e. pump_from-IsSound state cursor b i (i.cursor_le cursor e))

  pub pump-IsSound :
      IsSoundBut expected signer q
      → ((o : Option SignerState)
          → lookup signer q.signers ≡ o
          → IsPumpable (expected signer) signer q o)
      → IsSound expected (pump expected signer q)
  unfolding pump
  pump-IsSound b ready =
      match_option-ind (IsSound expected) (lookup signer q.signers)
        (λ missing. complete none missing b (ready none missing))
        (λ state stored.
          if-ind (IsSound expected) state.active
            (λ busy. complete (some state) stored b ((ready (some state) stored).0 busy))
            (λ idle. pump_idle-IsSound state b ((ready (some state) stored).1 idle)))
