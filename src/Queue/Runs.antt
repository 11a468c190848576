-- ===== src/Queue/Runs.antt =====
-- The invariant along every run of the event loop, and what it gives the callers of the queue.
use openzeppelin_foundry_upg.Base.{
  ℕ, ◌≤◌, ◌≡◌, subst, ◌⊎◌, inl, inr, refl, true, Option, none, some, List, [], ◌∷◌, list_eq, nat_eq,
  arith, Option-cases, Bool-cases,
}
use native.Mathlib.Nat.{le_trans}
use openzeppelin_foundry_upg.Base.Text.{Text}
use openzeppelin_foundry_upg.Base.Dict.{lookup}
use openzeppelin_foundry_upg.Base.Weight.{weight}
use openzeppelin_foundry_upg.Queue.State.{SignerState, Queue, empty_queue}
use openzeppelin_foundry_upg.Queue.World.{
  World, Step, Reach, enqueues, runs_microtask, ends, times_out, advances, here, next,
}
use openzeppelin_foundry_upg.Queue.Invariant.{
  run_count, scheduled, IsSoundAt, Ordered, WithinExpected, IsSound,
}
use openzeppelin_foundry_upg.Queue.Invariant.Admitting.{enqueue-IsSound}
use openzeppelin_foundry_upg.Queue.Invariant.Ending.{after_run-IsSound, microtask-IsSound}
use openzeppelin_foundry_upg.Queue.Invariant.Timing.{on_deadline-IsSound}

module _ {V : Type 0} (expected later : Text → ℕ)
    (grows : (signer : Text) → expected signer ≤ later signer) where
  advance-within :
      (q : Queue V) (l : List (Text × ℕ)) → WithinExpected expected l → WithinExpected later l
  advance-within q [] w = tt
  advance-within q ((s, n) ∷ l) w = (le_trans w.0 (grows s), advance-within q l w.1)

  advance-at :
      (signer : Text) (q : Queue V) (o : Option SignerState)
      → IsSoundAt (expected signer) signer q o
      → IsSoundAt (later signer) signer q o
  advance-at signer q none s = s
  advance-at signer q (some state) s = record {
    runs = s.runs;
    keys = s.keys;
    cursor_le = λ c e. le_trans (s.cursor_le c e) (grows signer);
    armed = s.armed;
    only_timer = s.only_timer;
    no_deadline_while_active = s.no_deadline_while_active;
    wakes = s.wakes;
  }

  advance-IsSound : (q : Queue V) → IsSound expected q → IsSound later q
  advance-IsSound q s = record {
    whole = record {
      signers_unique = s.whole.signers_unique;
      timers_unique = s.whole.timers_unique;
      timers_old = s.whole.timers_old;
      ordered = s.whole.ordered;
      within = advance-within q q.started s.whole.within;
    };
    at = λ signer. advance-at signer q (lookup signer q.signers) (s.at signer);
  }

module _ {V : Type 0} where
  -- Every step of the program and of the event loop keeps the queue sound.
  pub Step-IsSound :
      {w w' : World V} → Step w w' → IsSound w.expected w.queue → IsSound w'.expected w'.queue
  Step-IsSound {w} (enqueues signer nonce hash) s =
      enqueue-IsSound w.expected signer nonce hash w.queue s
  Step-IsSound {w} (runs_microtask signer rest e) s =
      microtask-IsSound w.expected signer rest w.queue s e
  Step-IsSound {w} (ends promise signer entry outcome e _) s =
      after_run-IsSound w.expected signer promise entry outcome w.queue s e
  Step-IsSound {w} (times_out handle signer e) s =
      on_deadline-IsSound w.expected signer handle w.queue s e
  Step-IsSound {w} (advances later grows) s = advance-IsSound w.expected later grows w.queue s

  empty_queue-IsSound : (expected : Text → ℕ) → IsSound {V = V} expected empty_queue
  unfolding empty_queue lookup weight
  empty_queue-IsSound expected = record {
    whole = record {
      signers_unique = tt;
      timers_unique = tt;
      timers_old = λ h s e. cc;
      ordered = tt;
      within = tt;
    };
    at = λ signer. record { runs = refl; only_timer = λ h e. cc };
  }

  pub Reach-IsSound :
      {expected : Text → ℕ} {w : World V} → Reach expected w → IsSound w.expected w.queue
  Reach-IsSound {expected} here = empty_queue-IsSound expected
  Reach-IsSound (next r st) = Step-IsSound st (Reach-IsSound r)

  -- At no time do two callbacks of one signer run.
  pub one_at_a_time :
      {expected : Text → ℕ} {w : World V} (signer : Text)
      → Reach expected w
      → run_count signer w.queue.running ≤ 1
  one_at_a_time {w} signer r = at_most (lookup signer w.queue.signers) ((Reach-IsSound r).at signer)
    where
      at_most :
          (o : Option SignerState)
          → IsSoundAt (w.expected signer) signer w.queue o
          → run_count signer w.queue.running ≤ 1
      at_most none s = omega (arith, s.runs)
      at_most (some state) s = ground (arith, s.runs)

  -- The callbacks of one signer were released in the order of their nonces, and none ahead of the
  -- signer's durable expected nonce.
  pub releases_in_order :
      {expected : Text → ℕ} {w : World V}
      → Reach expected w
      → Ordered w.queue.started × WithinExpected w.expected w.queue.started
  releases_in_order r = let s = Reach-IsSound r in (s.whole.ordered, s.whole.within)

  -- At any time, a signer that the queue knows runs a callback, or has a timer armed, or is about to
  -- be pumped by a microtask.
  pub waiters_wake :
      {expected : Text → ℕ} {w : World V} (signer : Text) (state : SignerState)
      → Reach expected w
      → lookup signer w.queue.signers ≡ some state
      → (run_count signer w.queue.running ≡ 1)
        ⊎ ((h : ℕ) × (lookup h w.queue.timers ≡ some signer))
        ⊎ (scheduled signer w.queue.microtasks ≡ true)
  waiters_wake {w} signer state r stored =
      let s =
        subst (IsSoundAt (w.expected signer) signer w.queue) stored ((Reach-IsSound r).at signer) in
      elim (Bool-cases state.active) [
        | inl busy ↦ inl (rw busy at (s.runs))
        | inr idle ↦ elim (Option-cases state.deadline_handle) [
          | inl e ↦ inr (inr (s.wakes idle e))
          | inr (h, e) ↦ inr (inl (h, s.armed h e))
        ]
      ]
