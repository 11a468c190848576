-- ===== src/Queue/Invariant/Ending.antt =====
-- `_pump` from a microtask and `_afterRun` keep the invariant.
use openzeppelin_foundry_upg.Base.{
  ℕ, ◌≡◌, ◌≢◌, ◌==◌, refl, sym, ◌∙◌, true, false, Option, none, some, List, ◌∷◌, list_eq, nat_eq,
  arith, eq_refl, ne→beq, subst,
}
use openzeppelin_foundry_upg.Base.Text.{Text}
use openzeppelin_foundry_upg.Base.Dict.{lookup, erase, lookup-insert, insert-IsUnique}
use openzeppelin_foundry_upg.Base.Weight.{weight, weight-erase, indicator}
use openzeppelin_foundry_upg.Queue.State.{QueueEntry, SignerState, Queue, Outcome}
use openzeppelin_foundry_upg.Queue.Admission.{settle, put_signer}
use openzeppelin_foundry_upg.Queue.Pump.{pump, deactivate, after_run}
use openzeppelin_foundry_upg.Queue.Invariant.Pumping.{
  IsSoundBut-SameLoop, IsPumpable, pump-IsSound, IsSound→IsSoundBut,
}
use openzeppelin_foundry_upg.Queue.Invariant.Frame.{IsSoundBut-transfer}
use openzeppelin_foundry_upg.Queue.Invariant.{scheduled, IsSoundAt, IsSound, IsSoundBut, IsIdle}

scheduled-tail :
    (other signer : Text) (l : List Text)
    → signer ≢ other
    → scheduled other (signer ∷ l) ≡ true
    → scheduled other l ≡ true
scheduled-tail other signer l differs h = ground (arith, ne→beq signer other differs)

module _ {V : Type 0} (expected : Text → ℕ) (signer : Text) where
  pub put_signer-IsSoundBut :
      (state : SignerState) (q : Queue V)
      → IsSoundBut expected signer q
      → IsSoundBut expected signer (put_signer signer state q)
  unfolding put_signer
  put_signer-IsSoundBut state q b = record {
    whole = record {
      signers_unique = insert-IsUnique signer state q.signers b.whole.signers_unique;
      timers_unique = b.whole.timers_unique;
      timers_old = b.whole.timers_old;
      ordered = b.whole.ordered;
      within = b.whole.within;
    };
    at = λ other differs. rw (lookup-insert, ne→beq signer other differs) (b.at other differs);
  }

  -- The callback `promise` of the signer leaves the running ones: the signer ran this one only.
  ended_state :
      (promise : ℕ) (entry : QueueEntry) (q : Queue V) (o : Option SignerState)
      → lookup promise q.running ≡ some (signer, entry)
      → lookup signer q.signers ≡ o
      → IsSoundAt (expected signer) signer q o
      → (state : SignerState) × (lookup signer q.signers ≡ some state)
        × IsIdle
            (expected signer)
            signer
            (erase promise q.running)
            q.timers
            (record state { active = false })
  unfolding weight
  ended_state promise entry q none running stored s = absurd (
      ground (
        arith,
        s.runs,
        running,
        eq_refl signer,
        weight-erase (λ (r : Text × QueueEntry). indicator (r.0 == signer)) promise q.running,
      ))
  ended_state promise entry q (some state) running stored s = (
    state,
    stored,
    record {
      runs = ground (
        arith,
        s.runs,
        running,
        eq_refl signer,
        weight-erase (λ (r : Text × QueueEntry). indicator (r.0 == signer)) promise q.running,
      );
      keys = s.keys;
      inactive = refl;
      cursor_le = s.cursor_le;
      armed = s.armed;
      only_timer = s.only_timer;
    },
  )

  pub after_run-IsSound :
      (promise : ℕ) (entry : QueueEntry) (outcome : Outcome V) (q : Queue V)
      → IsSound expected q
      → lookup promise q.running ≡ some (signer, entry)
      → IsSound expected
          (after_run expected signer entry outcome (record q { running = erase promise q.running }))
  unfolding after_run settle deactivate
  after_run-IsSound promise entry outcome q s running =
      let (state, stored, idle) =
        ended_state promise entry q (lookup signer q.signers) running refl (s.at signer) in
      let q₁ : Queue V = record q { running = erase promise q.running } in
      let q₂ : Queue V = put_signer signer (record state { active = false }) q₁ in
      let b₁ : IsSoundBut expected signer q₁ =
        IsSoundBut-transfer expected signer q q₁ refl
          (record {
            signers_unique = s.whole.signers_unique;
            timers_unique = s.whole.timers_unique;
            timers_old = s.whole.timers_old;
            ordered = s.whole.ordered;
            within = s.whole.within;
          })
          (λ other differs. record {
            runs = ground (
              arith,
              running,
              ne→beq signer other differs,
              weight-erase (λ (r : Text × QueueEntry). indicator (r.0 == other)) promise q.running,
            );
            timers_to = λ h e. e;
            timers_from = λ h e. e;
            tasks = λ t. t;
          })
          (IsSound→IsSoundBut expected signer q s) in
      let state' : SignerState = record state { active = false } in
      let q₃ : Queue V = settle entry outcome q₂ in
      let found : lookup signer q₃.signers ≡ some state' =
        rw (lookup-insert, eq_refl signer) refl in
      rw stored (
        pump-IsSound expected signer q₃
          (IsSoundBut-SameLoop expected signer q₂ q₃
            (record {
              signers = refl;
              running = refl;
              timers = refl;
              next_handle = refl;
              microtasks = refl;
              started = refl;
            })
            (put_signer-IsSoundBut state' q₁ b₁))
          (λ o e.
            subst (IsPumpable (expected signer) signer q₃) (sym found ∙ e)
              ((λ busy. cc), (λ _. idle))))

  -- The head of the microtasks is taken off and run.
  pub microtask-IsSound :
      (rest : List Text) (q : Queue V)
      → IsSound expected q
      → q.microtasks ≡ signer ∷ rest
      → IsSound expected (pump expected signer (record q { microtasks = rest }))
  microtask-IsSound rest q s popped =
      let q' : Queue V = record q { microtasks = rest } in
      pump-IsSound expected signer q'
        (IsSoundBut-transfer expected signer q q' refl
          (record {
            signers_unique = s.whole.signers_unique;
            timers_unique = s.whole.timers_unique;
            timers_old = s.whole.timers_old;
            ordered = s.whole.ordered;
            within = s.whole.within;
          })
          (λ other differs. record {
            runs = refl;
            timers_to = λ h e. e;
            timers_from = λ h e. e;
            tasks = λ t. scheduled-tail other signer rest differs (rw popped at t);
          })
          (IsSound→IsSoundBut expected signer q s))
        (λ o stored.
          pumpable q' o (subst (IsSoundAt (expected signer) signer q) stored (s.at signer)))
    where
      pumpable :
          (q' : Queue V) (o : Option SignerState)
          → IsSoundAt (expected signer) signer q o
          → IsPumpable (expected signer) signer (record q { microtasks = rest }) o
      pumpable q' none at = at
      pumpable q' (some state) at = (
        (λ busy. record {
          runs = at.runs;
          keys = at.keys;
          cursor_le = at.cursor_le;
          armed = at.armed;
          only_timer = at.only_timer;
          no_deadline_while_active = at.no_deadline_while_active;
          wakes = λ idle. ground (arith, busy, idle);
        }),
        (λ idle. record {
          runs = rw idle at (at.runs);
          keys = at.keys;
          inactive = idle;
          cursor_le = at.cursor_le;
          armed = at.armed;
          only_timer = at.only_timer;
        }),
      )
