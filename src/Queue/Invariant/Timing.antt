-- ===== src/Queue/Invariant/Timing.antt =====
-- The callback of the gap deadline keeps the invariant.
use openzeppelin_foundry_upg.Base.{
  ℕ, ◌≤◌, ◌≡◌, refl, sym, ◌∙◌, false, Option, none, some, List, list_eq, nat_eq, arith, eq_refl,
  subst, if-ind,
}
use openzeppelin_foundry_upg.Base.Text.{Text}
use openzeppelin_foundry_upg.Base.Dict.{
  Dict, lookup, erase, IsUnique, lookup-insert, lookup-erase, erase-IsUnique,
}
use openzeppelin_foundry_upg.Queue.State.{SignerState, Queue}
use openzeppelin_foundry_upg.Queue.Admission.{put_signer}
use openzeppelin_foundry_upg.Queue.Pump.{reject_all, advanced, is_ready, expire, on_deadline}
use openzeppelin_foundry_upg.Queue.Invariant.Release.{forget_signer-IsSound}
use openzeppelin_foundry_upg.Queue.Invariant.Ending.{put_signer-IsSoundBut}
use openzeppelin_foundry_upg.Queue.Invariant.Pumping.{
  reject_all-SameLoop, IsSoundBut-SameLoop, IsPumpable, pump-IsSound, IsSound→IsSoundBut,
}
use openzeppelin_foundry_upg.Queue.Invariant.Frame.{IsSoundBut-transfer, erase-timer}
use openzeppelin_foundry_upg.Queue.Invariant.{
  Running, IsSoundState, IsSoundAt, IsSound, IsSoundBut, IsIdle,
}

advanced-le :
    (o : Option ℕ) (n c : ℕ) → ((d : ℕ) → o ≡ some d → d ≤ n) → advanced o n ≡ some c → c ≤ n
unfolding advanced
advanced-le none n c h e = cc
advanced-le (some d) n c h e = ground (arith, h d refl)

-- The timer of the signer in hand has gone off and is out of the loop's books.
fired-IsIdle :
    (n : ℕ) (signer : Text) (handle : ℕ) (timers : Dict ℕ Text) (running : Running)
    (tasks : List Text) (state : SignerState)
    → IsUnique timers
    → state.active ≡ false
    → lookup handle timers ≡ some signer
    → IsSoundState n signer running timers tasks state
    → IsIdle n signer running
        (erase handle timers)
        (record state { cursor = advanced state.cursor n; deadline_handle = none })
fired-IsIdle n signer handle timers running tasks state u idle fired s = record {
  runs = rw idle at (s.runs);
  keys = s.keys;
  inactive = idle;
  cursor_le = λ c e. advanced-le state.cursor n c s.cursor_le e;
  armed = λ h e. cc;
  only_timer = λ h e. ground (
    arith,
    lookup-erase handle h timers u,
    s.only_timer h,
    s.only_timer handle fired,
    nat_eq.beq_iff handle h,
  );
}

module _ {V : Type 0} (expected : Text → ℕ) (signer : Text) where
  module _ (handle : ℕ) (q : Queue V) (s : IsSound expected q)
      (fired : lookup handle q.timers ≡ some signer) where
    without_timer : Queue V
    without_timer = record q { timers = erase handle q.timers }

    without_timer-IsSoundBut : IsSoundBut expected signer without_timer
    unfolding without_timer
    without_timer-IsSoundBut =
        IsSoundBut-transfer expected signer q without_timer refl
          (record {
            signers_unique = s.whole.signers_unique;
            timers_unique = erase-IsUnique handle q.timers s.whole.timers_unique;
            timers_old = λ k t e.
                s.whole.timers_old k t
                  (ground (arith, lookup-erase handle k q.timers s.whole.timers_unique));
            ordered = s.whole.ordered;
            within = s.whole.within;
          })
          (λ other differs. record {
            runs = refl;
            timers_to = λ k.
                (erase-timer signer other handle q.timers s.whole.timers_unique fired differs k).0;
            timers_from = λ k.
                (erase-timer signer other handle q.timers s.whole.timers_unique fired differs k).1;
            tasks = λ t. t;
          })
          (IsSound→IsSoundBut expected signer q s)

    expire-IsSound :
        (current : SignerState)
        → lookup signer q.signers ≡ some current
        → current.active ≡ false
        → IsSoundState (expected signer) signer q.running q.timers q.microtasks current
        → IsSound expected (expire (expected signer) expected signer current without_timer)
    unfolding expire without_timer
    expire-IsSound current stored idle at =
        let cursor = advanced current.cursor (expected signer) in
        let current' : SignerState = record current { cursor = cursor; deadline_handle = none } in
        let q₁ : Queue V = put_signer signer current' without_timer in
        let q₂ : Queue V = reject_all current.pending without_timer in
        let same = reject_all-SameLoop current.pending without_timer in
        let i =
          fired-IsIdle (expected signer) signer handle q.timers q.running q.microtasks current
            s.whole.timers_unique idle fired at in
        let found : lookup signer q₁.signers ≡ some current' =
          unfold put_signer in rw (lookup-insert, eq_refl signer) refl in
        if-ind (IsSound expected) (is_ready cursor current.pending)
          (λ _.
            pump-IsSound expected signer q₁
              (put_signer-IsSoundBut expected signer current' without_timer
                without_timer-IsSoundBut)
              (λ o e.
                subst (IsPumpable (expected signer) signer q₁) (sym found ∙ e)
                  ((λ busy. ground (arith, idle, busy)), (λ _. unfold put_signer in i))))
          (λ _.
            forget_signer-IsSound expected signer q₂
              (IsSoundBut-SameLoop expected signer without_timer q₂ same without_timer-IsSoundBut)
              (record {
                runs = rw same.running i.runs;
                only_timer = λ h e. ground (arith, i.only_timer h (rw (← same.timers) e));
              }))

    on_deadline_at :
        (o : Option SignerState)
        → lookup signer q.signers ≡ o
        → IsSoundAt (expected signer) signer q o
        → IsSound expected (on_deadline expected signer without_timer)
    unfolding on_deadline without_timer
    on_deadline_at none stored at = absurd (at.only_timer handle fired)
    on_deadline_at (some current) stored at = rw stored (
        if-ind (IsSound expected) current.active
          (λ busy.
            absurd (ground (arith, at.no_deadline_while_active busy, at.only_timer handle fired)))
          (λ idle. expire-IsSound current stored idle at))

    pub on_deadline-IsSound :
        IsSound expected (on_deadline expected signer (record q { timers = erase handle q.timers }))
    unfolding without_timer
    on_deadline-IsSound = on_deadline_at (lookup signer q.signers) refl (s.at signer)
