-- ===== src/Queue/Invariant/Release.antt =====
-- `release` turns an idle signer in hand into one that runs, waits under a timer, or is forgotten.
use openzeppelin_foundry_upg.Base.{
  ℕ, suc, ◌≤◌, ◌≡◌, ◌≢◌, ◌==◌, refl, ◌∙◌, true, Option, none, some, List, [], ◌∷◌, list_eq, nat_eq,
  arith, eq_refl, ne→beq, beq→ne, subst, match_option-ind, if-ind, is_empty,
}
use openzeppelin_foundry_upg.Base.Text.{Text}
use openzeppelin_foundry_upg.Base.Dict.{
  lookup, insert, erase, lookup-insert, lookup-erase, insert-IsUnique, erase-IsUnique,
  Entries-erase, Entries-lookup,
}
use openzeppelin_foundry_upg.Base.Weight.{weight}
use openzeppelin_foundry_upg.Queue.State.{QueueEntry, SignerState, Queue}
use openzeppelin_foundry_upg.Queue.Admission.{
  put_signer, forget_signer, clear_deadline, arm_deadline,
}
use openzeppelin_foundry_upg.Queue.Pump.{start, drop_signer, wait, release}
use openzeppelin_foundry_upg.Queue.Invariant.Frame.{IsSoundBut-transfer, erase-timer, insert-timer}
use openzeppelin_foundry_upg.Queue.Invariant.{
  Matches, IsSoundState, IsAbsent, IsSoundAt, EarlierLe, WithinExpected, IsSound, IsSoundBut,
  IsIdle,
}

-- A release at the expected nonce comes after every release so far.
within→earlier :
    (expected : Text → ℕ) (signer : Text) (n : ℕ) (l : List (Text × ℕ))
    → expected signer ≡ n
    → WithinExpected expected l
    → EarlierLe signer n l
within→earlier expected signer n [] e w = tt
within→earlier expected signer n ((s, m) ∷ l) e w = (
  λ same. rw (← e) (subst (λ t. m ≤ expected t) same w.0),
  within→earlier expected signer n l e w.1,
)

module _ {V : Type 0} (expected : Text → ℕ) (signer : Text) where
  -- Storing a sound state, or forgetting the signer, completes the invariant.
  pub put_signer-IsSound :
      (state : SignerState) (q : Queue V)
      → IsSoundBut expected signer q
      → IsSoundState (expected signer) signer q.running q.timers q.microtasks state
      → IsSound expected (put_signer signer state q)
  unfolding put_signer
  put_signer-IsSound state q b s = record {
    whole = record {
      signers_unique = insert-IsUnique signer state q.signers b.whole.signers_unique;
      timers_unique = b.whole.timers_unique;
      timers_old = b.whole.timers_old;
      ordered = b.whole.ordered;
      within = b.whole.within;
    };
    at = λ other. rw lookup-insert (
        if-ind (λ (o : Option SignerState). IsSoundAt (expected other) other q o) (signer == other)
          (λ same.
            subst (λ t. IsSoundState (expected t) t q.running q.timers q.microtasks state)
              ((list_eq.beq_iff signer other).0 same) s)
          (λ differs. b.at other (beq→ne signer other differs)));
  }

  pub forget_signer-IsSound :
      (q : Queue V)
      → IsSoundBut expected signer q
      → IsAbsent signer q.running q.timers
      → IsSound expected (forget_signer signer q)
  unfolding forget_signer
  forget_signer-IsSound q b s = record {
    whole = record {
      signers_unique = erase-IsUnique signer q.signers b.whole.signers_unique;
      timers_unique = b.whole.timers_unique;
      timers_old = b.whole.timers_old;
      ordered = b.whole.ordered;
      within = b.whole.within;
    };
    at = λ other. rw (lookup-erase signer other q.signers b.whole.signers_unique) (
        if-ind (λ (o : Option SignerState). IsSoundAt (expected other) other q o) (signer == other)
          (λ same.
            subst (λ t. IsAbsent t q.running q.timers) ((list_eq.beq_iff signer other).0 same) s)
          (λ differs. b.at other (beq→ne signer other differs)));
  }

  -- Clearing the deadline of the signer in hand: no timer of it is left.
  pub clear_deadline-IsSoundBut :
      (state : SignerState) (q : Queue V)
      → IsSoundBut expected signer q
      → IsIdle (expected signer) signer q.running q.timers state
      → IsSoundBut expected signer (clear_deadline state q).1
        × ((h : ℕ) → lookup h (clear_deadline state q).1.timers ≢ some signer)
  unfolding clear_deadline
  clear_deadline-IsSoundBut state q b i =
      match_option-ind
        (λ (r : SignerState × Queue V).
          IsSoundBut expected signer r.1 × ((h : ℕ) → lookup h r.1.timers ≢ some signer))
        state.deadline_handle (λ none_armed. (b, λ h e. ground (arith, i.only_timer h e)))
        (λ h named.
          let q' : Queue V = record q { timers = erase h q.timers } in
          let own = i.armed h named in
          (
            IsSoundBut-transfer expected signer q q' refl
                (record {
                  signers_unique = b.whole.signers_unique;
                  timers_unique = erase-IsUnique h q.timers b.whole.timers_unique;
                  timers_old = λ k s e.
                      b.whole.timers_old k s
                        (ground (arith, lookup-erase h k q.timers b.whole.timers_unique));
                  ordered = b.whole.ordered;
                  within = b.whole.within;
                })
                (λ other differs. record {
                  runs = refl;
                  timers_to = λ k.
                      (erase-timer signer other h q.timers b.whole.timers_unique own differs k).0;
                  timers_from = λ k.
                      (erase-timer signer other h q.timers b.whole.timers_unique own differs k).1;
                  tasks = λ t. t;
                })
                b,
            λ k e. ground (
              arith,
              lookup-erase h k q.timers b.whole.timers_unique,
              i.only_timer k,
              nat_eq.beq_iff h k,
            ),
          ))

  clear_deadline_lem :
      (state : SignerState) (q : Queue V)
      → ((clear_deadline state q).0 ≡ record state { deadline_handle = none })
        × ((clear_deadline state q).1.running ≡ q.running)
        × ((clear_deadline state q).1.microtasks ≡ q.microtasks)
  unfolding clear_deadline
  clear_deadline_lem state q = ground arith

  -- The entry at the expected nonce starts.
  pub start-IsSound :
      (state : SignerState) (cursor : ℕ) (ready : QueueEntry) (q : Queue V)
      → IsSoundBut expected signer q
      → IsIdle (expected signer) signer q.running q.timers state
      → expected signer ≡ cursor
      → lookup cursor state.pending ≡ some ready
      → IsSound expected (start signer state cursor ready q)
  unfolding start weight
  start-IsSound state cursor ready q b i at_expected found =
      let cleared = clear_deadline-IsSoundBut state q b i in
      let r = clear_deadline state q in
      let nonce : cursor ≡ ready.nonce =
        Entries-lookup Matches cursor ready state.pending i.keys found in
      let frame = clear_deadline_lem state q in
      let q' : Queue V = record r.1 {
        running = (ready.promise, (signer, ready)) ∷ r.1.running;
        started = (signer, ready.nonce) ∷ r.1.started;
      } in
      put_signer-IsSound (record r.0 { pending = erase cursor r.0.pending; active = true }) q'
        (IsSoundBut-transfer expected signer r.1 q' refl
          (record {
            signers_unique = cleared.0.whole.signers_unique;
            timers_unique = cleared.0.whole.timers_unique;
            timers_old = cleared.0.whole.timers_old;
            ordered = (
              within→earlier expected signer ready.nonce r.1.started (at_expected ∙ nonce)
                  cleared.0.whole.within,
              cleared.0.whole.ordered,
            );
            within = (omega (arith, at_expected, nonce), cleared.0.whole.within);
          })
          (λ other differs. record {
            runs = ground (arith, ne→beq signer other differs);
            timers_to = λ h e. e;
            timers_from = λ h e. e;
            tasks = λ t. t;
          })
          cleared.0)
        (record {
          runs = ground (arith, frame.1, i.runs, eq_refl signer);
          keys = rw frame.0 (Entries-erase Matches cursor state.pending i.keys);
          cursor_le = λ c e. i.cursor_le c (ground (arith, frame.0));
          armed = λ h e. ground (arith, frame.0);
          only_timer = λ h e. absurd (cleared.1 h e);
          no_deadline_while_active = λ _. rw frame.0;
          wakes = λ e _. cc;
        })

  pub drop_signer-IsSound :
      (state : SignerState) (q : Queue V)
      → IsSoundBut expected signer q
      → IsIdle (expected signer) signer q.running q.timers state
      → IsSound expected (drop_signer signer state q)
  unfolding drop_signer
  drop_signer-IsSound state q b i =
      let cleared = clear_deadline-IsSoundBut state q b i in
      forget_signer-IsSound (clear_deadline state q).1 cleared.0
        (record { runs = rw (clear_deadline_lem state q).1 i.runs; only_timer = cleared.1 })

  -- Waiters get a timer, unless one is armed.
  pub wait-IsSound :
      (state : SignerState) (q : Queue V)
      → IsSoundBut expected signer q
      → IsIdle (expected signer) signer q.running q.timers state
      → IsSound expected (wait signer state q)
  unfolding wait arm_deadline
  wait-IsSound state q b i =
      match_option-ind (λ (r : SignerState × Queue V). IsSound expected (put_signer signer r.0 r.1))
        state.deadline_handle
        (λ unarmed.
          let q' : Queue V = record q {
            timers = insert q.next_handle signer q.timers;
            next_handle = suc q.next_handle;
          } in
          put_signer-IsSound (record state { deadline_handle = some q.next_handle }) q'
            (IsSoundBut-transfer expected signer q q' refl
              (record {
                signers_unique = b.whole.signers_unique;
                timers_unique = insert-IsUnique q.next_handle signer q.timers b.whole.timers_unique;
                timers_old = λ h s e. ground (
                  arith,
                  lookup-insert q.next_handle h signer q.timers,
                  b.whole.timers_old h s,
                  nat_eq.beq_iff q.next_handle h,
                );
                ordered = b.whole.ordered;
                within = b.whole.within;
              })
              (λ other differs. record {
                runs = refl;
                timers_to = λ k.
                    (insert-timer signer other q.next_handle q.timers b.whole.timers_old differs
                      k).0;
                timers_from = λ k.
                    (insert-timer signer other q.next_handle q.timers b.whole.timers_old differs
                      k).1;
                tasks = λ t. t;
              })
              b)
            (record {
              runs = ground (arith, i.runs, i.inactive);
              keys = i.keys;
              cursor_le = i.cursor_le;
              armed = λ h e. ground (
                arith,
                lookup-insert q.next_handle h signer q.timers,
                nat_eq.beq_iff q.next_handle h,
              );
              only_timer = λ h e. ground (
                arith,
                lookup-insert q.next_handle h signer q.timers,
                nat_eq.beq_iff q.next_handle h,
                i.only_timer h,
                unarmed,
              );
              no_deadline_while_active = λ a. ground (arith, i.inactive, a);
              wakes = λ _ e. cc;
            }))
        (λ h named. put_signer-IsSound state q b (record {
          runs = ground (arith, i.runs, i.inactive);
          keys = i.keys;
          cursor_le = i.cursor_le;
          armed = i.armed;
          only_timer = i.only_timer;
          no_deadline_while_active = λ a. ground (arith, i.inactive, a);
          wakes = λ _ e. ground (arith, named, e);
        }))

  pub release-IsSound :
      (state : SignerState) (cursor : ℕ) (q : Queue V)
      → IsSoundBut expected signer q
      → IsIdle (expected signer) signer q.running q.timers state
      → expected signer ≡ cursor
      → IsSound expected (release signer state cursor q)
  unfolding release
  release-IsSound state cursor q b i at_expected =
      match_option-ind (IsSound expected) (lookup cursor state.pending)
        (λ _.
          if-ind (IsSound expected) (is_empty state.pending) (λ _. drop_signer-IsSound state q b i)
            (λ _. wait-IsSound state q b i))
        (λ ready found. start-IsSound state cursor ready q b i at_expected found)
