-- ===== src/Queue/Invariant/Admitting.antt =====
-- `enqueue` keeps the invariant.
use openzeppelin_foundry_upg.Base.{
  ℕ, suc, ◌≡◌, refl, true, Option, none, some, List, [], ◌∷◌, list_eq, nat_eq, arith, eq_refl, ◌++◌,
  match_option-ind, if-ind,
}
use openzeppelin_foundry_upg.Base.Text.{Text}
use openzeppelin_foundry_upg.Base.Dict.{lookup, insert, Entries-insert}
use openzeppelin_foundry_upg.Queue.State.{Ticket, QueueEntry, SignerState, Queue, signer_state}
use openzeppelin_foundry_upg.Queue.Admission.{admit, conflicts, enqueue, put_signer}
use openzeppelin_foundry_upg.Queue.Invariant.Release.{put_signer-IsSound}
use openzeppelin_foundry_upg.Queue.Invariant.Pumping.{IsSound→IsSoundBut}
use openzeppelin_foundry_upg.Queue.Invariant.Frame.{IsSoundBut-transfer}
use openzeppelin_foundry_upg.Queue.Invariant.{scheduled, Matches, IsSoundState, IsSoundAt, IsSound}

any-append :
    (signer : Text) (l : List Text) (s : Text)
    → scheduled signer l ≡ true
    → scheduled signer (l ++ s ∷ []) ≡ true
any-append signer [] s h = cc
any-append signer (x ∷ l) s h = ground (arith, any-append signer l s)

any-append_last : (signer : Text) (l : List Text) → scheduled signer (l ++ signer ∷ []) ≡ true
any-append_last signer [] = ground (arith, eq_refl signer)
any-append_last signer (x ∷ l) = ground (arith, any-append_last signer l)

module _ {V : Type 0} (expected : Text → ℕ) (signer : Text) where
  signer_state-IsSound :
      (q : Queue V) (nonce : ℕ) (entry : QueueEntry) (o : Option SignerState)
      → nonce ≡ entry.nonce
      → lookup signer q.signers ≡ o
      → IsSoundAt (expected signer) signer q o
      → IsSoundState
          (expected signer)
          signer
          q.running
          q.timers
          (q.microtasks ++ signer ∷ [])
          (record (signer_state q signer) {
            pending = insert nonce entry (signer_state q signer).pending;
          })
  unfolding signer_state
  signer_state-IsSound q nonce entry none at_nonce stored s =
      rw (stored, signer_state)
        (record {
          runs = s.runs;
          keys = Entries-insert Matches nonce entry [] tt at_nonce;
          cursor_le = λ c e. cc;
          armed = λ h e. cc;
          only_timer = λ h e. absurd (s.only_timer h e);
          no_deadline_while_active = λ e. cc;
          wakes = λ _ _. any-append_last signer q.microtasks;
        })
  signer_state-IsSound q nonce entry (some state) at_nonce stored s =
      rw (stored, signer_state)
        (record {
          runs = s.runs;
          keys = Entries-insert Matches nonce entry state.pending s.keys at_nonce;
          cursor_le = s.cursor_le;
          armed = s.armed;
          only_timer = s.only_timer;
          no_deadline_while_active = s.no_deadline_while_active;
          wakes = λ _ _. any-append_last signer q.microtasks;
        })

  pub admit-IsSound :
      (nonce : ℕ) (hash : Text) (q : Queue V)
      → IsSound expected q
      → IsSound expected (admit signer nonce hash q)
  unfolding admit put_signer
  admit-IsSound nonce hash q s =
      let entry : QueueEntry = record { hash = hash; nonce = nonce; promise = q.next_promise } in
      let q' : Queue V = record q {
        by_hash = insert hash q.next_promise q.by_hash;
        next_promise = suc q.next_promise;
        microtasks = q.microtasks ++ signer ∷ [];
      } in
      put_signer-IsSound expected signer _ q'
        (IsSoundBut-transfer expected signer q q' refl
          (record {
            signers_unique = s.whole.signers_unique;
            timers_unique = s.whole.timers_unique;
            timers_old = s.whole.timers_old;
            ordered = s.whole.ordered;
            within = s.whole.within;
          })
          (λ other _. record {
            runs = refl;
            timers_to = λ h e. e;
            timers_from = λ h e. e;
            tasks = any-append other q.microtasks signer;
          })
          (IsSound→IsSoundBut expected signer q s))
        (signer_state-IsSound q nonce entry (lookup signer q.signers) refl refl (s.at signer))

  pub enqueue-IsSound :
      (nonce : ℕ) (hash : Text) (q : Queue V)
      → IsSound expected q
      → IsSound expected (enqueue signer nonce hash q).0
  unfolding enqueue
  enqueue-IsSound nonce hash q s =
      match_option-ind (λ (r : Queue V × Ticket). IsSound expected r.0) (lookup hash q.by_hash)
        (λ _.
          if-ind (λ (r : Queue V × Ticket). IsSound expected r.0)
            (conflicts (lookup nonce (signer_state q signer).pending) hash) (λ _. s)
            (λ _. admit-IsSound nonce hash q s))
        (λ _ _. s)
