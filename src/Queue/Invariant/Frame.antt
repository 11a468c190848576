-- ===== src/Queue/Invariant/Frame.antt =====
-- What an operation on one signer leaves alone: every other signer sees the same event loop.
use openzeppelin_foundry_upg.Base.{
  ℕ, ◌<◌, ◌≡◌, ◌≢◌, ◌∙◌, true, Option, none, some, List, list_eq, nat_eq, arith,
}
use openzeppelin_foundry_upg.Base.Text.{Text}
use openzeppelin_foundry_upg.Base.Dict.{
  Dict, lookup, insert, erase, IsUnique, lookup-insert, lookup-erase,
}
use openzeppelin_foundry_upg.Queue.State.{SignerState, Queue}
use openzeppelin_foundry_upg.Queue.Invariant.{
  Running, run_count, scheduled, IsSoundAt, IsSoundWhole, IsSoundBut,
}

-- What another signer sees of the event loop.
pub record Agrees (other : Text) (running running' : Running) (timers timers' : Dict ℕ Text)
    (microtasks microtasks' : List Text) : Type 0 where
  pub runs : run_count other running' ≡ run_count other running
  pub timers_to : (h : ℕ) → lookup h timers ≡ some other → lookup h timers' ≡ some other
  pub timers_from : (h : ℕ) → lookup h timers' ≡ some other → lookup h timers ≡ some other
  pub tasks : scheduled other microtasks ≡ true → scheduled other microtasks' ≡ true

abbrev pub AgreesOn : {V : Type 0} → Text → Queue V → Queue V → Type 0
AgreesOn other q q' =
    Agrees other q.running q'.running q.timers q'.timers q.microtasks q'.microtasks

module _ {V : Type 0} where
  pub IsSoundAt-transfer :
      (n : ℕ) (other : Text) (q q' : Queue V) (o : Option SignerState)
      → AgreesOn other q q'
      → IsSoundAt n other q o
      → IsSoundAt n other q' o
  IsSoundAt-transfer n other q q' none a s = record {
    runs = a.runs ∙ s.runs;
    only_timer = λ h e. s.only_timer h (a.timers_from h e);
  }
  IsSoundAt-transfer n other q q' (some state) a s = record {
    runs = a.runs ∙ s.runs;
    keys = s.keys;
    cursor_le = s.cursor_le;
    armed = λ h e. a.timers_to h (s.armed h e);
    only_timer = λ h e. s.only_timer h (a.timers_from h e);
    no_deadline_while_active = s.no_deadline_while_active;
    wakes = λ i e. a.tasks (s.wakes i e);
  }

  pub IsSoundBut-transfer :
      (expected : Text → ℕ) (signer : Text) (q q' : Queue V)
      → q'.signers ≡ q.signers
      → IsSoundWhole expected q'
      → ((other : Text) → signer ≢ other → AgreesOn other q q')
      → IsSoundBut expected signer q
      → IsSoundBut expected signer q'
  IsSoundBut-transfer expected signer q q' same w a b = record {
    whole = w;
    at = λ other differs. rw same (
        IsSoundAt-transfer (expected other) other q q' (lookup other q.signers) (a other differs)
          (b.at other differs));
  }

-- A timer of `signer` that is cleared or set is no other signer's.
pub erase-timer :
    (signer other : Text) (h : ℕ) (timers : Dict ℕ Text)
    → IsUnique timers
    → lookup h timers ≡ some signer
    → signer ≢ other
    → (k : ℕ)
    → (lookup k timers ≡ some other → lookup k (erase h timers) ≡ some other)
      × (lookup k (erase h timers) ≡ some other → lookup k timers ≡ some other)
erase-timer signer other h timers u own differs k =
    ground (arith, lookup-erase h k timers u, nat_eq.beq_iff h k, λ (p : signer ≡ other). differs p)

pub insert-timer :
    (signer other : Text) (h : ℕ) (timers : Dict ℕ Text)
    → ((k : ℕ) (s : Text) → lookup k timers ≡ some s → k < h)
    → signer ≢ other
    → (k : ℕ)
    → (lookup k timers ≡ some other → lookup k (insert h signer timers) ≡ some other)
      × (lookup k (insert h signer timers) ≡ some other → lookup k timers ≡ some other)
insert-timer signer other h timers old differs k =
    ground (arith, lookup-insert h k signer timers, old k other)
