-- ===== src/Journal/Lifecycle.antt =====
-- The life of one record: it is never dropped, its state only advances, and what was built or
-- ended stays.
use openzeppelin_foundry_upg.Base.{
  ℕ, ◌≡◌, ◌≢◌, ◌≤◌, refl, sym, ◌∙◌, ap, subst, false, some, List, Eq, ◌==◌, nat_eq, list_eq, arith,
  inl, inr, Bool-cases, Option-cases, eq_refl,
}
use openzeppelin_foundry_upg.Base.Text.{Text, text_iff}
use openzeppelin_foundry_upg.Base.Result.{ok, Result-cases}
use openzeppelin_foundry_upg.Base.Dict.{lookup, lookup-insert}
use openzeppelin_foundry_upg.Journal.State.{
  JournalState, received, native_built, broadcast, confirmed, failed, JournalRecord, Chain, Runtime,
  ReceiveResult,
}
use openzeppelin_foundry_upg.Journal.Validation.{normalize_source_transaction}
use openzeppelin_foundry_upg.Journal.Records.{require_journal}
use openzeppelin_foundry_upg.Journal.Operations.{fresh_record, put_record, receive_in_chain}
use openzeppelin_foundry_upg.Journal.Moves.{
  Records, records_of, records_of-require_journal, records_of-put_record, Moves, arrives, recovers,
  builds, broadcasts, confirms, retains, fails, Changes, same_records, moved,
}
use openzeppelin_foundry_upg.Journal.Requests.{Request, run, run-keeps}

-- How far a record has come.
abbrev pub stage : JournalState → ℕ
stage received = 0
stage native_built = 1
stage broadcast = 2
stage confirmed = 3
stage failed = 3

-- A record and what has become of it.
pub record IsLater {R : Type 0} (before after : JournalRecord R) : Type 0 where
  pub same_hash : after.source_transaction_hash ≡ before.source_transaction_hash
  pub same_source : after.signed_ethereum_transaction ≡ before.signed_ethereum_transaction
  pub advances : stage before.state ≤ stage after.state
  pub ended : stage before.state ≡ 3 → after ≡ before
  pub stays_built : 1 ≤ stage before.state → after.built ≡ before.built

module _ {R : Type 0} where
  pub IsLater-refl : (r : JournalRecord R) → IsLater r r
  IsLater-refl r = record {
    same_hash = refl;
    same_source = refl;
    advances = omega arith;
    ended = λ e. refl;
    stays_built = λ e. refl;
  }

  -- Everything under a key is later than what stood there before.
  abbrev pub Holds : Text → JournalRecord R → Records R → Type 0
  Holds hash before records =
      (after : JournalRecord R) × (lookup hash records ≡ some after) × IsLater before after

  IsLater-trans : (a b c : JournalRecord R) → IsLater a b → IsLater b c → IsLater a c
  IsLater-trans a b c f g = record {
    same_hash = g.same_hash ∙ f.same_hash;
    same_source = g.same_source ∙ f.same_source;
    advances = omega (arith, f.advances, g.advances);
    ended = λ e. g.ended (ap (λ r. stage r.state) (f.ended e) ∙ e) ∙ f.ended e;
    stays_built = λ e. g.stays_built (omega (arith, f.advances)) ∙ f.stays_built e;
  }

  -- A record in a state before the last.
  step-IsLater :
      (r after : JournalRecord R)
      → after.source_transaction_hash ≡ r.source_transaction_hash
      → after.signed_ethereum_transaction ≡ r.signed_ethereum_transaction
      → stage r.state ≤ stage after.state
      → stage r.state ≢ 3
      → (1 ≤ stage r.state → after.built ≡ r.built)
      → IsLater r after
  step-IsLater r after h s a open_record b = record {
    same_hash = h;
    same_source = s;
    advances = a;
    ended = λ e. absurd (open_record e);
    stays_built = b;
  }

  Moves-IsLater :
      (owner : Text) (records : Records R) (hash : Text) (r after : JournalRecord R)
      → Moves owner records hash after
      → lookup hash records ≡ some r
      → IsLater r after
  Moves-IsLater owner records hash r after (arrives source absent e) found = absurd (ground arith)
  Moves-IsLater owner records hash r after (recovers old there waits e) found =
      step-IsLater r after (ground arith) (ground arith) (ground arith) (ground arith)
        (λ k. ground arith)
  Moves-IsLater owner records hash r after (builds old native prepared there waits own free e)
        found =
      step-IsLater r after (ground arith) (ground arith) (ground arith) (ground arith)
        (λ k. ground arith)
  Moves-IsLater owner records hash r after (broadcasts old there before e) found =
      step-IsLater r after (ground arith) (ground arith) (ground arith) (ground arith)
        (λ k. ground arith)
  Moves-IsLater owner records hash r after (confirms old receipt there before e) found =
      step-IsLater r after (ground arith) (ground arith) (ground arith) (ground arith)
        (λ k. ground arith)
  Moves-IsLater owner records hash r after (retains old failure receipt there before e) found =
      step-IsLater r after (ground arith) (ground arith) (ground arith) (ground arith)
        (λ k. ground arith)
  Moves-IsLater owner records hash r after (fails old failure there s t own e) found =
      step-IsLater r after (ground arith) (ground arith) (ground arith) (ground arith)
        (λ k. ground arith)

  pub Changes-Holds :
      (hash : Text) (before : JournalRecord R) (owner : Text) (records later : Records R)
      → Changes owner records later
      → Holds hash before records
      → Holds hash before later
  Changes-Holds hash before owner records later (same_records e) holds =
      subst (Holds hash before) (sym e) holds
  Changes-Holds hash before owner records later (moved key after move e) (now, found, kept) =
      subst (Holds hash before) (sym e) (elim (Bool-cases (key == hash)) [
        | inl hit ↦
            let same : key ≡ hash = (text_iff key hash).0 hit in
            (
              after,
              ground (arith, lookup-insert key hash after records),
              IsLater-trans before now after kept
                  (Moves-IsLater owner records key now after move (ground (arith, found, same))),
            )
        | inr miss ↦ (now, ground (arith, found, lookup-insert key hash after records), kept)
      ])

module _ {R : Type 0} ⦃eq_receipt : Eq R⦄ (env : Runtime R) where
  -- Whatever calls of any journal instances follow, a record is still there afterwards, for the
  -- same source transaction, in the same state or a later one; a confirmed or failed record is
  -- unchanged, and the native transaction of a record that has one is never replaced.
  pub records_last :
      (calls : List (Text × Request R)) (chain : Chain R) (hash : Text) (before : JournalRecord R)
      → lookup hash (records_of chain) ≡ some before
      → (after : JournalRecord R) × (lookup hash (records_of (run env calls chain)) ≡ some after)
        × IsLater before after
  records_last calls chain hash before found =
      run-keeps env (Holds hash before) (Changes-Holds hash before) calls chain
        (before, found, IsLater-refl before)

  receive_stored :
      (owner signed source : Text) (chain chain' : Chain R) (result : ReceiveResult R)
      → normalize_source_transaction signed ≡ ok source
      → receive_in_chain env owner signed chain ≡ ok (chain', result)
      → (r : JournalRecord R) × (lookup (env.keccak256 source) (records_of chain') ≡ some r)
  unfolding receive_in_chain
  receive_stored owner signed source chain chain' result f h =
      elim (Result-cases (require_journal env chain)) [
        | inl (e, g) ↦ absurd (ground (arith, f, g))
        | inr (journal, g) ↦
            let hash = env.keccak256 source in
            elim (Option-cases (lookup hash journal.records)) [
              | inl absent ↦
                  let r = fresh_record owner hash source in
                  let wrote : put_record chain journal hash r ≡ chain' =
                    ground (arith, f, g, absent) in
                  (
                    r,
                    ap (λ c. lookup hash (records_of c)) (sym wrote)
                        ∙ ap (lookup hash) (records_of-put_record chain journal hash r)
                        ∙ ground (arith, lookup-insert hash hash r journal.records, eq_refl hash),
                  )
              | inr (existing, found) ↦
                  let kept : chain ≡ chain' = ground (arith, f, g, found) in
                  (
                    existing,
                    ap (λ c. lookup hash (records_of c)) (sym kept)
                        ∙ ap (lookup hash) (sym (records_of-require_journal env chain journal g))
                        ∙ found,
                  )
            ]
      ]

  receive_again :
      (owner signed source : Text) (chain chain' : Chain R) (result : ReceiveResult R)
      (r : JournalRecord R)
      → normalize_source_transaction signed ≡ ok source
      → lookup (env.keccak256 source) (records_of chain) ≡ some r
      → receive_in_chain env owner signed chain ≡ ok (chain', result)
      → result.should_build ≡ false
  unfolding receive_in_chain
  receive_again owner signed source chain chain' result r f found h =
      elim (Result-cases (require_journal env chain)) [
        | inl (e, g) ↦ absurd (ground (arith, f, g))
        | inr (journal, g) ↦
            let there : lookup (env.keccak256 source) journal.records ≡ some r =
              ap (lookup (env.keccak256 source)) (records_of-require_journal env chain journal g)
              ∙ found in
            ground (arith, f, g, there)
      ]

  -- Once `receive` has returned for a source transaction, no later `receive` of it by any journal
  -- instance asks to build it, whatever calls come between, recoveries by other instances included.
  pub received_once :
      (owner other signed : Text) (chain first later last : Chain R)
      (result again : ReceiveResult R) (calls : List (Text × Request R))
      → receive_in_chain env owner signed chain ≡ ok (first, result)
      → run env calls first ≡ later
      → receive_in_chain env other signed later ≡ ok (last, again)
      → again.should_build ≡ false
  received_once owner other signed chain first later last result again calls h between k =
      elim (Result-cases (normalize_source_transaction signed)) [
        | inl (e, f) ↦ absurd (unfold receive_in_chain in ground (arith, f))
        | inr (source, f) ↦
            let (r, stored) = receive_stored owner signed source chain first result f h in
            let (after, found, _) = records_last calls first (env.keccak256 source) r stored in
            receive_again other signed source later last again after f
              (ap (λ c. lookup (env.keccak256 source) (records_of c)) (sym between) ∙ found) k
      ]
