-- ===== src/Journal/Nonces.antt =====
-- At most one record of the journal keeps a nonce of a sender.
use openzeppelin_foundry_upg.Base.{
  ℕ, ◌≡◌, sym, ◌∙◌, subst, true, false, none, some, List, [], ◌∷◌, Eq, eqb_iff, ◌==◌, nat_eq,
  list_eq, arith, ◌⊎◌, inl, inr, Bool-cases,
}
use openzeppelin_foundry_upg.Base.Text.{Text, text_iff}
use openzeppelin_foundry_upg.Base.Dict.{lookup, found_insert}
use openzeppelin_foundry_upg.Journal.State.{JournalRecord, Chain, Runtime}
use openzeppelin_foundry_upg.Journal.Validation.{is_some}
use openzeppelin_foundry_upg.Journal.Operations.{occupies, occupies_nonce, nonce_in_flight}
use openzeppelin_foundry_upg.Journal.Moves.{
  Records, records_of, Moves, arrives, recovers, builds, broadcasts, confirms, retains, fails,
  Changes, same_records, moved,
}
use openzeppelin_foundry_upg.Journal.Requests.{Request, run, run-keeps}

module _ {R : Type 0} where
  -- Two records that keep the same nonce of the same sender are one.
  abbrev pub IsNonceOnce : Records R → Type 0
  IsNonceOnce records =
      (first second : Text) (a b : JournalRecord R) (from : Text) (nonce : ℕ)
      → lookup first records ≡ some a
      → lookup second records ≡ some b
      → occupies_nonce from nonce a ≡ true
      → occupies_nonce from nonce b ≡ true
      → first ≡ second

  nonce_in_flight-other :
      (hash from : Text) (nonce : ℕ) (other : Text) (b : JournalRecord R) (d : Records R)
      → nonce_in_flight hash from nonce d ≡ false
      → lookup other d ≡ some b
      → occupies_nonce from nonce b ≡ true
      → hash ≡ other
  unfolding nonce_in_flight lookup
  nonce_in_flight-other hash from nonce other b [] h found kept = absurd (ground arith)
  nonce_in_flight-other hash from nonce other b ((k, r) ∷ d) h found kept =
      elim (Bool-cases (k == other)) [
        | inl hit ↦ ground (arith, text_iff k other, text_iff k hash)
        | inr miss ↦
            nonce_in_flight-other hash from nonce other b d (ground arith) (ground arith) kept
      ]

  -- A record that keeps a nonce after a move kept it before, or no other record keeps it.
  kept_before :
      (owner : Text) (records : Records R) (hash : Text) (after : JournalRecord R) (from : Text)
      (nonce : ℕ)
      → Moves owner records hash after
      → occupies_nonce from nonce after ≡ true
      → ((r : JournalRecord R) × (lookup hash records ≡ some r)
          × (occupies_nonce from nonce r ≡ true))
        ⊎ (nonce_in_flight hash from nonce records ≡ false)
  unfolding occupies_nonce occupies is_some
  kept_before owner records hash after from nonce (arrives source absent e) kept =
      absurd (ground arith)
  kept_before owner records hash after from nonce (recovers r found waits e) kept =
      absurd (ground arith)
  kept_before owner records hash after from nonce (builds r native prepared found waits own free e)
        kept =
      inr (
        ground (
          arith,
          text_iff prepared.operation_context.from from,
          eqb_iff prepared.operation_context.nonce nonce,
        ))
  kept_before owner records hash after from nonce (broadcasts r found before e) kept =
      inl (r, found, ground arith)
  kept_before owner records hash after from nonce (confirms r receipt found before e) kept =
      inl (r, found, ground arith)
  kept_before owner records hash after from nonce (retains r failure receipt found before e) kept =
      inl (r, found, ground arith)
  kept_before owner records hash after from nonce (fails r failure found s t own e) kept =
      absurd (ground arith)

  -- A record that keeps a nonce after a move is the only one.
  only_keeper :
      (owner : Text) (records : Records R) (hash : Text) (after : JournalRecord R)
      → IsNonceOnce records
      → Moves owner records hash after
      → (other : Text) (b : JournalRecord R) (from : Text) (nonce : ℕ)
      → lookup other records ≡ some b
      → occupies_nonce from nonce after ≡ true
      → occupies_nonce from nonce b ≡ true
      → hash ≡ other
  only_keeper owner records hash after once move other b from nonce found kept kept' =
      elim (kept_before owner records hash after from nonce move kept) [
        | inl (r, there, held) ↦ once hash other r b from nonce there found held kept'
        | inr free ↦ nonce_in_flight-other hash from nonce other b records free found kept'
      ]

  pub Changes-IsNonceOnce :
      (owner : Text) (records later : Records R)
      → Changes owner records later
      → IsNonceOnce records
      → IsNonceOnce later
  Changes-IsNonceOnce owner records later (same_records e) once = subst IsNonceOnce (sym e) once
  Changes-IsNonceOnce owner records later (moved hash after move e) once =
      subst IsNonceOnce (sym e) (λ first second a b from nonce fa fb ka kb.
        let only = only_keeper owner records hash after once move in
        elim (found_insert hash after records first a fa) [
          | inl (hit, same) ↦ elim (found_insert hash after records second b fb) [
            | inl (hit', _) ↦ sym hit ∙ hit'
            | inr old ↦ sym hit ∙ only second b from nonce old (ground (arith, ka, same)) kb
          ]
          | inr old ↦ elim (found_insert hash after records second b fb) [
            | inl (hit', same) ↦
                sym (only first a from nonce old (ground (arith, kb, same)) ka) ∙ hit'
            | inr old' ↦ once first second a b from nonce old old' ka kb
          ]
        ])

  pub empty-IsNonceOnce : IsNonceOnce []
  unfolding lookup
  empty-IsNonceOnce first second a b from nonce fa fb ka kb = absurd (ground (arith, fa))

module _ {R : Type 0} ⦃eq_receipt : Eq R⦄ (env : Runtime R) where
  -- However the calls of any journal instances follow one another from a chain without a journal,
  -- two records that keep the same nonce of the same sender (native-built, broadcast, confirmed, or
  -- failed with a receipt) are the same record.
  pub nonces_once :
      (calls : List (Text × Request R)) (chain : Chain R)
      → chain.transaction_journal ≡ none
      → (first second : Text) (a b : JournalRecord R) (from : Text) (nonce : ℕ)
      → lookup first (records_of (run env calls chain)) ≡ some a
      → lookup second (records_of (run env calls chain)) ≡ some b
      → occupies_nonce from nonce a ≡ true
      → occupies_nonce from nonce b ≡ true
      → first ≡ second
  nonces_once calls chain empty =
      let none_yet : [] ≡ records_of chain = unfold records_of in ground (arith, empty) in
      let start : IsNonceOnce (records_of chain) = subst IsNonceOnce none_yet empty-IsNonceOnce in
      run-keeps env IsNonceOnce Changes-IsNonceOnce calls chain start
