-- ===== src/Journal/Durable.antt =====
-- The journal on the durable store: each call is a transaction, any operation of the file system
-- may fail, and the process may stop.
use openzeppelin_foundry_upg.Base.{
  ℕ, ◌≡◌, sym, ap, subst, none, some, List, [], ◌∷◌, Eq, nat_eq, list_eq, match_option, true, false,
  ◌⊎◌, inl, inr, arith,
}
use openzeppelin_foundry_upg.Base.Text.{Text}
use openzeppelin_foundry_upg.Base.Result.{Result}
use openzeppelin_foundry_upg.Base.Dict.{lookup}
use openzeppelin_foundry_upg.Journal.State.{JournalRecord, Chain, Runtime}
use openzeppelin_foundry_upg.Journal.Operations.{occupies_nonce}
use openzeppelin_foundry_upg.Journal.Moves.{Records, records_of, Changes}
use openzeppelin_foundry_upg.Journal.Requests.{Request, callback, callback-Changes}
use openzeppelin_foundry_upg.Journal.Nonces.{IsNonceOnce, Changes-IsNonceOnce, empty-IsNonceOnce}
use openzeppelin_foundry_upg.Journal.Lifecycle.{IsLater, IsLater-refl, Holds, Changes-Holds}
use openzeppelin_foundry_upg.Store.Files.{Files, Faults, holds}
use openzeppelin_foundry_upg.Store.State.{empty_state, validate_state}
use openzeppelin_foundry_upg.Base.Loops.{each}
use openzeppelin_foundry_upg.Store.Transactions.{
  JsonStore, read_state, found_file, parse, transaction,
}
use openzeppelin_foundry_upg.Store.Refinement.{view, transaction-view}

-- One call: the operations of the file system that fail in it, the journal instance, the request.
pub record DurableCall (R : Type 0) : Type 0 where
  pub faults : Faults
  pub owner : Text
  pub request : Request R

module _ {R : Type 0} ⦃eq_receipt : Eq R⦄ (env : Runtime R) (store : JsonStore (Chain R))
    (identity : Text) where
  -- `this.store.transaction(this.chainIdentity, chain => …)`
  unfoldable pub durable_call :
      DurableCall R → Files (Chain R) → Files (Chain R) × Result (JournalRecord R)
  durable_call c files = transaction store c.faults files identity (callback env c.owner c.request)

  unfoldable pub run_durable : List (DurableCall R) → Files (Chain R) → Files (Chain R)
  run_durable [] files = files
  run_durable (c ∷ rest) files = run_durable rest (durable_call c files).0

  -- The records of the chain that the store holds for this identity.
  unfoldable pub stored_records : Files (Chain R) → Records R
  stored_records files =
      records_of (match_option (view store files identity) store.blank (λ chain. chain))

  -- A store that may create a missing file can start a call from a blank chain.
  abbrev StartsWith : (Records R → Type 0) → Type 0
  StartsWith P = (store.create_if_missing ≡ false) ⊎ P (records_of store.blank)

  durable_call-keeps :
      (P : Records R → Type 0)
      → ((owner : Text) (records later : Records R)
          → Changes owner records later
          → P records
          → P later)
      → StartsWith P
      → (c : DurableCall R) (files : Files (Chain R)) → P (stored_records files)
      → P (stored_records (durable_call c files).0)
  unfolding durable_call stored_records
  durable_call-keeps P keeps starts c files p =
      elim (transaction-view store c.faults files identity (callback env c.owner c.request)) [
        | inl same ↦
            subst P (ap (λ o. records_of (match_option o store.blank (λ chain. chain))) (sym same))
              p
        | inr (start, chain, r, from, called, now) ↦
            let before : P (records_of start) = elim from [
              | inl shown ↦ subst (λ (s : Chain R). P (records_of s)) (sym shown) p
              | inr (blank, creates) ↦ elim starts [
                | inl strict ↦ absurd (ground (arith, creates, strict))
                | inr fresh ↦ subst (λ (s : Chain R). P (records_of s)) (sym blank) fresh
              ]
            ] in
            subst P (ap (λ o. records_of (match_option o store.blank (λ chain. chain))) (sym now)) (
              keeps c.owner (records_of start) (records_of chain)
                (callback-Changes env c.owner c.request start chain r called) before)
      ]

  pub run_durable-keeps :
      (P : Records R → Type 0)
      → ((owner : Text) (records later : Records R)
          → Changes owner records later
          → P records
          → P later)
      → StartsWith P
      → (calls : List (DurableCall R)) (files : Files (Chain R)) → P (stored_records files)
      → P (stored_records (run_durable calls files))
  unfolding run_durable
  run_durable-keeps P keeps starts [] files p = p
  run_durable-keeps P keeps starts (c ∷ rest) files p =
      run_durable-keeps P keeps starts rest (durable_call c files).0
        (durable_call-keeps P keeps starts c files p)

  -- A new store: there is no state file yet, or the one that `createStateFile` writes.
  abbrev pub IsNew : Files (Chain R) → Type 0
  IsNew files = (files.target ≡ none) ⊎ (files.target ≡ some (holds empty_state))

  -- From no state file, or from the one that `createStateFile` writes, and with a blank chain that
  -- has no journal: whatever calls follow and whatever operations of the file system fail in them,
  -- two stored records that keep the same nonce of the same sender are the same record.
  pub durable_nonces_once :
      (calls : List (DurableCall R)) (files : Files (Chain R))
      → IsNew files
      → store.blank.transaction_journal ≡ none
      → (first second : Text) (a b : JournalRecord R) (from : Text) (nonce : ℕ)
      → lookup first (stored_records (run_durable calls files)) ≡ some a
      → lookup second (stored_records (run_durable calls files)) ≡ some b
      → occupies_nonce from nonce a ≡ true
      → occupies_nonce from nonce b ≡ true
      → first ≡ second
  durable_nonces_once calls files fresh blank =
      let nothing : [] ≡ records_of store.blank = unfold records_of in ground (arith, blank) in
      let none_yet : [] ≡ stored_records files =
        unfold stored_records view read_state found_file parse validate_state each records_of
          lookup in
        elim fresh [
          | inl absent ↦ ground (arith, absent, blank)
          | inr made ↦ ground (arith, made, blank)
        ] in
      let start : IsNonceOnce (stored_records files) =
        subst IsNonceOnce none_yet empty-IsNonceOnce in
      run_durable-keeps IsNonceOnce Changes-IsNonceOnce
        (inr (subst IsNonceOnce nothing empty-IsNonceOnce)) calls files start

  -- In a store that does not create a missing file, once a record is stored, it is still stored
  -- after any calls in which any operations of the file system fail, for the same source
  -- transaction, in the same state or a later one; a confirmed or failed record is unchanged.
  pub durable_records_last :
      (calls : List (DurableCall R)) (files : Files (Chain R)) (hash : Text)
      (before : JournalRecord R)
      → store.create_if_missing ≡ false
      → lookup hash (stored_records files) ≡ some before
      → (after : JournalRecord R) × (lookup hash (stored_records (run_durable calls files))
          ≡ some after)
        × IsLater before after
  durable_records_last calls files hash before strict found =
      run_durable-keeps (Holds hash before) (Changes-Holds hash before) (inl strict) calls files
        (before, found, IsLater-refl before)
