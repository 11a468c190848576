-- ===== src/Store/Refinement.antt =====
-- What the store promises, apart from files: a map from chain identities to chain states, of which
-- a transaction replaces one.
use openzeppelin_foundry_upg.Base.{
  ◌≡◌, ◌≢◌, true, false, Option, none, some, ◌==◌, Bool-cases, Option-cases, nat_eq, list_eq,
  match_option, if◌then◌else◌, arith, inl, inr, ◌⊎◌, eq_refl,
}
use openzeppelin_foundry_upg.Base.Text.{Text}
use openzeppelin_foundry_upg.Base.Result.{Result, ok, err, Result-cases}
use openzeppelin_foundry_upg.Base.Dict.{lookup, insert, lookup-insert}
use openzeppelin_foundry_upg.Base.Loops.{each}
use openzeppelin_foundry_upg.Store.State.{
  StoreState, empty_state, validate_chain_identity, validate_state, check_identity,
}
use openzeppelin_foundry_upg.Store.Files.{Files, Faults, look_up, read_file}
use openzeppelin_foundry_upg.Store.Transactions.{
  JsonStore, parse, found_file, read_state, chain_or_blank, prepare, transaction,
}
use openzeppelin_foundry_upg.Store.Crashes.{transaction_success, transaction_either}

-- The promise: the state of each chain, if it has one.
abbrev pub AbstractStore : Type 0 → Type 0
AbstractStore C = Text → Option C

unfoldable pub update : {C : Type 0} → AbstractStore C → Text → C → AbstractStore C
update chains identity chain other = if identity == other then some chain else chains other

-- A file system in which nothing fails.
abbrev pub no_faults : Faults
no_faults _ = none

module _ {C : Type 0} (store : JsonStore C) where
  -- The chains that a reader finds when nothing fails; none when the file cannot be read.
  unfoldable pub view : Files C → AbstractStore C
  view files other = elim (read_state store no_faults files) [
    | err e ↦ none
    | ok state ↦ lookup other state.chains
  ]

  -- The store does not take a file that it fails to look up for a missing one that it may create.
  abbrev pub Sees : Faults → Type 0
  Sees faults = (store.create_if_missing ≡ false) ⊎ (faults look_up ≡ none)

  -- What is read is what a reader finds when nothing fails, or the blank state.
  read_state-found :
      (faults : Faults) (files : Files C) (state : StoreState C)
      → read_state store faults files ≡ ok state
      → (read_state store no_faults files ≡ ok state)
        ⊎ ((state ≡ empty_state) × (store.create_if_missing ≡ true) × (faults look_up ≢ none))
  unfolding read_state found_file
  read_state-found faults files state h = elim (Option-cases (faults look_up)) [
    | inl works ↦ elim (Option-cases files.target) [
      | inl absent ↦ inl (ground (arith, h, works, absent))
      | inr (file, there) ↦ elim (Option-cases (faults read_file)) [
        | inl done ↦ inl (ground (arith, h, works, there, done))
        | inr (code, failed) ↦ absurd (ground (arith, h, works, there, failed))
      ]
    ]
    | inr (code, failed) ↦ elim (Bool-cases store.create_if_missing) [
      | inl creates ↦
          inr (ground (arith, h, failed, creates), creates, λ e. ground (arith, failed, e))
      | inr strict ↦ absurd (ground (arith, h, failed, strict))
    ]
  ]

  read_state-Sees :
      (faults : Faults) (files : Files C) (state : StoreState C)
      → Sees faults
      → read_state store faults files ≡ ok state
      → read_state store no_faults files ≡ ok state
  read_state-Sees faults files state sees h = elim (read_state-found faults files state h) [
    | inl found ↦ found
    | inr (blank, creates, failed) ↦ elim sees [
      | inl strict ↦ absurd (ground (arith, creates, strict))
      | inr works ↦ absurd (failed works)
    ]
  ]

validate_state_same :
    {C : Type 0} (state next : StoreState C) → validate_state state ≡ ok next → state ≡ next
unfolding validate_state
validate_state_same state next h = elim (Result-cases (each check_identity state.chains)) [
  | inl (e, f) ↦ absurd (ground (arith, f))
  | inr (u, f) ↦ ground (arith, f)
]

module _ {C T : Type 0} (store : JsonStore C) (faults : Faults) (files : Files C) (identity : Text)
    (callback : C → Result (C × T)) where
  -- The stages of a preparation that succeeded.
  prepared :
      (next : StoreState C) (result : T)
      → prepare store faults files identity callback ≡ ok (next, result)
      → (state : StoreState C) × (chain : C) × (read_state store faults files ≡ ok state)
        × (callback (chain_or_blank store identity state) ≡ ok (chain, result))
        × (validate_state next ≡ ok next)
        × (next.chains ≡ insert identity chain state.chains)
  unfolding prepare validate_chain_identity
  prepared next result h = elim (Result-cases (read_state store faults files)) [
    | inl (e, f) ↦ absurd (ground (arith, f))
    | inr (state, f) ↦ elim (Result-cases (callback (chain_or_blank store identity state))) [
      | inl (e, g) ↦ absurd (ground (arith, f, g))
      | inr ((chain, r), g) ↦
          elim (Result-cases
            (validate_state (record state { chains = insert identity chain state.chains }))) [
              | inl (e, k) ↦ absurd (ground (arith, f, g, k))
              | inr (next', k) ↦
                  let same =
                    validate_state_same
                      (record state { chains = insert identity chain state.chains }) next' k in
                  (
                    state,
                    chain,
                    f,
                    ground (arith, f, g, k),
                    ground (arith, f, g, k, same),
                    ground (arith, f, g, k, same),
                  )
            ]
    ]
  ]

  -- A transaction that returns has run its callback on the chain's state in the view, or on a blank
  -- one, and has replaced in the view that chain alone, unless the store may create a missing file
  -- and the file could not be looked up.
  pub transaction_refines :
      (result : T)
      → Sees store faults
      → (transaction store faults files identity callback).1 ≡ ok result
      → (chain : C) × (callback (match_option (view store files identity) store.blank (λ c. c))
          ≡ ok (chain, result))
        × ((other : Text)
            → view store (transaction store faults files identity callback).0 other
              ≡ update (view store files) identity chain other)
  unfolding view update chain_or_blank read_state found_file parse
  transaction_refines result sees success =
      let (next, ready, written) =
        transaction_success store faults files identity callback result success in
      let (state, chain, seen, called, valid, chains) = prepared next result ready in
      let read = read_state-Sees store faults files state sees seen in
      (
        chain,
        ground (arith, read, called),
        λ other.
            ground (
              arith,
              written,
              valid,
              read,
              chains,
              lookup-insert identity other chain state.chains,
            ),
      )

  -- Where a callback starts: at the chain in the view, or at a blank one when the file was not seen.
  abbrev pub Starts : C → Type 0
  Starts start =
      (start ≡ match_option (view store files identity) store.blank (λ c. c))
      ⊎ ((start ≡ store.blank) × (store.create_if_missing ≡ true))

  read-Starts :
      (state : StoreState C)
      → read_state store faults files ≡ ok state
      → Starts (chain_or_blank store identity state)
  unfolding view chain_or_blank lookup
  read-Starts state seen = elim (read_state-found store faults files state seen) [
    | inl read ↦ inl (ground (arith, read))
    | inr (blank, creates, failed) ↦ inr (ground (arith, blank), creates)
  ]

  -- However a transaction ends, the view of its chain is what it was, or what the callback returned.
  pub transaction-view :
      (view store (transaction store faults files identity callback).0 identity
        ≡ view store files identity)
      ⊎ ((start chain : C) × (result : T) × Starts start
          × (callback start ≡ ok (chain, result))
          × (view store (transaction store faults files identity callback).0 identity ≡ some chain))
  unfolding view read_state found_file parse
  transaction-view = elim (transaction_either store faults files identity callback) [
    | inl old ↦ inl (ground (arith, old))
    | inr (next, result, ready, new) ↦
        let (state, chain, read, called, valid, chains) = prepared next result ready in
        inr (
          chain_or_blank store identity state,
          chain,
          result,
          read-Starts state read,
          called,
          ground (
            arith,
            new,
            valid,
            chains,
            lookup-insert identity identity chain state.chains,
            eq_refl identity,
          ),
        )
  ]
