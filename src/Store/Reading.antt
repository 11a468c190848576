-- ===== src/Store/Reading.antt =====
-- What `readChain` returns, without the code that reads.
use openzeppelin_foundry_upg.Base.{
  ◌≡◌, ◌≢◌, ◌↔◌, ◌⊎◌, sym, subst, inl, inr, refl, true, false, Option, none, some, [], ◌∷◌, eqb,
  eqb_iff, nat_eq, list_eq, match_option, if◌then◌else◌, arith, Bool-cases, Option-cases,
}
use openzeppelin_foundry_upg.Base.Text.{Text, codes, text_iff}
use openzeppelin_foundry_upg.Base.Result.{ok, err, Result-cases}
use openzeppelin_foundry_upg.Base.Dict.{Dict, lookup, Entries}
use openzeppelin_foundry_upg.Base.Loops.{each, >>-split}
use openzeppelin_foundry_upg.Store.Naming.{differs, IsIdentity, validate_chain_identity_iff}
use openzeppelin_foundry_upg.Store.State.{
  StoreState, validate_chain_identity, check_identity, validate_state, empty_state,
}
use openzeppelin_foundry_upg.Store.Files.{File, holds, garbled, Files, Faults, look_up, read_file}
use openzeppelin_foundry_upg.Store.Transactions.{
  JsonStore, parse, found_file, read_state, is_inherited, read_chain,
}

abbrev pub IsValidState : {C : Type 0} → StoreState C → Type 0
IsValidState state =
    (state.version ≡ 1) × Entries (λ identity chain. IsIdentity identity) state.chains

module _ {C : Type 0} where
  check_identity_iff :
      (identity : Text) (chain : C) → (check_identity identity chain ≡ ok tt) ↔ IsIdentity identity
  unfolding check_identity
  check_identity_iff identity chain = (
    λ h. elim (Result-cases (validate_chain_identity identity)) [
      | inl (e, f) ↦ absurd (ground (arith, h, f))
      | inr (key, f) ↦ ((validate_chain_identity_iff identity key).0 f).0
    ],
    λ named. ground (arith, (validate_chain_identity_iff identity identity).1 (named, refl)),
  )

  each_check_iff :
      (chains : Dict Text C)
      → (each check_identity chains ≡ ok tt)
        ↔ Entries (λ identity chain. IsIdentity identity) chains
  unfolding each
  each_check_iff [] = (λ h. tt, λ h. refl)
  each_check_iff ((k, c) ∷ rest) = (
    λ h.
        let (now, later) = >>-split (check_identity k c) (each check_identity rest) tt h in
        ((check_identity_iff k c).0 now, (each_check_iff rest).0 later),
    λ (now, later). ground (arith, (check_identity_iff k c).1 now, (each_check_iff rest).1 later),
  )

  validate_state_iff :
      (state next : StoreState C)
      → (validate_state state ≡ ok next) ↔ (IsValidState state × (next ≡ state))
  unfolding validate_state
  validate_state_iff state next = (
    λ h. elim (Bool-cases (eqb state.version 1)) [
      | inr other ↦ absurd (ground (arith, other))
      | inl one ↦ elim (Result-cases (each check_identity state.chains)) [
        | inl (e, f) ↦ absurd (ground (arith, one, f))
        | inr (u, f) ↦ (
          (ground (arith, one, eqb_iff state.version 1), (each_check_iff state.chains).0 f),
          ground (arith, one, f),
        )
      ]
    ],
    λ ((version, entries), same).
        ground
          (arith, version, same, eqb_iff state.version 1, (each_check_iff state.chains).1 entries),
  )

-- A text under which no object finds an inherited member that an identity can name.
abbrev pub IsOwn : Text → Type 0
IsOwn key =
    (key ≢ codes "hasOwnProperty")
    × (key ≢ codes "isPrototypeOf")
    × (key ≢ codes "propertyIsEnumerable")
    × (key ≢ codes "toLocaleString")
    × (key ≢ codes "toString")
    × (key ≢ codes "valueOf")

is_inherited_iff : (key : Text) → (is_inherited key ≡ false) ↔ IsOwn key
unfolding is_inherited
is_inherited_iff key = (
  λ h. (
    λ e. ground (arith, h, (text_iff key (codes "hasOwnProperty")).1 e),
    λ e. ground (arith, h, (text_iff key (codes "isPrototypeOf")).1 e),
    λ e. ground (arith, h, (text_iff key (codes "propertyIsEnumerable")).1 e),
    λ e. ground (arith, h, (text_iff key (codes "toLocaleString")).1 e),
    λ e. ground (arith, h, (text_iff key (codes "toString")).1 e),
    λ e. ground (arith, h, (text_iff key (codes "valueOf")).1 e),
  ),
  λ (a, b, c, d, e, f).
      let first = differs key (codes "hasOwnProperty") a in
      let second = differs key (codes "isPrototypeOf") b in
      let third = differs key (codes "propertyIsEnumerable") c in
      let fourth = differs key (codes "toLocaleString") d in
      let fifth = differs key (codes "toString") e in
      let sixth = differs key (codes "valueOf") f in
      ground (arith, first, second, third, fourth, fifth, sixth),
)

-- What `structuredClone` makes of what `chains[key]` finds.
answer_iff :
    {C : Type 0} (identity : Text) (found chain : Option C)
    → (match_option found
          (if is_inherited identity then err "The chain could not be cloned" else ok none)
          (λ c. ok (some c))
        ≡ ok chain)
      ↔ ((chain ≡ found) × (IsOwn identity ⊎ (chain ≢ none)))
answer_iff identity none chain = (
  λ h. elim (Bool-cases (is_inherited identity)) [
    | inl inherited ↦ absurd (ground (arith, h, inherited))
    | inr own ↦ (ground (arith, h, own), inl ((is_inherited_iff identity).0 own))
  ],
  λ (same, plain). elim plain [
    | inl own ↦ ground (arith, same, (is_inherited_iff identity).1 own)
    | inr there ↦ absurd (there same)
  ],
)
answer_iff identity (some c) chain = (
  λ h. (ground (arith, h), inr (λ e. ground (arith, h, e))),
  λ (same, plain). ground (arith, same),
)

module _ {C : Type 0} (store : JsonStore C) (faults : Faults) (files : Files C) where
  -- The file is missing, or cannot be looked up, and the store creates a missing file.
  abbrev pub IsUnseen : Type 0
  IsUnseen = (store.create_if_missing ≡ true) × ((files.target ≡ none) ⊎ (faults look_up ≢ none))

  -- The file is seen and read, and holds this state.
  abbrev pub IsStored : StoreState C → Type 0
  IsStored state =
      (files.target ≡ some (holds state))
      × (faults look_up ≡ none)
      × (faults read_file ≡ none)
      × IsValidState state

  read_state_iff :
      (state : StoreState C)
      → (read_state store faults files ≡ ok state)
        ↔ ((IsUnseen × (state ≡ empty_state)) ⊎ IsStored state)
  unfolding read_state found_file parse
  read_state_iff state = (read, written)
    where
      stored :
          (file : File C)
          → faults look_up ≡ none
          → files.target ≡ some file
          → read_state store faults files ≡ ok state
          → IsStored state
      stored garbled works there h = absurd (ground (arith, h, works, there))
      stored (holds found) works there h = elim (Option-cases (faults read_file)) [
        | inr (code, failed) ↦ absurd (ground (arith, h, works, there, failed))
        | inl done ↦
            let (valid, same) =
              (validate_state_iff found state).0 (ground (arith, h, works, there, done)) in
            (ground (arith, there, same), works, done, subst IsValidState (sym same) valid)
      ]

      read :
          read_state store faults files ≡ ok state
          → (IsUnseen × (state ≡ empty_state)) ⊎ IsStored state
      read h = elim (Bool-cases store.create_if_missing) [
        | inl creates ↦ elim (Option-cases (faults look_up)) [
          | inr (code, failed) ↦
              inl (
                (creates, inr (λ e. ground (arith, failed, e))),
                ground (arith, h, creates, failed),
              )
          | inl works ↦ elim (Option-cases files.target) [
            | inl absent ↦ inl ((creates, inl absent), ground (arith, h, creates, works, absent))
            | inr (file, there) ↦ inr (stored file works there h)
          ]
        ]
        | inr strict ↦ elim (Option-cases (faults look_up)) [
          | inr (code, failed) ↦ absurd (ground (arith, h, strict, failed))
          | inl works ↦ elim (Option-cases files.target) [
            | inl absent ↦ absurd (ground (arith, h, strict, works, absent))
            | inr (file, there) ↦ inr (stored file works there h)
          ]
        ]
      ]

      written :
          (IsUnseen × (state ≡ empty_state)) ⊎ IsStored state
          → read_state store faults files ≡ ok state
      written (inl ((creates, inl absent), same)) = elim (Option-cases (faults look_up)) [
        | inl works ↦ ground (arith, creates, absent, same, works)
        | inr (code, failed) ↦ ground (arith, creates, same, failed)
      ]
      written (inl ((creates, inr unseen), same)) = elim (Option-cases (faults look_up)) [
        | inl works ↦ absurd (unseen works)
        | inr (code, failed) ↦ ground (arith, creates, same, failed)
      ]
      written (inr (there, works, done, valid)) =
          ground (arith, there, works, done, (validate_state_iff state state).1 (valid, refl))

  -- What the file says of a chain: nothing when it is not seen, else what is stored under the name.
  abbrev pub Says : Text → Option C → Type 0
  Says identity chain =
      (IsUnseen × (chain ≡ none))
      ⊎ ((state : StoreState C) × IsStored state × (chain ≡ lookup identity state.chains))

  -- `readChain` returns a chain, or that there is none, exactly when the identity is well formed and
  -- that is what the file says: nothing when the file is missing or cannot be looked up and the
  -- store creates a missing file, and otherwise what a file that can be read, of version 1 and with
  -- well-formed identities only, has under the identity; but it never returns that there is none
  -- for an identity that is one of six keys of `Object.prototype`.
  pub read_chain_iff :
      (identity : Text) (chain : Option C)
      → (read_chain store faults files identity ≡ ok chain)
        ↔ (IsIdentity identity × Says identity chain × (IsOwn identity ⊎ (chain ≢ none)))
  unfolding read_chain lookup
  read_chain_iff identity chain = (read, written)
    where
      said :
          (state : StoreState C)
          → read_state store faults files ≡ ok state
          → Says identity (lookup identity state.chains)
      said state h = elim ((read_state_iff state).0 h) [
        | inl (unseen, blank) ↦ inl (unseen, ground (arith, blank))
        | inr there ↦ inr (state, there, refl)
      ]

      read :
          read_chain store faults files identity ≡ ok chain
          → IsIdentity identity × Says identity chain × (IsOwn identity ⊎ (chain ≢ none))
      read h = elim (Result-cases (validate_chain_identity identity)) [
        | inl (e, f) ↦ absurd (ground (arith, h, f))
        | inr (key, f) ↦ elim (Result-cases (read_state store faults files)) [
          | inl (e, g) ↦ absurd (ground (arith, h, f, g))
          | inr (state, g) ↦
              let (named, same) = (validate_chain_identity_iff identity key).0 f in
              let (found, plain) =
                (answer_iff identity (lookup identity state.chains) chain).0
                  (ground (arith, h, f, g, same)) in
              (named, subst (Says identity) (sym found) (said state g), plain)
        ]
      ]

      written :
          IsIdentity identity × Says identity chain × (IsOwn identity ⊎ (chain ≢ none))
          → read_chain store faults files identity ≡ ok chain
      written (named, says, plain) =
          let valid = (validate_chain_identity_iff identity identity).1 (named, refl) in
          elim says [
            | inl (unseen, absent) ↦
                let seen = (read_state_iff empty_state).1 (inl (unseen, refl)) in
                ground (arith, valid, seen, (answer_iff identity none chain).1 (absent, plain))
            | inr (state, there, found) ↦
                let seen = (read_state_iff state).1 (inr there) in
                ground (
                  arith,
                  valid,
                  seen,
                  (answer_iff identity (lookup identity state.chains) chain).1 (found, plain),
                )
          ]
